-- ===== src/Daemon/Folder/Overwritten.antt =====
-- What `sync_handle_file_changed` and then `inotify_io_cb` of daemon/src/odl_tb5_daemon_sync.c do to a
-- file in the shared folder that the catalogue does not know as being here.
use odin_link_five.Prelude.{
  ◌≡◌, refl, ap, ◌∙◌, Bool, true, false, Option, some, none, if◌then◌else◌, arith,
}
use odin_link_five.Daemon.Table.{FilePath, =p_refl, lookup, lookup-remove, lookup-insert}
use odin_link_five.Daemon.Catalog.{remote, Entry, at_location, catalog_set}
use odin_link_five.Daemon.Folder.{
  Shared, FileAnswers, regular, symlink, file_changed, relocate, create_remote_symlink,
  suppress_add, suppress_check_and_remove,
}
use odin_link_five.Daemon.Folder.Events.{WatchEvent, watch_event}
use odin_link_five.Daemon.Folder.Agreement.{place_of, says_here}

-- An event for a name that is in the set of suppressed ones changes nothing but the set.
watch_event-suppressed :
    (is_link : Bool) (found : Option Entry) (p : FilePath) (ev : WatchEvent) (s : Shared)
    → lookup p s.suppress_set ≡ some true
    → ((watch_event is_link found p ev s).catalog ≡ s.catalog)
      × ((watch_event is_link found p ev s).sent ≡ s.sent)
unfolding watch_event suppress_check_and_remove
watch_event-suppressed is_link found p ev s h = rw h (refl, refl)

module _ (a : FileAnswers) (p : FilePath) (e : Entry) (s : Shared)
    (elsewhere : says_here (place_of p s) ≡ false) (file : e.is_dir ≡ false)
    (there : lookup p s.folder ≡ some regular) where
  folder-file_changed :
      lookup p (file_changed a p e s).folder
      ≡ (if a.unlinked then (if a.linked then some symlink else none) else some regular)
  unfolding file_changed relocate create_remote_symlink suppress_add catalog_set
  folder-file_changed = ground (
    arith,
    elsewhere,
    file,
    there,
    =p_refl p,
    lookup-insert p p symlink s.folder,
    lookup-remove p p s.folder,
  )

  suppressed : lookup p (file_changed a p e s).suppress_set ≡ some true
  unfolding file_changed relocate create_remote_symlink suppress_add catalog_set
  suppressed = ground (arith, elsewhere, file, =p_refl p, lookup-insert p p true s.suppress_set)

  sent-file_changed : (file_changed a p e s).sent ≡ s.sent
  unfolding file_changed relocate create_remote_symlink suppress_add catalog_set
  sent-file_changed = ground (arith, elsewhere, file)

  catalog-file_changed : lookup p (file_changed a p e s).catalog ≡ some (at_location remote e)
  unfolding file_changed relocate create_remote_symlink suppress_add catalog_set
  catalog-file_changed =
      ground (arith, elsewhere, file, =p_refl p, lookup-insert p p (at_location remote e) s.catalog)

  -- A regular file in the shared folder that the catalogue does not count as being here, and that the
  -- peer reports a file under the path of: unless its unlink fails, it is gone, and a link stands in
  -- its place or, when the link fails, nothing. Whatever these calls answer, the file's own event,
  -- when it comes next, tells the peer nothing, and the catalogue goes on saying that the file is at
  -- the peer only.
  pub file_changed-loses :
      (is_link : Bool) (found : Option Entry) (ev : WatchEvent)
      → let s' = file_changed a p e s in
        let s'' = watch_event is_link found p ev s' in
        (lookup p s'.folder
          ≡ (if a.unlinked then (if a.linked then some symlink else none) else some regular))
        × (s''.sent ≡ s.sent)
        × (lookup p s''.catalog ≡ some (at_location remote e))
  file_changed-loses is_link found ev =
      let w = watch_event-suppressed is_link found p ev (file_changed a p e s) suppressed in
      (folder-file_changed, w.1 ∙ sent-file_changed, ap (lookup p) w.0 ∙ catalog-file_changed)
