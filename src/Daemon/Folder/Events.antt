-- ===== src/Daemon/Folder/Events.antt =====
-- The events of the own folder, `inotify_io_cb` of daemon/src/odl_tb5_daemon_sync.c.
use odin_link_five.Prelude.{
  Bool, true, false, ◌&&◌, ◌||◌, not, [], ◌∷◌, ◌++◌, Option, none, some, if◌then◌else◌, ltb,
  replicate,
}
use odin_link_five.Daemon.Message.{file_changed_msg, file_removed_msg}
use odin_link_five.Daemon.Table.{FilePath, lookup}
use odin_link_five.Daemon.Catalog.{Location, local, remote, everywhere, Entry, catalog_set}
use odin_link_five.Daemon.Folder.{Shared, forget, relocate, suppress_check_and_remove}

-- The folder's own events. `found` is what `stat` and the digest say, if the file is there.
abbrev pub own_entry : Bool → Option Entry → Entry
own_entry is_dir none = record {
  file_size = 0;
  mtime_ns = 0;
  mode = 0;
  is_dir = is_dir;
  sha256 = replicate 32 0;
  location = local;
}
own_entry is_dir (some e) = record e {
  is_dir = is_dir;
  sha256 = if not is_dir && ltb 0 e.file_size then e.sha256 else replicate 32 0;
  location = local;
}

unfoldable pub send_file_changed : Bool → Option Entry → FilePath → Shared → Shared
unfolding catalog_set file_changed_msg
send_file_changed is_dir found p s =
    let e = own_entry is_dir found in
    record s {
      catalog = catalog_set p e s.catalog;
      sent =
          s.sent ++ (file_changed_msg p e.file_size e.mtime_ns e.mode is_dir (some e.sha256) ∷ []);
    }

abbrev pub own_removed_at : Location → FilePath → Entry → Shared → Shared
own_removed_at everywhere p e s = relocate remote p e s
own_removed_at _ p e s = forget p s

abbrev pub own_removed_found : FilePath → Option Entry → Shared → Shared
own_removed_found p none s = s
own_removed_found p (some e) s = own_removed_at e.location p e s

unfoldable pub send_file_removed : Bool → FilePath → Shared → Shared
unfolding lookup forget relocate file_removed_msg
send_file_removed is_dir p s =
    let s' = own_removed_found p (lookup p s.catalog) s in
    record s' { sent = s'.sent ++ (file_removed_msg p is_dir ∷ []) }

-- What an event's mask says.
pub data WatchEvent : Type 0 where
  close_write create_dir create_file : WatchEvent
  deleted moved_from moved_to : Bool → WatchEvent

abbrev pub on_event : Option Entry → FilePath → WatchEvent → Shared → Shared
on_event found p close_write s = send_file_changed false found p s
on_event found p create_dir s = send_file_changed true found p s
on_event found p create_file s = s
on_event found p (deleted is_dir) s = send_file_removed is_dir p s
on_event found p (moved_from is_dir) s = send_file_removed is_dir p s
on_event found p (moved_to is_dir) s = send_file_changed is_dir found p s

-- A round of the loop of `inotify_io_cb`: events of the daemon's own making and of links are passed
-- over.
unfoldable pub watch_event : Bool → Option Entry → FilePath → WatchEvent → Shared → Shared
unfolding suppress_check_and_remove send_file_changed send_file_removed
watch_event is_link found p ev s =
    let (suppressed, s') = suppress_check_and_remove p s in
    if suppressed || is_link then s' else on_event found p ev s'
