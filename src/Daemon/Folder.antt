-- ===== src/Daemon/Folder.antt =====
-- What the peer's messages and the own folder's events do to the catalogue, the shared folder and the
-- cache: the handlers of daemon/src/odl_tb5_daemon_sync.c that `sync_dispatch_msg` calls, apart from
-- those of a transfer. The file system's answers are arguments. Watch descriptors are left out, and
-- parent directories are taken to exist.
pub mod Events
pub mod Listing
pub mod Agreement
pub mod Overwritten
pub mod Nested
pub mod LastCopy
use odin_link_five.Prelude.{
  ℕ, Bool, true, false, ◌&&◌, ◌||◌, not, List, [], ◌∷◌, ◌++◌, Option, none, some, if◌then◌else◌,
  ltb, ◌==◌, replicate, map,
}
use odin_link_five.Errno.{Errno, Status, ok, fail}
use odin_link_five.Daemon.Message.{
  Message, remove_ack_msg, file_changed_msg, file_removed_msg, sync_req_msg, listing_end_msg,
  listing_entry_msg,
}
use odin_link_five.Daemon.Table.{FilePath, Table, lookup, remove, insert}
use odin_link_five.Daemon.Catalog.{
  Location, local, remote, cached, everywhere, Entry, Catalog, is_local, is_remote, at_location,
  catalog_set, catalog_remove, mark_both, remove_local_copy, update_remote, slash,
}

-- What `lstat` says of a name in the shared folder.
pub data FileKind : Type 0 where
  regular directory symlink : FileKind

-- The part of `struct odl_sync_engine` that the handlers use, with the folder and the cache. `sent`
-- are the messages handed to the send functions.
pub record Shared : Type 0 where
  pub catalog : Catalog
  pub folder : Table FileKind
  pub cache : Table (List ℕ)
  pub suppress_set : Table Bool
  pub peer_listing : List (FilePath × Entry)
  pub listing_in_progress : Bool
  pub sent : List Message

-- What the file system answers: `unlink` in the folder, `symlink`, `g_mkdir_with_parents`, `g_rmdir`,
-- and `g_unlink` in the cache.
pub record FileAnswers : Type 0 where
  pub unlinked : Bool
  pub linked : Bool
  pub made : Bool
  pub removed : Bool
  pub cache_unlinked : Bool

unfoldable pub suppress_add : FilePath → Shared → Shared
unfolding insert
suppress_add p s = record s { suppress_set = insert p true s.suppress_set }

abbrev pub is_found {ℓ} : {V : Type ℓ} → Option V → Bool
is_found none = false
is_found (some _) = true

unfoldable pub suppress_check_and_remove : FilePath → Shared → Bool × Shared
unfolding lookup remove
suppress_check_and_remove p s =
    (is_found (lookup p s.suppress_set), record s { suppress_set = remove p s.suppress_set })

-- What can be unlinked: a directory cannot.
abbrev pub is_unlinked : FileAnswers → FileKind → Bool
is_unlinked a directory = false
is_unlinked a _ = a.unlinked

-- The answer of `unlink` is not looked at; `symlink` fails where a name is still taken.
abbrev pub link_over : FileAnswers → FilePath → Option FileKind → Table FileKind → Table FileKind
link_over a p none t = if a.linked then insert p symlink t else t
link_over a p (some k) t =
    if is_unlinked a k then (if a.linked then insert p symlink t else remove p t) else t

unfoldable pub create_remote_symlink : FileAnswers → FilePath → Shared → Shared
unfolding lookup insert remove suppress_add
create_remote_symlink a p s = record (suppress_add p s) {
  folder = link_over a p (lookup p s.folder) s.folder;
}

abbrev pub unlink_symlink :
    FileAnswers → FilePath → Option FileKind → Table FileKind → Table FileKind
unlink_symlink a p (some symlink) t = if a.unlinked then remove p t else t
unlink_symlink a p _ t = t

unfoldable pub remove_remote_symlink : FileAnswers → FilePath → Shared → Shared
unfolding lookup remove suppress_add
remove_remote_symlink a p s = record (suppress_add p s) {
  folder = unlink_symlink a p (lookup p s.folder) s.folder;
}

-- `ODL_SYNC_ACK_OK` is 0.
unfoldable pub file_ack : ℕ → FilePath → Shared → Shared
unfolding mark_both
file_ack status p s = if status == 0 then record s { catalog = mark_both p s.catalog } else s

-- The entry is known no more, or is known at another place.
unfoldable pub forget : FilePath → Shared → Shared
unfolding catalog_remove
forget p s = record s { catalog = catalog_remove p s.catalog }

unfoldable pub relocate : Location → FilePath → Entry → Shared → Shared
unfolding catalog_set
relocate l p e s = record s { catalog = catalog_set p (at_location l e) s.catalog }

unfoldable pub unlink_cached : FileAnswers → FilePath → Shared → Shared
unfolding remove
unlink_cached a p s = if a.cache_unlinked then record s { cache = remove p s.cache } else s

abbrev pub delete_at : FileAnswers → Location → FilePath → Entry → Shared → Shared
delete_at a remote p e s = forget p (remove_remote_symlink a p s)
delete_at a everywhere p e s = relocate local p e s
delete_at a cached p e s = forget p (remove_remote_symlink a p (unlink_cached a p s))
delete_at a local p e s = s

abbrev pub delete_found : FileAnswers → FilePath → Option Entry → Shared → Shared
delete_found a p none s = s
delete_found a p (some e) s = delete_at a e.location p e s

unfoldable pub file_delete : FileAnswers → FilePath → Shared → Shared
unfolding lookup forget relocate unlink_cached remove_remote_symlink
file_delete a p s = delete_found a p (lookup p s.catalog) s

-- `mode ? mode : 0755`
abbrev pub mode_or : ℕ → ℕ → ℕ
mode_or mode m = if mode == 0 then m else mode

unfoldable pub dir_create : FileAnswers → FilePath → ℕ → ℕ → Shared → Shared
unfolding insert suppress_add catalog_set
dir_create a p mtime mode s =
    let s' = suppress_add p s in
    let e : Entry = record {
      file_size = 0;
      mtime_ns = mtime;
      mode = mode_or mode 493;
      is_dir = true;
      sha256 = replicate 32 0;
      location = everywhere;
    } in
    if a.made
    then record s' { folder = insert p directory s.folder; catalog = catalog_set p e s.catalog }
    else s'

unfoldable pub dir_delete : FileAnswers → FilePath → Shared → Shared
unfolding remove suppress_add catalog_remove
dir_delete a p s =
    let s' = suppress_add p s in
    if a.removed
    then record s' { folder = remove p s.folder; catalog = catalog_remove p s.catalog }
    else s'

-- What `g_unlink` takes away in `odl_catalog_remove_local_copy`.
abbrev pub unlink_copy : Location → FilePath → Shared → Shared
unlink_copy remote p s = s
unlink_copy cached p s = record s { cache = remove p s.cache }
unlink_copy _ p s = record s { folder = remove p s.folder }

abbrev pub unlink_if_ok : Status → Location → FilePath → Shared → Shared
unlink_if_ok ok l p s = unlink_copy l p s
unlink_if_ok (fail _) l p s = s

abbrev pub ack_status : Status → ℕ
ack_status ok = 0
ack_status (fail _) = 2

-- The peer asks for the removal of the copy here; the status of the answer comes first.
abbrev pub remove_known : Status → FilePath → Option Entry → Shared → ℕ × Shared
remove_known unlinked p none s = (1, s)
remove_known unlinked p (some e) s =
    let s' = unlink_if_ok unlinked e.location p (suppress_add p s) in
    let (ret, catalog') = remove_local_copy p unlinked s.catalog in
    (ack_status ret, record s' { catalog = catalog' })

unfoldable pub remove_req : Status → FilePath → Shared → ℕ × Shared
unfolding lookup remove suppress_add remove_local_copy remove_ack_msg
remove_req unlinked p s =
    let (status, s') = remove_known unlinked p (lookup p s.catalog) s in
    (status, record s' { sent = s'.sent ++ (remove_ack_msg p status ∷ []) })

abbrev pub acked_at : FileAnswers → Location → FilePath → Entry → Shared → Shared
acked_at a everywhere p e s = relocate local p e s
acked_at a remote p e s = forget p (remove_remote_symlink a p s)
acked_at a _ p e s = s

abbrev pub acked_found : FileAnswers → FilePath → Option Entry → Shared → Shared
acked_found a p none s = s
acked_found a p (some e) s = acked_at a e.location p e s

unfoldable pub remove_ack : FileAnswers → ℕ → FilePath → Shared → Shared
unfolding lookup forget relocate remove_remote_symlink
remove_ack a status p s = if status == 0 then acked_found a p (lookup p s.catalog) s else s

-- A file or a directory of the peer is new or has changed; `e` has the fields of the message.
abbrev pub changed_from : Location → Location
changed_from local = everywhere
changed_from everywhere = everywhere
changed_from _ = remote

abbrev pub changed_to : Option Entry → Location
changed_to none = remote
changed_to (some old) = changed_from old.location

unfoldable pub file_changed : FileAnswers → FilePath → Entry → Shared → Shared
unfolding lookup insert suppress_add relocate create_remote_symlink
file_changed a p e s =
    let l = changed_to (lookup p s.catalog) in
    let s' = relocate l p e s in
    if not (is_remote l)
    then s'
    else if not e.is_dir
    then create_remote_symlink a p s'
    else if a.made
    then record (suppress_add p s') { folder = insert p directory s.folder }
    else suppress_add p s'

unfoldable pub remove_remote_dir : FileAnswers → FilePath → Shared → Shared
unfolding remove suppress_add
remove_remote_dir a p s =
    if a.removed then record (suppress_add p s) { folder = remove p s.folder } else suppress_add p s

abbrev pub removed_at : FileAnswers → Bool → Location → FilePath → Entry → Shared → Shared
removed_at a is_dir remote p e s =
    forget p (if is_dir then remove_remote_dir a p s else remove_remote_symlink a p s)
removed_at a is_dir everywhere p e s = relocate local p e s
removed_at a is_dir cached p e s = forget p (remove_remote_symlink a p (unlink_cached a p s))
removed_at a is_dir local p e s = s

abbrev pub removed_found : FileAnswers → Bool → FilePath → Option Entry → Shared → Shared
removed_found a is_dir p none s = s
removed_found a is_dir p (some e) s = removed_at a is_dir e.location p e s

unfoldable pub file_removed : FileAnswers → Bool → FilePath → Shared → Shared
unfolding lookup forget relocate unlink_cached remove_remote_symlink remove_remote_dir
file_removed a is_dir p s = removed_found a is_dir p (lookup p s.catalog) s
