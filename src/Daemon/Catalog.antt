-- ===== src/Daemon/Catalog.antt =====
-- The catalogue of daemon/src/odl_tb5_daemon_catalog.c: where each path has its copies. The lock makes
-- each function one step. The file system's answers are arguments. Paths are not cut at their size.
pub mod Scan
pub mod Peer
pub mod Local
pub mod Stale
pub mod Dir
use odin_link_five.Prelude.{
  ℕ, ◌+◌, Bool, true, false, ◌&&◌, ◌||◌, not, List, [], ◌∷◌, ◌++◌, Option, none, some,
  if◌then◌else◌, ◌==◌, length, replicate,
}
use odin_link_five.Errno.{Errno, Status, ok, fail, enoent}
use odin_link_five.Daemon.Table.{FilePath, Table, lookup, remove, insert, keep, rewrite}

-- `enum odl_file_location`.
pub data Location : Type 0 where
  local remote cached everywhere : Location

-- `struct odl_catalog_entry`; its `rel_path` is the key in the table.
pub record Entry : Type 0 where
  pub file_size : ℕ
  pub mtime_ns : ℕ
  pub mode : ℕ
  pub is_dir : Bool
  pub sha256 : List ℕ
  pub location : Location

abbrev pub Catalog : Type 0
Catalog = Table Entry

abbrev pub is_local : Location → Bool
is_local local = true
is_local _ = false

abbrev pub is_remote : Location → Bool
is_remote remote = true
is_remote _ = false

abbrev pub at_location : Location → Entry → Entry
at_location l e = record e { location = l }

-- The file system below the shared folder, as `stat` and `g_dir_read_name` show it.
mutual
  pub data Node : Type 0 where
    regular : ℕ → ℕ → ℕ → Node
    directory : ℕ → ℕ → Children → Node
    closed_directory : ℕ → ℕ → Node
    other : Node
    gone : Node

  pub data Children : Type 0 where
    no_child : Children
    child : FilePath → Node → Children → Children

abbrev pub slash : ℕ
slash = 47

abbrev pub dot : ℕ
dot = 46

abbrev pub is_hidden : FilePath → Bool
is_hidden [] = false
is_hidden (c ∷ cs) = c == dot

-- `rel_dir[0] == '\0' ? name : rel_dir/name`
abbrev pub below : FilePath → FilePath → FilePath
below [] name = name
below (c ∷ cs) name = (c ∷ cs) ++ (slash ∷ name)

abbrev pub scanned : ℕ → ℕ → ℕ → Bool → Entry
scanned size mtime mode dir = record {
  file_size = size;
  mtime_ns = mtime;
  mode = mode;
  is_dir = dir;
  sha256 = replicate 32 0;
  location = local;
}

-- What `catalog_scan_dir` inserts, in its order. A directory that does not open has no children.
unfoldable mutual
  pub scan_dir : FilePath → Children → List (FilePath × Entry)
  scan_dir rel no_child = []
  scan_dir rel (child name node rest) =
      let found = scan_node (below rel name) node in
      let more = scan_dir rel rest in if is_hidden name then more else found ++ more

  pub scan_node : FilePath → Node → List (FilePath × Entry)
  scan_node rel (regular size mtime mode) = (rel, scanned size mtime mode false) ∷ []
  scan_node rel (directory mtime mode children) =
      (rel, scanned 0 mtime mode true) ∷ scan_dir rel children
  scan_node rel (closed_directory mtime mode) = (rel, scanned 0 mtime mode true) ∷ []
  scan_node rel other = []
  scan_node rel gone = []

unfoldable pub insert_all : List (FilePath × Entry) → Catalog → Catalog
insert_all [] t = t
insert_all ((p, e) ∷ es) t = insert_all es (insert p e t)

-- `cached_at` says whether the cache has a file at the path.
abbrev pub found_cached : (FilePath → Bool) → FilePath → Entry → Entry
found_cached cached_at p e =
    if is_local e.location && not e.is_dir && cached_at p then at_location everywhere e else e

unfoldable pub scan_found : (FilePath → Bool) → List (FilePath × Entry) → Catalog → Catalog
unfolding insert_all keep rewrite
scan_found cached_at found t =
    rewrite (found_cached cached_at) (insert_all found (keep (λ e. not (is_local e.location)) t))

unfoldable pub scan_local : (FilePath → Bool) → Children → Catalog → ℕ × Catalog
unfolding scan_dir scan_found
scan_local cached_at tree t = let t' = scan_found cached_at (scan_dir [] tree) t in (length t', t')

-- The peer's listing.
abbrev pub joined : Entry → Entry
joined e = if is_local e.location then at_location everywhere e else e

abbrev pub list_one : FilePath → Entry → Option Entry → Catalog → Catalog
list_one p e none t = insert p (at_location remote e) t
list_one p e (some old) t = insert p (joined old) t

unfoldable pub list_all : List (FilePath × Entry) → Catalog → Catalog
unfolding lookup insert
list_all [] t = t
list_all ((p, e) ∷ es) t = list_all es (list_one p e (lookup p t) t)

unfoldable pub update_remote : List (FilePath × Entry) → Catalog → Catalog
unfolding list_all keep
update_remote listing t = list_all listing (keep (λ e. not (is_remote e.location)) t)

-- `odl_catalog_set` and `odl_catalog_remove`.
unfoldable pub catalog_set : FilePath → Entry → Catalog → Catalog
unfolding insert
catalog_set = insert

unfoldable pub catalog_remove : FilePath → Catalog → Catalog
unfolding remove
catalog_remove = remove

abbrev put_back : FilePath → (Entry → Entry) → Option Entry → Catalog → Catalog
put_back p f none t = t
put_back p f (some e) t = insert p (f e) t

unfoldable pub mark_cached : FilePath → Catalog → Catalog
unfolding lookup insert
mark_cached p t =
    put_back p (λ e. if is_remote e.location then at_location cached e else e) (lookup p t) t

unfoldable pub mark_both : FilePath → Catalog → Catalog
unfolding lookup insert
mark_both p t = put_back p (at_location everywhere) (lookup p t) t

-- `unlinked` is the answer of `g_unlink`; that the file is missing is no error.
abbrev pub is_enoent : Errno → Bool
is_enoent enoent = true
is_enoent _ = false

abbrev pub unlink_failed : Status → Option Errno
unlink_failed ok = none
unlink_failed (fail e) = if is_enoent e then none else some e

abbrev pub remove_copy : Location → FilePath → Entry → Option Errno → Catalog → Status × Catalog
remove_copy remote p e r t = (fail enoent, t)
remove_copy l p e (some x) t = (fail x, t)
remove_copy everywhere p e none t = (ok, insert p (at_location remote e) t)
remove_copy cached p e none t = (ok, insert p (at_location remote e) t)
remove_copy local p e none t = (ok, remove p t)

abbrev pub remove_found : FilePath → Option Entry → Status → Catalog → Status × Catalog
remove_found p none unlinked t = (fail enoent, t)
remove_found p (some e) unlinked t = remove_copy e.location p e (unlink_failed unlinked) t

unfoldable pub remove_local_copy : FilePath → Status → Catalog → Status × Catalog
unfolding lookup insert remove
remove_local_copy p unlinked t = remove_found p (lookup p t) unlinked t

-- `odl_catalog_count_local` and `odl_catalog_count_remote`.
unfoldable pub count_local : Catalog → ℕ
count_local [] = 0
count_local ((p, e) ∷ t) = (if is_remote e.location then 0 else 1) + count_local t

abbrev pub has_remote : Location → Bool
has_remote remote = true
has_remote everywhere = true
has_remote _ = false

unfoldable pub count_remote : Catalog → ℕ
count_remote [] = 0
count_remote ((p, e) ∷ t) = (if has_remote e.location then 1 else 0) + count_remote t
