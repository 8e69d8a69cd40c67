-- ===== src/Daemon/Folder/Listing.antt =====
-- The exchange of catalogues: `sync_exchange_catalog`, `sync_handle_listing_entry` and
-- `sync_handle_listing_end` of daemon/src/odl_tb5_daemon_sync.c.
use odin_link_five.Prelude.{
  Bool, true, false, ◌&&◌, not, List, [], ◌∷◌, ◌++◌, Option, none, some, if◌then◌else◌, map,
}
use odin_link_five.Errno.{Status, ok, fail}
use odin_link_five.Daemon.Message.{Message, sync_req_msg, listing_end_msg, listing_entry_msg}
use odin_link_five.Daemon.Table.{FilePath, lookup}
use odin_link_five.Daemon.Catalog.{
  Location, local, remote, cached, everywhere, Entry, Catalog, at_location, update_remote,
}
use odin_link_five.Daemon.Catalog.Dir.{is_empty, list_dir}
use odin_link_five.Daemon.Folder.{Shared, FileAnswers, create_remote_symlink}

-- The peer's listing comes entry by entry, each put before the others.
unfoldable pub listing_entry : FilePath → Entry → Shared → Shared
listing_entry p e s = record s {
  peer_listing = (p, at_location remote e) ∷ s.peer_listing;
  listing_in_progress = true;
}

abbrev pub at_peer_only : Location → Bool
at_peer_only remote = true
at_peer_only cached = true
at_peer_only _ = false

abbrev pub needs_link : Entry → Option Entry → Bool
needs_link e none = false
needs_link e (some old) = at_peer_only old.location && not e.is_dir

unfoldable pub link_listed :
    (FilePath → FileAnswers) → List (FilePath × Entry) → Catalog → Shared → Shared
unfolding lookup create_remote_symlink
link_listed answers [] t s = s
link_listed answers ((p, e) ∷ es) t s =
    link_listed answers es t
      (if needs_link e (lookup p t) then create_remote_symlink (answers p) p s else s)

unfoldable pub listing_end : (FilePath → FileAnswers) → Shared → Shared
unfolding update_remote link_listed
listing_end answers s =
    if is_empty s.peer_listing && not s.listing_in_progress
    then s
    else let t = update_remote s.peer_listing s.catalog in
      record (link_listed answers s.peer_listing t (record s { catalog = t })) {
        peer_listing = [];
        listing_in_progress = false;
      }

-- `sync_exchange_catalog` lists what `odl_catalog_list_dir("")` gives and sends what is here. Its status
-- is the answer to the first message.
abbrev pub is_here : Location → Bool
is_here local = true
is_here everywhere = true
is_here _ = false

unfoldable pub here_only : List (FilePath × Entry) → List (FilePath × Entry)
here_only [] = []
here_only ((p, e) ∷ es) =
    let rest = here_only es in if is_here e.location then (p, e) ∷ rest else rest

unfoldable pub listing : Catalog → List (FilePath × Entry)
unfolding here_only list_dir
listing t = here_only (list_dir [] t)

abbrev entry_msg : FilePath × Entry → Message
entry_msg (p, e) = listing_entry_msg p e.file_size e.mtime_ns e.mode e.is_dir (some e.sha256)

unfoldable pub exchange_catalog : Status → Shared → Shared
unfolding listing sync_req_msg listing_end_msg listing_entry_msg
exchange_catalog (fail _) s = s
exchange_catalog ok s = record s {
  sent = s.sent ++ (sync_req_msg ∷ map entry_msg (listing s.catalog)) ++ (listing_end_msg ∷ []);
}

-- The peer takes a listing, entry by entry, to its end.
unfoldable pub listing_entries : List (FilePath × Entry) → Shared → Shared
unfolding listing_entry
listing_entries [] s = s
listing_entries ((p, e) ∷ es) s = listing_entries es (listing_entry p e s)
