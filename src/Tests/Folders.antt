-- ===== src/Tests/Folders.antt =====
-- The theorems on two daemons' folders, applied to small ones.
use odin_link_five.Prelude.{
  ◌≡◌, ◌≢◌, ◌↔◌, refl, true, false, [], ◌∷◌, none, some, length, ◌<◌, replicate, arith,
}
use odin_link_five.Errno.{ok}
use odin_link_five.Daemon.Table.{FilePath, lookup, Unique}
use odin_link_five.Daemon.Catalog.{Location, local, remote, everywhere, cached, Entry, at_location}
use odin_link_five.Daemon.Folder.{
  Shared, FileAnswers, regular, symlink, file_changed, file_removed, remove_req, remove_ack,
}
use odin_link_five.Daemon.Folder.Events.{
  send_file_changed, send_file_removed, create_file, watch_event,
}
use odin_link_five.Daemon.Folder.Listing.{listing, listing_entries, listing_end}
use odin_link_five.Daemon.Folder.Agreement.{
  place_of, Agree, removed-Agree, changed-Agree, request-Agree,
}
use odin_link_five.Daemon.Folder.Overwritten.{file_changed-loses}
use odin_link_five.Daemon.Catalog.Peer.{first_for}
use odin_link_five.Daemon.Folder.LastCopy.{last_copy_removed}
use odin_link_five.Daemon.Folder.Nested.{nested_forgotten}

abbrev name : FilePath
name = 97 ∷ []

abbrev below : FilePath
below = 97 ∷ 47 ∷ 98 ∷ []

abbrev entry_at : Location → Entry
entry_at l = record {
  file_size = 3;
  mtime_ns = 5;
  mode = 420;
  is_dir = false;
  sha256 = replicate 32 0;
  location = l;
}

abbrev with_entry : FilePath → Location → Shared
with_entry p l = record {
  catalog = (p, entry_at l) ∷ [];
  folder = (p, regular) ∷ [];
  cache = [];
  suppress_set = [];
  peer_listing = [];
  listing_in_progress = false;
  sent = [];
}

abbrev answers : FileAnswers
answers = record {
  unlinked = true;
  linked = true;
  made = true;
  removed = true;
  cache_unlinked = true;
}

removed-Agree_example :
    Agree
      (place_of name (send_file_removed false name (with_entry name everywhere)))
      (place_of name (file_removed answers false name (with_entry name everywhere)))
unfolding lookup odin_link_five.Daemon.Table.◌=p◌
removed-Agree_example =
    removed-Agree name (with_entry name everywhere) (with_entry name everywhere) answers false refl
      (refl, refl)

changed-Agree_example :
    let x =
      place_of name
        (send_file_changed false (some (entry_at local)) name (with_entry name everywhere)) in
    let y =
      place_of name (file_changed answers name (entry_at local) (with_entry name everywhere)) in
    (Agree x y ↔ (true ≡ false)) × (x ≡ some local) × (y ≡ some everywhere)
unfolding lookup odin_link_five.Daemon.Table.◌=p◌
changed-Agree_example =
    changed-Agree name (with_entry name everywhere) (with_entry name everywhere) false
      (some (entry_at local)) answers (entry_at local)

remote_not_cached : some remote ≢ some cached
remote_not_cached = λ e. cc

request-Agree_example :
    let (status, b) = remove_req ok name (with_entry name local) in
    Agree
      (place_of name (remove_ack answers status name (with_entry name remote)))
      (place_of name b)
unfolding lookup odin_link_five.Daemon.Table.◌=p◌
request-Agree_example =
    request-Agree name (with_entry name remote) (with_entry name local) answers ok remote_not_cached
      (refl, refl)

file_changed-loses_example :
    let s' = file_changed answers name (entry_at local) (with_entry name remote) in
    let s'' = watch_event true none name create_file s' in
    (lookup name s'.folder ≡ some symlink)
    × (s''.sent ≡ [])
    × (lookup name s''.catalog ≡ some (at_location remote (entry_at local)))
unfolding lookup odin_link_five.Daemon.Table.◌=p◌
file_changed-loses_example =
    file_changed-loses answers name (entry_at local) (with_entry name remote) refl refl refl true
      none create_file

-- An entry at both sides, and the end of a listing without it.
abbrev after_listing : Shared
after_listing = record (with_entry name everywhere) { listing_in_progress = true }

name-Unique : Unique after_listing.catalog
unfolding lookup
name-Unique = (refl, tt)

last_copy_removed_example :
    let s' = listing_end (λ _. answers) after_listing in
    let (status, s'') = remove_req ok name s' in
    (lookup name s'.catalog ≡ some (entry_at everywhere))
    × (status ≡ 0)
    × (lookup name s''.folder ≡ none)
    × (lookup name s''.catalog ≡ some (at_location remote (entry_at everywhere)))
unfolding lookup first_for odin_link_five.Daemon.Table.◌=p◌
last_copy_removed_example =
    last_copy_removed (λ _. answers) name (entry_at everywhere) after_listing name-Unique refl refl
      refl refl

below-Unique : Unique (with_entry below remote).catalog
unfolding lookup
below-Unique = (refl, tt)

one_listed : 0 < length (listing (with_entry name local).catalog)
unfolding listing odin_link_five.Daemon.Folder.Listing.here_only
    odin_link_five.Daemon.Catalog.Dir.list_dir odin_link_five.Daemon.Catalog.Dir.is_child
one_listed = omega arith

nested_forgotten_example :
    lookup below
      (listing_end
        (λ _. answers)
        (listing_entries
          (listing (with_entry name local).catalog)
          (with_entry below remote))).catalog
    ≡ none
unfolding lookup odin_link_five.Daemon.Table.◌=p◌
nested_forgotten_example =
    nested_forgotten (λ _. answers) below (entry_at remote) (with_entry name local)
      (with_entry below remote) refl one_listed below-Unique refl refl refl
