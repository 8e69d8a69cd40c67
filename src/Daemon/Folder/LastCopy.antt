-- ===== src/Daemon/Folder/LastCopy.antt =====
-- A file that the peer no longer has, in the exchange of catalogues and a removal:
-- `sync_handle_listing_end` and `sync_handle_remove_req` of daemon/src/odl_tb5_daemon_sync.c.
use odin_link_five.Prelude.{◌≡◌, ap, ◌∙◌, true, none, some, arith}
use odin_link_five.Errno.{ok}
use odin_link_five.Daemon.Table.{FilePath, =p_refl, lookup, lookup-remove, Unique}
use odin_link_five.Daemon.Catalog.{everywhere, remote, Entry, at_location}
use odin_link_five.Daemon.Catalog.Peer.{first_for}
use odin_link_five.Daemon.Catalog.Local.{removal, removal_at, remove_local_copy_lem}
use odin_link_five.Daemon.Catalog.Stale.{still_both}
use odin_link_five.Daemon.Folder.{Shared, FileAnswers, remove_req, suppress_add}
use odin_link_five.Daemon.Folder.Listing.{listing_end}
use odin_link_five.Daemon.Folder.Nested.{catalog-listing_end}

-- A request to remove a copy that counts as being on both sides.
removes_both :
    (p : FilePath) (e : Entry) (s : Shared)
    → lookup p s.catalog ≡ some e
    → e.location ≡ everywhere
    → let (status, s') = remove_req ok p s in
      (status ≡ 0)
      × (lookup p s'.folder ≡ none)
      × (lookup p s'.catalog ≡ some (at_location remote e))
unfolding remove_req suppress_add
removes_both p e s here both =
    let r =
      (remove_local_copy_lem p p ok s.catalog).0
      ∙ ap (λ o. removal o ok) here
      ∙ ap (λ l. removal_at l e ok) both in
    ground
      (arith, here, both, =p_refl p, lookup-remove p p s.folder, ap (λ x. x.0) r, ap (λ x. x.1) r)

module _ (answers : FilePath → FileAnswers) (p : FilePath) (e : Entry) (s : Shared)
    (u : Unique s.catalog) (both : e.location ≡ everywhere) (here : lookup p s.catalog ≡ some e)
    (listed : s.listing_in_progress ≡ true) (unlisted : first_for p s.peer_listing ≡ none) where
  kept_both : lookup p (listing_end answers s).catalog ≡ some e
  kept_both =
      ap (lookup p) (catalog-listing_end answers s listed)
      ∙ still_both p s.peer_listing e s.catalog u both here unlisted

  -- A path that counts as being on both sides still does after the end of a listing in which the peer
  -- no longer has it. A request of the peer to remove the copy that is here, when its unlink goes
  -- well, is then acknowledged with 0: the file is gone from the folder, and the entry says that the
  -- peer has it. The catalogue has one entry for each path, and a listing is in progress.
  pub last_copy_removed :
      let s' = listing_end answers s in
      let (status, s'') = remove_req ok p s' in
      (lookup p s'.catalog ≡ some e)
      × (status ≡ 0)
      × (lookup p s''.folder ≡ none)
      × (lookup p s''.catalog ≡ some (at_location remote e))
  last_copy_removed =
      let (acked, gone, says) = removes_both p e (listing_end answers s) kept_both both in
      (kept_both, acked, gone, says)
