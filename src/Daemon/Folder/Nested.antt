-- ===== src/Daemon/Folder/Nested.antt =====
-- Files below directories in the exchange of catalogues, `sync_exchange_catalog` and
-- `sync_handle_listing_end` of daemon/src/odl_tb5_daemon_sync.c.
use odin_link_five.Prelude.{
  ◌≡◌, refl, ap, ◌∙◌, true, false, not, ◌&&◌, List, [], ◌∷◌, some, none, arith, Bool-cases, inl,
  inr, if◌then◌else◌, length, ◌<◌, subst, sym,
}
use odin_link_five.Daemon.Table.{FilePath, =p_iff, lookup, Unique}
use odin_link_five.Daemon.Catalog.{remote, Entry, Catalog, is_remote, update_remote}
use odin_link_five.Daemon.Catalog.Peer.{first_for, update_remote_lem}
use odin_link_five.Daemon.Folder.{FileAnswers, Shared, create_remote_symlink, suppress_add}
use odin_link_five.Daemon.Folder.Listing.{
  listing, listing_entry, listing_entries, listing_end, link_listed, needs_link, here_only,
}
use odin_link_five.Daemon.Catalog.Dir.{is_top, is_empty, list_dir, is_child}

module _ (p : FilePath) where
  first_for-here_only :
      (es : List (FilePath × Entry)) → first_for p es ≡ none → first_for p (here_only es) ≡ none
  unfolding first_for here_only
  first_for-here_only [] h = refl
  first_for-here_only ((q, e) ∷ es) h = ground (arith, first_for-here_only es)

  first_for-list_dir : (t : Catalog) → is_top p ≡ false → first_for p (list_dir [] t) ≡ none
  unfolding first_for list_dir is_child
  first_for-list_dir [] below = refl
  first_for-list_dir ((q, e) ∷ t) below = ground (arith, first_for-list_dir t, =p_iff p q, below)

  first_for-listing : (t : Catalog) → is_top p ≡ false → first_for p (listing t) ≡ none
  unfolding listing
  first_for-listing t below = first_for-here_only (list_dir [] t) (first_for-list_dir t below)

  first_for-entries :
      (es : List (FilePath × Entry)) (s : Shared)
      → first_for p es ≡ none
      → first_for p s.peer_listing ≡ none
      → first_for p (listing_entries es s).peer_listing ≡ none
  unfolding first_for listing_entry listing_entries
  first_for-entries [] s a b = b
  first_for-entries ((q, e) ∷ es) s a b =
      first_for-entries es (listing_entry q e s) (ground arith) (ground arith)

catalog-entries :
    (es : List (FilePath × Entry)) (s : Shared) → (listing_entries es s).catalog ≡ s.catalog
unfolding listing_entry listing_entries
catalog-entries [] s = refl
catalog-entries ((q, e) ∷ es) s = catalog-entries es (listing_entry q e s)

in_progress :
    (es : List (FilePath × Entry)) (s : Shared)
    → s.listing_in_progress ≡ true
    → (listing_entries es s).listing_in_progress ≡ true
unfolding listing_entry listing_entries
in_progress [] s h = h
in_progress ((q, e) ∷ es) s h = in_progress es (listing_entry q e s) refl

catalog-link_listed :
    (answers : FilePath → FileAnswers) (es : List (FilePath × Entry)) (t : Catalog) (s : Shared)
    → (link_listed answers es t s).catalog ≡ s.catalog
unfolding link_listed create_remote_symlink suppress_add
catalog-link_listed answers [] t s = refl
catalog-link_listed answers ((q, e) ∷ es) t s =
    let b = needs_link e (lookup q t) in
    let s' = if b then create_remote_symlink (answers q) q s else s in
    let same : s'.catalog ≡ s.catalog = elim (Bool-cases b) [
      | inl h ↦ rw h refl
      | inr h ↦ rw h refl
    ] in
    catalog-link_listed answers es t s' ∙ same

pub catalog-listing_end :
    (answers : FilePath → FileAnswers) (s : Shared)
    → s.listing_in_progress ≡ true
    → (listing_end answers s).catalog ≡ update_remote s.peer_listing s.catalog
unfolding listing_end
catalog-listing_end answers s h =
    let t = update_remote s.peer_listing s.catalog in
    let go = catalog-link_listed answers s.peer_listing t (record s { catalog = t }) in
    let goes_on : (is_empty s.peer_listing && not s.listing_in_progress) ≡ false =
      ground (arith, h) in
    rw goes_on go

in_progress_some :
    (es : List (FilePath × Entry)) (s : Shared)
    → 0 < length es
    → (listing_entries es s).listing_in_progress ≡ true
unfolding listing_entry listing_entries
in_progress_some [] s h = absurd (omega arith)
in_progress_some ((q, e) ∷ es) s h = in_progress es (listing_entry q e s) refl

-- An entry at the peer only that a listing does not have is gone.
unlisted_gone :
    (p : FilePath) (es : List (FilePath × Entry)) (e : Entry) (t : Catalog)
    → first_for p es ≡ none
    → Unique t
    → lookup p t ≡ some e
    → e.location ≡ remote
    → lookup p (update_remote es t) ≡ none
unlisted_gone p es e t unlisted u known at =
    let far : is_remote e.location ≡ true = ap is_remote at in
    update_remote_lem p es t u ∙ rw (unlisted, known, far) refl

-- A listing, as it is sent, has no path below a directory. So an entry at the peer only with such a
-- path is gone after the peer's next listing that is not empty, whatever the peer has there. No other
-- listing is under way, and the catalogue has one entry for each path.
pub nested_forgotten :
    (answers : FilePath → FileAnswers) (p : FilePath) (e : Entry) (a b : Shared)
    → is_top p ≡ false
    → 0 < length (listing a.catalog)
    → Unique b.catalog
    → b.peer_listing ≡ []
    → lookup p b.catalog ≡ some e
    → e.location ≡ remote
    → lookup p (listing_end answers (listing_entries (listing a.catalog) b)).catalog ≡ none
unfolding first_for
nested_forgotten answers p e a b below some_listed u fresh known at_peer =
    let es = listing a.catalog in
    let b' = listing_entries es b in
    let same = catalog-entries es b in
    ap (lookup p) (catalog-listing_end answers b' (in_progress_some es b some_listed))
    ∙ unlisted_gone p b'.peer_listing e b'.catalog
        (first_for-entries p es b (first_for-listing p a.catalog below) (ap (first_for p) fresh))
        (subst Unique (sym same) u) (ap (lookup p) same ∙ known) at_peer
