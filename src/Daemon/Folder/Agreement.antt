-- ===== src/Daemon/Folder/Agreement.antt =====
-- What two daemons say of a path, before and after one tells the other of a change: the handlers of
-- daemon/src/odl_tb5_daemon_sync.c on both sides.
use odin_link_five.Prelude.{
  ℕ, ◌≡◌, ◌≢◌, ◌↔◌, refl, sym, ap, ◌∙◌, Bool, true, false, not, if◌then◌else◌, Option, none, some,
  ◌==◌, arith, inl, inr, Bool-cases, subst, Option-cases,
}
use odin_link_five.Errno.{Status}
use odin_link_five.Daemon.Table.{FilePath, =p_refl, lookup, lookup-remove, lookup-insert}
use odin_link_five.Daemon.Catalog.{
  Location, local, remote, cached, everywhere, Entry, at_location, unlink_failed, catalog_set,
  catalog_remove,
}
use odin_link_five.Daemon.Catalog.Local.{removal_at, remove_local_copy_lem}
use odin_link_five.Daemon.Folder.{
  Shared, FileAnswers, file_changed, file_removed, remove_req, remove_ack, removed_at, acked_at,
  is_found, ack_status, changed_from, create_remote_symlink, forget, relocate, unlink_cached,
  remove_remote_symlink, remove_remote_dir, suppress_add, acked_at, is_found, ack_status,
  changed_from, create_remote_symlink, forget, relocate, unlink_cached, remove_remote_symlink,
  remove_remote_dir, suppress_add, changed_to,
}
use odin_link_five.Daemon.Folder.Events.{
  send_file_changed, send_file_removed, own_removed_at, own_removed_at, own_removed_at, own_entry,
}
use odin_link_five.Daemon.Folder.Listing.{is_here}

-- Where a side says that a path has its copies.
abbrev pub place : Option Entry → Option Location
place none = none
place (some e) = some e.location

abbrev pub place_of : FilePath → Shared → Option Location
place_of p s = place (lookup p s.catalog)

abbrev pub says_here : Option Location → Bool
says_here none = false
says_here (some l) = is_here l

abbrev pub says_peer : Option Location → Bool
says_peer none = false
says_peer (some local) = false
says_peer (some _) = true

-- Each side says of the other what that one says of itself.
abbrev pub Agree : Option Location → Option Location → Type 0
Agree a b = (says_here a ≡ says_peer b) × (says_peer a ≡ says_here b)

-- What the peer's removal leaves.
abbrev after_removed : Option Location → Option Location
after_removed (some everywhere) = some local
after_removed (some local) = some local
after_removed _ = none

abbrev after_own_removed : Option Location → Option Location
after_own_removed (some everywhere) = some remote
after_own_removed _ = none

abbrev after_changed : Option Location → Option Location
after_changed none = some remote
after_changed (some l) = some (changed_from l)

-- The answer's status, and what a request to remove the copy leaves.
abbrev after_request : Bool → Option Location → ℕ × Option Location
after_request unlinked none = (1, none)
after_request unlinked (some remote) = (2, some remote)
after_request unlinked (some local) = if unlinked then (0, none) else (2, some local)
after_request unlinked (some l) = if unlinked then (0, some remote) else (2, some l)

abbrev after_ack : Bool → Option Location → Option Location
after_ack true (some everywhere) = some local
after_ack true (some remote) = none
after_ack _ x = x

after_ack_refused : (x : Option Location) → after_ack false x ≡ x
after_ack_refused x = ground arith

unlink_places :
    (l : Location) (e : Entry) (u : Status)
    → e.location ≡ l
    → (ack_status (removal_at l e u).0, place (removal_at l e u).1)
      ≡ after_request (not (is_found (unlink_failed u))) (some l)
unlink_places l e u at = ground (arith, at)

module _ (p : FilePath) where
  place-removed_at :
      (fa : FileAnswers) (is_dir : Bool) (l : Location) (e : Entry) (s : Shared)
      → lookup p s.catalog ≡ some e
      → e.location ≡ l
      → place_of p (removed_at fa is_dir l p e s) ≡ after_removed (some l)
  unfolding forget relocate unlink_cached remove_remote_symlink remove_remote_dir suppress_add
      catalog_set catalog_remove
  place-removed_at fa is_dir l e s h at = ground (
    arith,
    h,
    at,
    =p_refl p,
    lookup-remove p p s.catalog,
    lookup-insert p p (at_location local e) s.catalog,
  )

  place-removed :
      (fa : FileAnswers) (is_dir : Bool) (s : Shared)
      → place_of p (file_removed fa is_dir p s) ≡ after_removed (place_of p s)
  unfolding file_removed
  place-removed fa is_dir s = elim (Option-cases (lookup p s.catalog)) [
    | inl h ↦ rw h (ap place h)
    | inr (e, h) ↦ rw h (place-removed_at fa is_dir e.location e s h refl)
  ]

  place-own_removed_at :
      (l : Location) (e : Entry) (s : Shared)
      → place_of p (own_removed_at l p e s) ≡ after_own_removed (some l)
  unfolding forget relocate catalog_set catalog_remove
  place-own_removed_at l e s = ground (
    arith,
    =p_refl p,
    lookup-remove p p s.catalog,
    lookup-insert p p (at_location remote e) s.catalog,
  )

  place-own_removed :
      (is_dir : Bool) (s : Shared)
      → place_of p (send_file_removed is_dir p s) ≡ after_own_removed (place_of p s)
  unfolding send_file_removed
  place-own_removed is_dir s = elim (Option-cases (lookup p s.catalog)) [
    | inl h ↦ rw h (ap place h)
    | inr (e, h) ↦ rw h (place-own_removed_at e.location e s)
  ]

  place-changed :
      (fa : FileAnswers) (e : Entry) (s : Shared)
      → place_of p (file_changed fa p e s) ≡ after_changed (place_of p s)
  unfolding file_changed relocate create_remote_symlink suppress_add catalog_set
  place-changed fa e s = ground (
    arith,
    =p_refl p,
    lookup-insert p p (at_location (changed_to (lookup p s.catalog)) e) s.catalog,
  )

  place-own_changed :
      (is_dir : Bool) (found : Option Entry) (s : Shared)
      → place_of p (send_file_changed is_dir found p s) ≡ some local
  unfolding send_file_changed catalog_set
  place-own_changed is_dir found s =
      ground (arith, =p_refl p, lookup-insert p p (own_entry is_dir found) s.catalog)

  place-acked_at :
      (fa : FileAnswers) (l : Location) (e : Entry) (s : Shared)
      → lookup p s.catalog ≡ some e
      → e.location ≡ l
      → place_of p (acked_at fa l p e s) ≡ after_ack true (some l)
  unfolding forget relocate remove_remote_symlink suppress_add catalog_set catalog_remove
  place-acked_at fa l e s h at = ground (
    arith,
    h,
    at,
    =p_refl p,
    lookup-remove p p s.catalog,
    lookup-insert p p (at_location local e) s.catalog,
  )

  place-acked :
      (fa : FileAnswers) (status : ℕ) (s : Shared)
      → place_of p (remove_ack fa status p s) ≡ after_ack (status == 0) (place_of p s)
  unfolding remove_ack
  place-acked fa status s = elim (Bool-cases (status == 0)) [
    | inl z ↦ elim (Option-cases (lookup p s.catalog)) [
      | inl h ↦ rw (z, h) (ap place h)
      | inr (e, h) ↦ rw (z, h) (place-acked_at fa e.location e s h refl)
    ]
    | inr z ↦ rw z (sym (after_ack_refused (place_of p s)))
  ]

  place-request :
      (unlinked : Status) (s : Shared)
      → let (status, s') = remove_req unlinked p s in
        (status, place_of p s')
        ≡ after_request (not (is_found (unlink_failed unlinked))) (place_of p s)
  unfolding remove_req
  place-request unlinked s = elim (Option-cases (lookup p s.catalog)) [
    | inl h ↦ rw h (ap (λ o. (1, place o)) h)
    | inr (e, h) ↦
        let gone = (remove_local_copy_lem p p unlinked s.catalog).0 ∙ rw h refl in
        rw h (
          ap (λ (r : Status × Option Entry). (ack_status r.0, place r.1)) gone
          ∙ unlink_places e.location e unlinked refl)
  ]

removed_places :
    (x y : Option Location)
    → says_here x ≡ true
    → Agree x y
    → Agree (after_own_removed x) (after_removed y)
removed_places x y here agree = ground arith

changed_places :
    (y : Option Location) → Agree (some local) (after_changed y) ↔ (says_here y ≡ false)
changed_places y = ground arith

changed_place :
    (y : Option Location) → after_changed y ≡ (if says_here y then some everywhere else some remote)
changed_place y = ground arith

request_places :
    (unlinked : Bool) (x y : Option Location)
    → x ≢ some cached
    → Agree x y
    → let (status, y') = after_request unlinked y in Agree (after_ack (status == 0) x) y'
request_places unlinked x y apart agree = ground arith

module _ (p : FilePath) (a b : Shared) where
  -- Two daemons agree on a path: each says of the other's copy what that one says of its own. One
  -- that has a copy here loses it and tells the other, which handles the message: then they agree
  -- again, whatever the file systems answer.
  pub removed-Agree :
      (fa : FileAnswers) (is_dir : Bool)
      → says_here (place_of p a) ≡ true
      → Agree (place_of p a) (place_of p b)
      → Agree (place_of p (send_file_removed is_dir p a)) (place_of p (file_removed fa is_dir p b))
  removed-Agree fa is_dir here agree =
      rw (place-own_removed p is_dir a, place-removed p fa is_dir b)
        (removed_places (place_of p a) (place_of p b) here agree)

  -- After a change of a file here was told to the peer and handled there, the two daemons agree on
  -- its path if and only if the peer did not have a copy of its own. This side counts the file as
  -- being here only; the peer counts it as being on both sides if it had a copy, and at this side
  -- only if not.
  pub changed-Agree :
      (is_dir : Bool) (found : Option Entry) (fa : FileAnswers) (e : Entry)
      → (Agree
            (place_of p (send_file_changed is_dir found p a))
            (place_of p (file_changed fa p e b))
          ↔ (says_here (place_of p b) ≡ false))
        × (place_of p (send_file_changed is_dir found p a) ≡ some local)
        × (place_of p (file_changed fa p e b)
            ≡ (if says_here (place_of p b) then some everywhere else some remote))
  changed-Agree is_dir found fa e =
      rw (place-own_changed p is_dir found a, place-changed p fa e b)
        (changed_places (place_of p b), refl, changed_place (place_of p b))

  -- Two daemons that agree on a path agree again after one has asked the other to remove its copy and
  -- both have handled the request and its answer, whatever the unlink answers, unless the one that
  -- asks holds the path in its cache.
  pub request-Agree :
      (fa : FileAnswers) (unlinked : Status)
      → place_of p a ≢ some cached
      → Agree (place_of p a) (place_of p b)
      → let (status, b') = remove_req unlinked p b in
        Agree (place_of p (remove_ack fa status p a)) (place_of p b')
  request-Agree fa unlinked apart agree =
      let q = place-request p unlinked b in
      let (n, y) = after_request (not (is_found (unlink_failed unlinked))) (place_of p b) in
      subst (λ (r : ℕ × Option Location). Agree (place_of p (remove_ack fa r.0 p a)) r.1) (sym q)
        (rw (place-acked p fa n a) (
          request_places (not (is_found (unlink_failed unlinked))) (place_of p a) (place_of p b)
            apart agree))
