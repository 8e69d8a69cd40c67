-- ===== src/Daemon/Catalog/Peer.antt =====
-- What `odl_catalog_update_remote` of daemon/src/odl_tb5_daemon_catalog.c makes of the catalogue.
use odin_link_five.Prelude.{
  ◌≡◌, refl, ap, ◌∙◌, not, List, [], ◌∷◌, Option, none, some, if◌then◌else◌, arith, Bool-cases, inl,
  inr, Option-cases,
}
use odin_link_five.Daemon.Table.{
  FilePath, ◌=p◌, =p_iff, lookup, keep, Unique, kept, lookup-insert, lookup-keep,
}
use odin_link_five.Daemon.Catalog.{
  remote, Entry, Catalog, is_remote, at_location, joined, list_one, list_all, update_remote,
}

-- The first entry for a path in a listing.
unfoldable pub first_for : FilePath → List (FilePath × Entry) → Option Entry
first_for p [] = none
first_for p ((q, e) ∷ es) = let rest = first_for p es in if p =p q then some e else rest

-- What the listing makes of an entry: one that is here alone is on both sides from now on, and what was
-- not known is the peer's.
abbrev pub listed : Option Entry → Option Entry → Option Entry
listed none old = old
listed (some e) none = some (at_location remote e)
listed (some e) (some old) = some (joined old)

-- An entry that the peer has been asked for is not changed again.
joined_again : (e : Entry) → joined (joined e) ≡ joined e
joined_again e = ground arith

listed_again :
    (o : Option Entry) (e : Entry) (old : Option Entry)
    → listed o (listed (some e) old) ≡ listed (some e) old
listed_again none e old = refl
listed_again (some e1) e none = refl
listed_again (some e1) e (some old) = ap some (joined_again old)

lookup-list_one :
    (p q : FilePath) (e : Entry) (t : Catalog)
    → lookup p (list_one q e (lookup q t) t)
      ≡ (if p =p q then listed (some e) (lookup q t) else lookup p t)
lookup-list_one p q e t = elim (Option-cases (lookup q t)) [
  | inl h ↦ rw h (lookup-insert p q (at_location remote e) t)
  | inr (old, h) ↦ rw h (lookup-insert p q (joined old) t)
]

lookup-list_all :
    (p : FilePath) (es : List (FilePath × Entry)) (t : Catalog)
    → lookup p (list_all es t) ≡ listed (first_for p es) (lookup p t)
unfolding list_all first_for
lookup-list_all p [] t = refl
lookup-list_all p ((q, e) ∷ es) t =
    let t' = list_one q e (lookup q t) t in
    let rest = lookup-list_all p es t' ∙ ap (listed (first_for p es)) (lookup-list_one p q e t) in
    elim (Bool-cases (p =p q)) [
      | inl h ↦ rest ∙ rw (h, (=p_iff p q).0 h) (listed_again (first_for q es) e (lookup q t))
      | inr h ↦ rest ∙ rw h refl
    ]

-- After a listing of the peer, an entry that was at the peer only and is not listed is gone; one that
-- is listed and was here only is on both sides; a listed path without another entry is at the peer,
-- with the first entry that the listing has for it; and all others stay. The catalogue has one entry
-- for each path.
pub update_remote_lem :
    (p : FilePath) (listing : List (FilePath × Entry)) (t : Catalog)
    → Unique t
    → lookup p (update_remote listing t)
      ≡ listed (first_for p listing) (kept (λ e. not (is_remote e.location)) (lookup p t))
unfolding update_remote
update_remote_lem p listing t u =
    lookup-list_all p listing (keep (λ e. not (is_remote e.location)) t)
    ∙ ap (listed (first_for p listing)) (lookup-keep (λ e. not (is_remote e.location)) p t u)
