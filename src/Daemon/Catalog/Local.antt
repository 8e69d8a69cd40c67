-- ===== src/Daemon/Catalog/Local.antt =====
-- `odl_catalog_remove_local_copy`, the marks and the counts of daemon/src/odl_tb5_daemon_catalog.c.
use odin_link_five.Prelude.{
  ℕ, ◌+◌, ◌≡◌, refl, ap, Bool, true, false, [], ◌∷◌, Option, none, some, if◌then◌else◌, length,
  arith, inl, inr, Option-cases,
}
use odin_link_five.Errno.{Errno, Status, ok, fail, enoent}
use odin_link_five.Daemon.Table.{FilePath, ◌=p◌, =p_refl, lookup, lookup-remove, lookup-insert}
use odin_link_five.Daemon.Catalog.{
  Location, local, remote, cached, everywhere, Entry, Catalog, is_local, is_remote, at_location,
  unlink_failed, remove_copy, remove_local_copy, count_local, count_remote, has_remote,
}

-- Where the copies of a path are once the one here is gone.
abbrev pub without_local : Location → Entry → Option Entry
without_local local e = none
without_local _ e = some (at_location remote e)

-- What the removal of an entry answers and leaves, by what `unlink` says.
abbrev pub removal_at : Location → Entry → Status → Status × Option Entry
removal_at remote e u = (fail enoent, some e)
removal_at l e ok = (ok, without_local l e)
removal_at l e (fail enoent) = (ok, without_local l e)
removal_at l e (fail x) = (fail x, some e)

-- The answer, and what the catalogue has for the path then.
abbrev pub removal : Option Entry → Status → Status × Option Entry
removal none u = (fail enoent, none)
removal (some e) u = removal_at e.location e u

remove_copy_lem :
    (l : Location) (p : FilePath) (e : Entry) (u : Status) (t : Catalog)
    → lookup p t ≡ some e
    → (
      (remove_copy l p e (unlink_failed u) t).0,
      lookup p (remove_copy l p e (unlink_failed u) t).1,
    )
      ≡ removal_at l e u
remove_copy_lem l p e u t h =
    ground (arith, =p_refl p, h, lookup-insert p p (at_location remote e) t, lookup-remove p p t)

remove_copy_other :
    (l : Location) (p q : FilePath) (e : Entry) (r : Option Errno) (t : Catalog)
    → (q =p p) ≡ false
    → lookup q (remove_copy l p e r t).1 ≡ lookup q t
remove_copy_other l p q e r t h =
    ground (arith, h, lookup-insert q p (at_location remote e) t, lookup-remove q p t)

-- Removing the copy that is here: a path that is not known, or is at the peer only, is refused with
-- ENOENT; an unlink that fails with another error than ENOENT is reported and changes nothing;
-- otherwise a copy that the peer has too, or that is cached, leaves an entry at the peer only, and
-- one that is only here leaves none. No other path changes.
pub remove_local_copy_lem :
    (p q : FilePath) (unlinked : Status) (t : Catalog)
    → let (st, t') = remove_local_copy p unlinked t in
      ((st, lookup p t') ≡ removal (lookup p t) unlinked)
      × ((q =p p) ≡ false → lookup q t' ≡ lookup q t)
unfolding remove_local_copy
remove_local_copy_lem p q unlinked t = elim (Option-cases (lookup p t)) [
  | inl h ↦ rw h (ap (λ o. (fail enoent, o)) h, λ _. refl)
  | inr (e, h) ↦ rw h (
    remove_copy_lem e.location p e unlinked t h,
    remove_copy_other e.location p q e (unlink_failed unlinked) t,
  )
]

-- The entries of each location.
pub count_of : (Location → Bool) → Catalog → ℕ
count_of f [] = 0
count_of f ((p, e) ∷ t) = (if f e.location then 1 else 0) + count_of f t

abbrev pub is_cached : Location → Bool
is_cached cached = true
is_cached _ = false

abbrev pub is_everywhere : Location → Bool
is_everywhere everywhere = true
is_everywhere _ = false

one_entry :
    (l : Location)
    → ((if is_remote l then 0 else 1)
        ≡ (if is_local l then 1 else 0)
          + (if is_cached l then 1 else 0)
          + (if is_everywhere l then 1 else 0))
      × ((if has_remote l then 1 else 0)
          ≡ (if is_remote l then 1 else 0) + (if is_everywhere l then 1 else 0))
      × ((if is_local l then 1 else 0)
            + (if is_cached l then 1 else 0)
            + (if is_everywhere l then 1 else 0)
            + (if is_remote l then 1 else 0)
          ≡ 1)
one_entry l = ground arith

-- Local counts all but the peer's, remote the peer's and those on both sides, and the entries of
-- the four locations are all entries.
pub counts_lem :
    (t : Catalog)
    → (count_local t ≡ count_of is_local t + count_of is_cached t + count_of is_everywhere t)
      × (count_remote t ≡ count_of is_remote t + count_of is_everywhere t)
      × (count_local t + count_of is_remote t ≡ length t)
unfolding count_local count_remote count_of
counts_lem [] = omega arith
counts_lem ((p, e) ∷ t) = ground (arith, counts_lem t, one_entry e.location)
