-- ===== src/Daemon/Catalog/Scan.antt =====
-- What `odl_catalog_scan_local` of daemon/src/odl_tb5_daemon_catalog.c makes of the catalogue.
use odin_link_five.Prelude.{
  ◌≡◌, refl, ap, ◌∙◌, Bool, true, false, not, List, [], ◌∷◌, Option, none, some, arith,
  if◌then◌else◌,
}
use odin_link_five.Daemon.Table.{
  FilePath, ◌=p◌, lookup, insert, keep, Unique, kept, rewritten, lookup-insert, lookup-keep,
  lookup-rewrite, insert-Unique, keep-Unique, rewrite-Unique,
}
use odin_link_five.Daemon.Catalog.{
  Location, local, everywhere, Entry, Catalog, at_location, is_local, insert_all, found_cached,
  scan_found,
}

-- The last of the entries for a path in a list, or the given one when there is none.
pub last_for : FilePath → List (FilePath × Entry) → Option Entry → Option Entry
last_for p [] o = o
last_for p ((q, e) ∷ es) o = last_for p es (if p =p q then some e else o)

lookup-insert_all :
    (p : FilePath) (es : List (FilePath × Entry)) (t : Catalog)
    → lookup p (insert_all es t) ≡ last_for p es (lookup p t)
unfolding insert_all last_for
lookup-insert_all p [] t = refl
lookup-insert_all p ((q, e) ∷ es) t =
    lookup-insert_all p es (insert q e t) ∙ ap (last_for p es) (lookup-insert p q e t)

-- What stays of an entry that the scan does not find: nothing when it was local.
abbrev pub gone_at : Location → Entry → Option Entry
gone_at local e = none
gone_at _ e = some e

abbrev pub not_found : Option Entry → Option Entry
not_found none = none
not_found (some e) = gone_at e.location e

not_found_lem : (o : Option Entry) → kept (λ e. not (is_local e.location)) o ≡ not_found o
not_found_lem none = refl
not_found_lem (some e) = ground arith

-- Where an entry is after the scan, by whether it is a directory and whether the cache has it.
abbrev pub place_after : Location → Bool → Bool → Location
place_after local false true = everywhere
place_after l _ _ = l

abbrev pub placed : Bool → Entry → Entry
placed in_cache e = at_location (place_after e.location e.is_dir in_cache) e

found_cached_lem :
    (cached_at : FilePath → Bool) (p : FilePath) (o : Option Entry)
    → rewritten (found_cached cached_at p) o ≡ rewritten (placed (cached_at p)) o
found_cached_lem cached_at p none = refl
found_cached_lem cached_at p (some e) = ground arith

-- After a scan that found the given paths, a path that was found has the entry of its last finding,
-- an entry that was here only and was not found is gone, and all others stay; then what is here only,
-- is no directory and is in the cache as well counts as being on both sides, and everything else
-- stays where it was. The catalogue has one entry for each path.
pub scan_found_lem :
    (cached_at : FilePath → Bool) (p : FilePath) (found : List (FilePath × Entry)) (t : Catalog)
    → Unique t
    → lookup p (scan_found cached_at found t)
      ≡ rewritten (placed (cached_at p)) (last_for p found (not_found (lookup p t)))
unfolding scan_found
scan_found_lem cached_at p found t u =
    lookup-rewrite (found_cached cached_at) p
      (insert_all found (keep (λ e. not (is_local e.location)) t))
    ∙ ap (rewritten (found_cached cached_at p)) (
        lookup-insert_all p found (keep (λ e. not (is_local e.location)) t)
        ∙ ap (last_for p found)
            (lookup-keep (λ e. not (is_local e.location)) p t u ∙ not_found_lem (lookup p t)))
    ∙ found_cached_lem cached_at p (last_for p found (not_found (lookup p t)))

insert_all-Unique :
    (es : List (FilePath × Entry)) (t : Catalog) → Unique t → Unique (insert_all es t)
unfolding insert_all
insert_all-Unique [] t u = u
insert_all-Unique ((q, e) ∷ es) t u = insert_all-Unique es (insert q e t) (insert-Unique q e t u)

pub scan_found-Unique :
    (cached_at : FilePath → Bool) (found : List (FilePath × Entry)) (t : Catalog)
    → Unique t
    → Unique (scan_found cached_at found t)
unfolding scan_found
scan_found-Unique cached_at found t u =
    rewrite-Unique (found_cached cached_at) _
      (insert_all-Unique found _ (keep-Unique (λ e. not (is_local e.location)) t u))
