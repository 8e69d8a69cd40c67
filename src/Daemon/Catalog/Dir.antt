-- ===== src/Daemon/Catalog/Dir.antt =====
-- `odl_catalog_list_dir` of daemon/src/odl_tb5_daemon_catalog.c: what stands directly in a directory.
use odin_link_five.Prelude.{
  ◌≡◌, ◌↔◌, sym, ap, ◌∙◌, Bool, true, false, ◌&&◌, not, List, [], ◌∷◌, ◌++◌, if◌then◌else◌, ◌==◌,
  ==_iff, arith,
}
use odin_link_five.Daemon.Table.{FilePath}
use odin_link_five.Daemon.Catalog.{Entry, Catalog, slash}

-- `strchr(path, '/') == NULL`
abbrev pub is_top : FilePath → Bool
is_top [] = true
is_top (b ∷ bs) = if b == slash then false else is_top bs

abbrev pub is_empty {ℓ} : {A : Type ℓ} → List A → Bool
is_empty [] = true
is_empty (x ∷ xs) = false

-- The path goes on after the directory with a slash and one name.
unfoldable pub is_inside : FilePath → FilePath → Bool
is_inside [] [] = false
is_inside [] (b ∷ rest) = b == slash && not (is_empty rest) && is_top rest
is_inside (a ∷ dir) [] = false
is_inside (a ∷ dir) (b ∷ p) = let rest = is_inside dir p in if a == b then rest else false

unfoldable pub is_child : FilePath → FilePath → Bool
unfolding is_inside
is_child dir p = if is_empty dir then is_top p else is_inside dir p

unfoldable pub list_dir : FilePath → Catalog → List (FilePath × Entry)
unfolding is_child
list_dir dir [] = []
list_dir dir ((p, e) ∷ t) =
    let rest = list_dir dir t in if is_child dir p then (p, e) ∷ rest else rest

-- A path is the directory, a slash and a name.
pub record IsEntryOf (dir p : FilePath) : Type 0 where
  pub name : FilePath
  pub named : not (is_empty name) ≡ true
  pub flat : is_top name ≡ true
  pub joins : p ≡ dir ++ (slash ∷ name)

inside_split : (dir p : FilePath) → is_inside dir p ≡ true → IsEntryOf dir p
unfolding is_inside
inside_split [] [] h = absurd (cc)
inside_split [] (b ∷ rest) h = record {
  name = rest;
  named = ground (arith, h);
  flat = ground (arith, h);
  joins = ap (λ c. c ∷ rest) (ground (arith, h, ==_iff b slash));
}
inside_split (a ∷ dir) [] h = absurd (cc)
inside_split (a ∷ dir) (b ∷ p) h =
    let same : a ≡ b = ground (arith, h, ==_iff a b) in
    let i = inside_split dir p (ground (arith, h)) in
    record {
      name = i.name;
      named = i.named;
      flat = i.flat;
      joins = ap (λ c. c ∷ p) (sym same) ∙ ap (λ l. a ∷ l) i.joins;
    }

split_inside :
    (dir name : FilePath)
    → not (is_empty name) ≡ true
    → is_top name ≡ true
    → is_inside dir (dir ++ (slash ∷ name)) ≡ true
unfolding is_inside
split_inside [] name a b = ground (arith, a, b)
split_inside (c ∷ dir) name a b = ground (arith, split_inside dir name a b, ==_iff c c)

-- The test is right.
is_inside_iff : (dir p : FilePath) → (is_inside dir p ≡ true) ↔ IsEntryOf dir p
is_inside_iff dir p = (inside_split dir p, λ i. rw i.joins (split_inside dir i.name i.named i.flat))
