-- ===== src/Daemon/Table.antt =====
-- A hash table of glib as the daemon uses it: at most one value for a path, and an insertion replaces.
-- A path is the list of its bytes.
use odin_link_five.Prelude.{
  ℕ, ◌≡◌, ◌↔◌, refl, sym, ap, ◌∙◌, subst, Bool, true, false, List, [], ◌∷◌, Option, none, some,
  if◌then◌else◌, ◌==◌, ==_iff, arith, Bool-cases, inl, inr,
}

abbrev pub FilePath : Type 0
FilePath = List ℕ

infix 50 ◌=p◌
unfoldable pub ◌=p◌ : FilePath → FilePath → Bool
[] =p [] = true
[] =p (b ∷ bs) = false
(a ∷ xs) =p [] = false
(a ∷ xs) =p (b ∷ bs) = let rest = xs =p bs in if a == b then rest else false

to_eq : (p q : FilePath) → (p =p q) ≡ true → p ≡ q
unfolding ◌=p◌
to_eq [] [] h = refl
to_eq [] (b ∷ bs) h = absurd (cc)
to_eq (a ∷ xs) [] h = absurd (cc)
to_eq (a ∷ xs) (b ∷ bs) h = ground (arith, to_eq xs bs, ==_iff a b)

pub =p_refl : (p : FilePath) → (p =p p) ≡ true
unfolding ◌=p◌
=p_refl [] = refl
=p_refl (a ∷ xs) = ground (arith, =p_refl xs, ==_iff a a)

pub =p_iff : (p q : FilePath) → ((p =p q) ≡ true) ↔ (p ≡ q)
=p_iff p q = (to_eq p q, λ e. subst (λ r. (p =p r) ≡ true) e (=p_refl p))

abbrev pub Table {ℓ} : Type ℓ → Type ℓ
Table V = List (FilePath × V)

module _ {ℓ} {V : Type ℓ} where
  unfoldable pub lookup : FilePath → Table V → Option V
  lookup p [] = none
  lookup p ((q, v) ∷ t) = let rest = lookup p t in if p =p q then some v else rest

  -- `g_hash_table_remove`, and the first half of an insertion.
  unfoldable pub remove : FilePath → Table V → Table V
  remove p [] = []
  remove p ((q, v) ∷ t) = let rest = remove p t in if p =p q then rest else (q, v) ∷ rest

  unfoldable pub insert : FilePath → V → Table V → Table V
  unfolding remove
  insert p v t = (p, v) ∷ remove p t

  -- The entries that a loop over the table leaves, and the values that it writes in place.
  unfoldable pub keep : (V → Bool) → Table V → Table V
  keep good [] = []
  keep good ((q, v) ∷ t) = let rest = keep good t in if good v then (q, v) ∷ rest else rest

  unfoldable pub rewrite : (FilePath → V → V) → Table V → Table V
  rewrite f [] = []
  rewrite f ((q, v) ∷ t) = (q, f q v) ∷ rewrite f t

  abbrev pub Unique : Table V → Type ℓ
  Unique [] = Unit
  Unique ((q, v) ∷ t) = (lookup q t ≡ none) × Unique t

  pub lookup-remove :
      (p q : FilePath) (t : Table V) → lookup p (remove q t) ≡ (if p =p q then none else lookup p t)
  unfolding lookup remove
  lookup-remove p q [] = ground arith
  lookup-remove p q ((r, v) ∷ t) =
      ground (arith, lookup-remove p q t, =p_iff p q, =p_iff q r, =p_iff p r)

  pub lookup-insert :
      (p q : FilePath) (v : V) (t : Table V)
      → lookup p (insert q v t) ≡ (if p =p q then some v else lookup p t)
  unfolding lookup insert
  lookup-insert p q v t = ground (arith, lookup-remove p q t)

  abbrev pub kept : (V → Bool) → Option V → Option V
  kept good none = none
  kept good (some v) = if good v then some v else none

  abbrev pub rewritten : (V → V) → Option V → Option V
  rewritten f none = none
  rewritten f (some v) = some (f v)

  lookup-keep-none :
      (good : V → Bool) (p : FilePath) (t : Table V)
      → lookup p t ≡ none
      → lookup p (keep good t) ≡ none
  unfolding lookup keep
  lookup-keep-none good p [] h = refl
  lookup-keep-none good p ((q, v) ∷ t) h = ground (arith, lookup-keep-none good p t)

  pub lookup-keep :
      (good : V → Bool) (p : FilePath) (t : Table V)
      → Unique t
      → lookup p (keep good t) ≡ kept good (lookup p t)
  unfolding lookup keep
  lookup-keep good p [] u = refl
  lookup-keep good p ((q, v) ∷ t) (fresh, u) = elim (Bool-cases (p =p q)) [
    | inl e ↦
        let same : p ≡ q = (=p_iff p q).0 e in
        let gone : lookup p (keep good t) ≡ none =
          lookup-keep-none good p t (ap (λ r. lookup r t) same ∙ fresh) in
        ground (arith, gone)
    | inr e ↦ ground (arith, lookup-keep good p t u)
  ]

  pub lookup-rewrite :
      (f : FilePath → V → V) (p : FilePath) (t : Table V)
      → lookup p (rewrite f t) ≡ rewritten (f p) (lookup p t)
  unfolding lookup rewrite
  lookup-rewrite f p [] = refl
  lookup-rewrite f p ((q, v) ∷ t) = elim (Bool-cases (p =p q)) [
    | inl e ↦ rw e (ap (λ r. some (f r v)) (sym ((=p_iff p q).0 e)))
    | inr e ↦ rw e (lookup-rewrite f p t)
  ]

  pub remove-Unique : (p : FilePath) (t : Table V) → Unique t → Unique (remove p t)
  unfolding remove
  remove-Unique p [] u = tt
  remove-Unique p ((q, v) ∷ t) (fresh, u) = ground (arith, remove-Unique p t u, lookup-remove q p t)

  pub insert-Unique : (p : FilePath) (v : V) (t : Table V) → Unique t → Unique (insert p v t)
  unfolding insert
  insert-Unique p v t u = (lookup-remove p p t ∙ rw (=p_refl p) refl, remove-Unique p t u)

  pub keep-Unique : (good : V → Bool) (t : Table V) → Unique t → Unique (keep good t)
  unfolding keep
  keep-Unique good [] u = tt
  keep-Unique good ((q, v) ∷ t) (fresh, u) =
      ground (arith, keep-Unique good t u, lookup-keep-none good q t fresh)

  pub rewrite-Unique : (f : FilePath → V → V) (t : Table V) → Unique t → Unique (rewrite f t)
  unfolding rewrite
  rewrite-Unique f [] u = tt
  rewrite-Unique f ((q, v) ∷ t) (fresh, u) =
      (lookup-rewrite f q t ∙ rw fresh refl, rewrite-Unique f t u)
