-- ===== src/Verbs/Handles.antt =====
-- The arrays in which a verbs context keeps what it has handed out, `cqs`, `qps` and `mrs`: an
-- entry is added at the end up to a bound, and the last one takes the place of one that leaves.
use odin_link_five.Prelude.{
  ℕ, zero, suc, ◌+◌, ◌-◌, ◌<◌, ◌≡◌, refl, ap, Bool, true, List, [], ◌∷◌, ◌++◌, Option, none, some,
  if◌then◌else◌, leb, ◌==◌, ==_iff, length, get_or, set, take, length-set, arith, get_or-set_self,
  get_or-set_ne, Option-cases, inl, inr,
}
use native.Mathlib.Decide.{ℕ_discrete}

-- Counted from one entry earlier.
abbrev later : Option ℕ → Option ℕ
later none = none
later (some i) = some (suc i)

module _ {ℓ} {A : Type ℓ} where
  -- `if (n >= MAX) return NULL; array[n++] = x;`
  unfoldable pub add : ℕ → A → List A → Option (List A)
  add bound x xs = if leb bound (length xs) then none else some (xs ++ (x ∷ []))

  -- The index of the first entry for which the test holds.
  unfoldable pub find : (A → Bool) → List A → Option ℕ
  find is [] = none
  find is (x ∷ xs) = if is x then some 0 else later (find is xs)

  -- `array[i] = array[--n]; break;`
  unfoldable pub remove_at : Option ℕ → List A → A → List A
  remove_at none xs d = xs
  remove_at (some i) xs d = take (length xs - 1) (set xs i (get_or xs (length xs - 1) d))

  unfoldable pub remove : (A → Bool) → List A → A → List A
  unfolding find remove_at
  remove is xs d = remove_at (find is xs) xs d

  -- How many entries pass a test.
  abbrev pub tally : (A → Bool) → List A → ℕ
  tally p [] = 0
  tally p (x ∷ xs) = (if p x then 1 else 0) + tally p xs

  tally-set :
      (p : A → Bool) (xs : List A) (i : ℕ) (v d : A)
      → i < length xs
      → tally p (set xs i v) + (if p (get_or xs i d) then 1 else 0)
        ≡ tally p xs + (if p v then 1 else 0)
  tally-set p [] i v d lt = absurd (omega arith)
  tally-set p (x ∷ xs) zero v d lt = omega arith
  tally-set p (x ∷ xs) (suc i) v d lt = omega (arith, tally-set p xs i v d (omega arith))

  -- Without the last entry.
  tally-take :
      (p : A → Bool) (n : ℕ) (xs : List A) (d : A)
      → length xs ≡ suc n
      → tally p (take n xs) + (if p (get_or xs n d) then 1 else 0) ≡ tally p xs
  tally-take p n [] d e = absurd (omega arith)
  tally-take p zero (x ∷ []) d e = omega arith
  tally-take p zero (x ∷ _ ∷ _) d e = absurd (omega arith)
  tally-take p (suc n) (x ∷ xs) d e = omega (arith, tally-take p n xs d (omega arith))

  -- The last entry after the write is what the write put there or what was there already.
  get_or-set_last :
      (xs : List A) (i n : ℕ) (d : A)
      → n < length xs
      → get_or (set xs i (get_or xs n d)) n d ≡ get_or xs n d
  get_or-set_last xs i n d lt = elim (ℕ_discrete i n) [
    | yes e ↦ rw e (get_or-set_self xs n (get_or xs n d) d lt)
    | no ne ↦ get_or-set_ne xs i n (get_or xs n d) d ne
  ]

  find-at :
      (is : A → Bool) (xs : List A) (d : A) (i : ℕ)
      → find is xs ≡ some i
      → (i < length xs) × (is (get_or xs i d) ≡ true)
  unfolding find
  find-at is [] d i e = absurd (cc)
  find-at is (x ∷ xs) d zero e = ground (arith)
  find-at is (x ∷ xs) d (suc i) e = ground (arith, find-at is xs d i)

  find-none : (is : A → Bool) (xs : List A) → find is xs ≡ none → tally is xs ≡ 0
  unfolding find
  find-none is [] e = refl
  find-none is (x ∷ xs) e = ground (arith, find-none is xs)

  tally-zero : (is : A → Bool) (xs : List A) → tally is xs ≡ 0 → find is xs ≡ none
  unfolding find
  tally-zero is [] e = refl
  tally-zero is (x ∷ xs) e = ground (arith, tally-zero is xs)

  tally-remove_at :
      (p : A → Bool) (xs : List A) (i : ℕ) (d : A)
      → i < length xs
      → tally p (remove_at (some i) xs d) + (if p (get_or xs i d) then 1 else 0) ≡ tally p xs
  unfolding remove_at
  tally-remove_at p xs i d lt =
      let n = length xs - 1 in
      let last = get_or xs n d in
      let same : get_or (set xs i last) n d ≡ last = get_or-set_last xs i n d (omega arith) in
      let init = tally-take p n (set xs i last) d (omega (arith, length-set xs i last)) in
      let put = tally-set p xs i last d lt in
      omega (arith, ap {B = ℕ} (λ l. if p l then 1 else 0) same)

  -- What leaves is one entry for which the test holds, and nothing else.
  pub tally-remove :
      (is : A → Bool) (xs : List A) (d : A)
      → 0 < tally is xs
      → (x : A) × (is x ≡ true)
        × ((p : A → Bool) → tally p (remove is xs d) + (if p x then 1 else 0) ≡ tally p xs)
  unfolding remove
  tally-remove is xs d some_one = elim (Option-cases (find is xs)) [
    | inl e ↦ absurd (omega (arith, find-none is xs e))
    | inr (i, e) ↦
        let (lt, holds) = find-at is xs d i e in
        (get_or xs i d, holds, λ p. rw e (tally-remove_at p xs i d lt))
  ]

  -- With no such entry nothing changes.
  pub remove-none : (is : A → Bool) (xs : List A) (d : A) → tally is xs ≡ 0 → remove is xs d ≡ xs
  unfolding remove remove_at
  remove-none is xs d e = rw (tally-zero is xs e) refl

  pub tally-append : (p : A → Bool) (xs ys : List A) → tally p (xs ++ ys) ≡ tally p xs + tally p ys
  tally-append p [] ys = omega arith
  tally-append p (x ∷ xs) ys = omega (arith, tally-append p xs ys)

-- A pointer that was added and is removed leaves the others, in any order.
pub tally-remove_added :
    (h : ℕ) (xs : List ℕ) (p : ℕ → Bool)
    → tally p (remove (λ x. x == h) (xs ++ (h ∷ [])) 0) ≡ tally p xs
tally-remove_added h xs p =
    let is : ℕ → Bool = λ x. x == h in
    let here : is h ≡ true = (==_iff h h).1 refl in
    let some_one : 0 < tally is (xs ++ (h ∷ [])) = ground (arith, tally-append is xs (h ∷ [])) in
    let (x, same, left) = tally-remove is (xs ++ (h ∷ [])) 0 some_one in
    let e : x ≡ h = (==_iff x h).0 same in
    let one : (if p x then 1 else 0) ≡ (if p h then 1 else 0) =
      ap {B = ℕ} (λ y. if p y then 1 else 0) e in
    omega (arith, left p, one, tally-append p xs (h ∷ []))
