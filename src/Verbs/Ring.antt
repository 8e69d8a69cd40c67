-- ===== src/Verbs/Ring.antt =====
-- The items of a ring: an array of at least `cap` slots that is used from a first slot on, and goes
-- on at slot 0 after slot `cap - 1`. The completion queue, the send queue and the receive queue of
-- verbs/src have this form.
pub mod Count
use native.Mathlib.Nat.{mod-add-mod, mod-eq_of_lt, add-zero}
use odin_link_five.Verbs.Ring.Count.{slot_cases}
use odin_link_five.Prelude.{
  ℕ, zero, suc, ◌+◌, ◌-◌, ◌%◌, ◌≤◌, ◌<◌, ◌≡◌, refl, ap, ◌∙◌, sym, ◌≢◌, inl, inr, List, [], ◌∷◌,
  ◌++◌, length, get_or, set, get_or-set_self, get_or-set_ne, arith,
}

module _ {ℓ} {A : Type ℓ} (d : A) (cap : ℕ) where
  -- The `n` items from slot `h` on.
  abbrev pub items : List A → ℕ → ℕ → List A
  items slots h zero = []
  items slots h (suc n) = get_or slots h d ∷ items slots ((h + 1) % cap) n

  pub length-items : (slots : List A) (h n : ℕ) → length (items slots h n) ≡ n
  length-items slots h zero = refl
  length-items slots h (suc n) = ap suc (length-items slots ((h + 1) % cap) n)

  -- One step on, seen from the next slot.
  slot_next : (h k : ℕ) → ((h + 1) % cap + k) % cap ≡ (h + suc k) % cap
  slot_next h k = rw mod-add-mod (ap (λ i. i % cap) (omega arith))

  -- One more item is the one in the slot after the last.
  items_snoc :
      (slots : List A) (h n : ℕ)
      → h < cap
      → items slots h (suc n) ≡ items slots h n ++ (get_or slots ((h + n) % cap) d ∷ [])
  items_snoc slots h zero lt = rw (add-zero, mod-eq_of_lt lt) refl
  items_snoc slots h (suc n) lt =
      ap (λ t. get_or slots h d ∷ t)
        (items_snoc slots ((h + 1) % cap) n (omega arith)
          ∙ ap (λ i. items slots ((h + 1) % cap) n ++ (get_or slots i d ∷ [])) (slot_next h n))

  -- A write to a slot that is not among them leaves the items alone.
  items-set :
      (slots : List A) (h n t : ℕ) (x : A)
      → ((k : ℕ) → k < n → t ≢ (h + k) % cap)
      → h < cap
      → items (set slots t x) h n ≡ items slots h n
  items-set slots h zero t x away lt = refl
  items-set slots h (suc n) t x away lt =
      rw (first, items-set slots ((h + 1) % cap) n t x rest (omega arith)) refl
    where
      first : get_or (set slots t x) h d ≡ get_or slots h d
      first =
          get_or-set_ne slots t h x d
            λ e. away 0 (omega arith) (e ∙ rw (add-zero, mod-eq_of_lt lt) refl)

      rest : (k : ℕ) → k < n → t ≢ ((h + 1) % cap + k) % cap
      rest k lt e = away (suc k) (omega arith) (e ∙ slot_next h k)

  slots_ne : (h k n : ℕ) → h < cap → k < n → n < cap → (h + n) % cap ≢ (h + k) % cap
  slots_ne h k n lt kn nc e = elim (slot_cases cap (h + n) (omega arith)) [
    | inl a ↦ elim (slot_cases cap (h + k) (omega arith)) [
      | inl b ↦ omega arith
      | inr b ↦ omega arith
    ]
    | inr a ↦ elim (slot_cases cap (h + k) (omega arith)) [
      | inl b ↦ omega arith
      | inr b ↦ omega arith
    ]
  ]

  -- Nor does a write to the slot after the last.
  pub items-set_after :
      (slots : List A) (h n t : ℕ) (x : A)
      → h < cap
      → n < cap
      → t ≡ (h + n) % cap
      → items (set slots t x) h n ≡ items slots h n
  items-set_after slots h n t x lt nc e =
      items-set slots h n t x (λ k kn p. slots_ne h k n lt kn nc (sym e ∙ p)) lt

  -- A write to the slot after the last appends to the items.
  pub items-put :
      (slots : List A) (h n t : ℕ) (x : A)
      → h < cap
      → n < cap
      → cap ≤ length slots
      → t ≡ (h + n) % cap
      → items (set slots t x) h (suc n) ≡ items slots h n ++ (x ∷ [])
  items-put slots h n t x lt nc le e =
      items_snoc (set slots t x) h n lt
      ∙ rw
          (
            items-set_after slots h n t x lt nc e,
            ← e,
            get_or-set_self slots t x d (omega (arith, slot_cases cap (h + n))),
          )
          refl

  -- The first item, and the ones after it, when the count is not a numeral.
  pub items-ne_zero :
      (slots : List A) (h n : ℕ)
      → 0 < n
      → items slots h n ≡ get_or slots h d ∷ items slots ((h + 1) % cap) (n - 1)
  items-ne_zero slots h zero p = absurd (omega arith)
  items-ne_zero slots h (suc n) p = ap (λ k. items slots h (suc k)) (omega arith)

  pub items-zero : (slots : List A) (h n : ℕ) → n ≡ 0 → items slots h n ≡ []
  items-zero slots h zero p = refl
  items-zero slots h (suc n) p = absurd (omega arith)
