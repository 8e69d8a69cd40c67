-- ===== src/Verbs/Ring/Count.antt =====
-- The slot numbers of a ring that keeps its first slot and the slot after its last, `head` and
-- `tail`, and leaves one slot free.
use native.Mathlib.Nat.{mod-eq_of_lt, mod-eq-sub-mod}
use native.Mathlib.Decide.{dec_lt}
use odin_link_five.Prelude.{ℕ, ◌+◌, ◌-◌, ◌%◌, ◌≤◌, ◌<◌, ◌≡◌, ◌∙◌, ◌↔◌, ◌⊎◌, inl, inr, arith}

module _ (cap : ℕ) where
  -- A slot number below `2 * cap` comes back round at most once.
  pub slot_cases :
      (i : ℕ) → i < cap + cap → ((i % cap ≡ i) × (i < cap)) ⊎ ((i % cap ≡ i - cap) × (cap ≤ i))
  slot_cases i lt = elim (dec_lt i cap) [
    | yes p ↦ inl (mod-eq_of_lt p, p)
    | no p ↦
        inr
          (mod-eq-sub-mod {n = i} {m = cap} (omega arith) ∙ mod-eq_of_lt (omega arith), omega arith)
  ]

  -- How many slots are in use.
  abbrev pub used : ℕ → ℕ → ℕ
  used head tail = (tail + cap - head) % cap

  module _ (head tail : ℕ) (h : head < cap) (t : tail < cap) where
    pub used-lt : used head tail < cap
    used-lt = omega (arith, slot_cases (tail + cap - head))

    pub tail-used : tail ≡ (head + used head tail) % cap
    tail-used = ground (arith, slot_cases (tail + cap - head), slot_cases (head + used head tail))

    pub used-zero : (used head tail ≡ 0) ↔ (head ≡ tail)
    used-zero = ground (arith, slot_cases (tail + cap - head))

    pub used-full : ((tail + 1) % cap ≡ head) ↔ (used head tail + 1 ≡ cap)
    used-full = ground (arith, slot_cases (tail + cap - head), slot_cases (tail + 1))

    pub used-put : used head tail + 1 < cap → used head ((tail + 1) % cap) ≡ used head tail + 1
    used-put lt = ground (
      arith,
      slot_cases (tail + cap - head),
      slot_cases (tail + 1),
      slot_cases ((tail + 1) % cap + cap - head),
    )

    pub used-take : 0 < used head tail → used ((head + 1) % cap) tail ≡ used head tail - 1
    used-take lt = ground (
      arith,
      slot_cases (tail + cap - head),
      slot_cases (head + 1),
      slot_cases (tail + cap - (head + 1) % cap),
    )
