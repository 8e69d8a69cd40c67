-- ===== src/FramePool/Batch.antt =====
-- `odl_tb5_frame_pool_get_batch`: many slots under one lock, down to the reserve of the receive ring.
use odin_link_five.Prelude.{
  ℕ, zero, suc, ◌+◌, ◌-◌, ◌≤◌, ◌<◌, ◌≡◌, refl, sym, ◌∙◌, Bool, true, false, ltb, List, [], ◌∷◌,
  length, length-set, set, get_or, get_or-set_ne, min, arith, ◌⊎◌, inl, inr, Bool-cases, ltb→lt,
  lt→ltb,
}
use odin_link_five.FramePool.{
  FramePool, find_first_zero_bit, find_next_zero_bit, take_slot, get_batch_from, get_batch,
  tx_pool_reserve,
}
use odin_link_five.FramePool.Balance.{IsBalanced, count_clear, take_slot-IsBalanced}

-- The bits below a position are set.
abbrev Below : ℕ → List Bool → Type 0
Below zero b = Unit {0}
Below (suc n) [] = Unit {0}
Below (suc n) (x ∷ b) = (x ≡ true) × Below n b

-- Where the bits below `from` are set, a search from there misses nothing.
find_next-count :
    (b : List Bool) (from : ℕ)
    → Below from b
    → from ≤ length b
    → ((find_next_zero_bit b from ≡ length b) × (count_clear b ≡ 0))
      ⊎ ((find_next_zero_bit b from < length b)
          × (get_or b (find_next_zero_bit b from) true ≡ false)
          × (from ≤ find_next_zero_bit b from))
unfolding find_next_zero_bit find_first_zero_bit
find_next-count [] zero w h = inl (refl, refl)
find_next-count (false ∷ b) zero w h = inr (omega arith, refl, omega arith)
find_next-count (true ∷ b) zero w h = ground (arith, find_next-count b zero)
find_next-count [] (suc from) w h = absurd (omega arith)
find_next-count (false ∷ b) (suc from) w h = absurd (cc)
find_next-count (true ∷ b) (suc from) w h = ground (arith, find_next-count b from w.1)

Below-set :
    (b : List Bool) (from : ℕ)
    → Below from b
    → Below (suc (find_next_zero_bit b from)) (set b (find_next_zero_bit b from) true)
unfolding find_next_zero_bit find_first_zero_bit
Below-set [] zero w = tt
Below-set (false ∷ b) zero w = (refl, tt)
Below-set (true ∷ b) zero w = (refl, Below-set b zero tt)
Below-set [] (suc from) w = tt
Below-set (x ∷ b) (suc from) w = (w.0, Below-set b from w.1)

-- The slots rise, and lie from a position on.
abbrev pub Rising : ℕ → List ℕ → Type 0
Rising from [] = Unit {0}
Rising from (i ∷ is) = (from ≤ i) × Rising (suc i) is

abbrev pub AllFree : FramePool → List ℕ → Type 0
AllFree p [] = Unit {0}
AllFree p (i ∷ is) = (get_or p.bitmap i true ≡ false) × AllFree p is

-- What a batch of slots `is` does to the pool.
pub record Batches (p : FramePool) (n from : ℕ) (is : List ℕ) (q : FramePool) : Type 0 where
  pub balanced : IsBalanced q
  pub number : length is ≡ min n (p.free_count - tx_pool_reserve)
  pub count : q.free_count + length is ≡ p.free_count
  pub distinct : Rising from is
  pub were_free : AllFree p is

AllFree-take :
    (p : FramePool) (i from : ℕ) (is : List ℕ)
    → i < from
    → Rising from is
    → AllFree (take_slot p i) is
    → AllFree p is
unfolding take_slot
AllFree-take p i from [] lt r a = tt
AllFree-take p i from (j ∷ is) lt r a = (
  sym (get_or-set_ne p.bitmap i j true true (omega arith)) ∙ a.0,
  AllFree-take p i (suc j) is (omega arith) r.1 a.1,
)

below :
    (p : FramePool) (from : ℕ)
    → Below from p.bitmap
    → let i = find_next_zero_bit p.bitmap from in Below (suc i) (take_slot p i).bitmap
unfolding take_slot
below p from w = Below-set p.bitmap from w

length-taken : (p : FramePool) (i : ℕ) → i < length p.bitmap → i < length (take_slot p i).bitmap
unfolding take_slot
length-taken p i h = omega (arith, length-set p.bitmap i true)

-- One slot and then the batches of the pool that is left.
Batches-cons :
    (p : FramePool) (n from i : ℕ) (is : List ℕ) (q : FramePool)
    → IsBalanced p
    → get_or p.bitmap i true ≡ false
    → from ≤ i
    → tx_pool_reserve < p.free_count
    → Batches (take_slot p i) n (suc i) is q
    → Batches p (suc n) from (i ∷ is) q
Batches-cons p n from i is q v clear after more b =
    let t = take_slot-IsBalanced p i clear v in
    record {
      balanced = b.balanced;
      number = omega (arith, b.number, t.1);
      count = omega (arith, b.count, t.1);
      distinct = (after, b.distinct);
      were_free = (clear, AllFree-take p i (suc i) is (omega arith) b.distinct b.were_free);
    }

get_batch_from-Batches :
    (p : FramePool) (n from : ℕ)
    → IsBalanced p
    → Below from p.bitmap
    → from ≤ length p.bitmap
    → Batches p n from (get_batch_from n from p).0 (get_batch_from n from p).1
unfolding get_batch_from
get_batch_from-Batches p zero from v w h = ground arith
get_batch_from-Batches p (suc n) from v w h = elim (find_next-count p.bitmap from w h) [
  | inl (full, empty) ↦ ground (arith, v.count, empty)
  | inr (found, clear, after) ↦ elim (Bool-cases (ltb tx_pool_reserve p.free_count)) [
    | inl more ↦
        rw (more, lt→ltb _ _ (in_range found))
          (Batches-cons p n from _ _ _ v clear after (ltb→lt _ _ more) (
            get_batch_from-Batches (take_slot p _) n _ (take_slot-IsBalanced p _ clear v).0
              (below p from w) (in_taken found)))
    | inr less ↦ ground arith
  ]
]
  where
    in_range :
        find_next_zero_bit p.bitmap from < length p.bitmap
        → find_next_zero_bit p.bitmap from < p.size
    in_range found = omega (arith, v.bits)

    in_taken :
        find_next_zero_bit p.bitmap from < length p.bitmap
        → suc (find_next_zero_bit p.bitmap from)
          ≤ length (take_slot p (find_next_zero_bit p.bitmap from)).bitmap
    in_taken found = length-taken p _ found

-- A batch from a balanced pool holds as many slots as were asked for, or as many as leave the reserve
-- free if that is less. They are distinct and were all free, the count falls by their number, and the
-- pool stays balanced.
pub get_batch-Batches :
    (p : FramePool) (n : ℕ) → IsBalanced p → Batches p n 0 (get_batch p n).0 (get_batch p n).1
unfolding get_batch
get_batch-Batches p n v = get_batch_from-Batches p n 0 v tt (omega arith)
