-- ===== src/FramePool/Balance.antt =====
-- The pool's bookkeeping: the count is that of the clear bits, and a slot has one owner.
use odin_link_five.Prelude.{
  ℕ, zero, suc, ◌+◌, ◌≤◌, ◌<◌, ◌≡◌, ◌≢◌, refl, ap, sym, ◌∙◌, Bool, true, false, List, [], ◌∷◌, none,
  some, length, length-set, set, get_or, get_or-set_self, get_or-set_ne, replicate,
  length-replicate, arith, ◌⊎◌, inl, inr, Bool-cases, ◌==◌, ==_iff, if◌then◌else◌,
}
use odin_link_five.FramePool.{
  Slot, FramePool, frame_pool_size, free_slot, taken_slot, fresh, find_first_zero_bit, take_slot,
  get, put,
}

abbrev pub count_clear : List Bool → ℕ
count_clear [] = 0
count_clear (false ∷ b) = suc (count_clear b)
count_clear (true ∷ b) = count_clear b

-- The slots say what the bitmap says.
abbrev pub Agree : List Bool → List Slot → Type 0
Agree [] [] = Unit {0}
Agree [] (s ∷ ss) = ⊥
Agree (b ∷ bs) [] = ⊥
Agree (b ∷ bs) (s ∷ ss) = (s.in_use ≡ b) × Agree bs ss

pub record IsBalanced (p : FramePool) : Type 0 where
  pub bits : length p.bitmap ≡ p.size
  pub agree : Agree p.bitmap p.slots
  pub count : p.free_count ≡ count_clear p.bitmap

-- Whether slot `i` is taken; a bit behind the last one is no slot's.
abbrev pub is_taken : FramePool → ℕ → Bool
is_taken p i = get_or p.bitmap i false

pub find_first_zero_bit-le : (b : List Bool) → find_first_zero_bit b ≤ length b
unfolding find_first_zero_bit
find_first_zero_bit-le [] = omega arith
find_first_zero_bit-le (false ∷ b) = omega arith
find_first_zero_bit-le (true ∷ b) = omega (arith, find_first_zero_bit-le b)

-- No bit before the one found is clear, the one found is, and none is if none is found.
pub find_first_zero_bit-clear :
    (b : List Bool)
    → find_first_zero_bit b < length b
    → get_or b (find_first_zero_bit b) true ≡ false
unfolding find_first_zero_bit
find_first_zero_bit-clear [] h = absurd (omega arith)
find_first_zero_bit-clear (false ∷ b) h = refl
find_first_zero_bit-clear (true ∷ b) h = find_first_zero_bit-clear b (omega arith)

pub find_first_zero_bit-first :
    (b : List Bool) (j : ℕ) → j < find_first_zero_bit b → get_or b j false ≡ true
unfolding find_first_zero_bit
find_first_zero_bit-first [] j h = absurd (omega arith)
find_first_zero_bit-first (false ∷ b) j h = absurd (omega arith)
find_first_zero_bit-first (true ∷ b) zero h = refl
find_first_zero_bit-first (true ∷ b) (suc j) h = find_first_zero_bit-first b j (omega arith)

pub find_first_zero_bit-count :
    (b : List Bool)
    → ((find_first_zero_bit b ≡ length b) × (count_clear b ≡ 0))
      ⊎ ((find_first_zero_bit b < length b) × (0 < count_clear b))
unfolding find_first_zero_bit
find_first_zero_bit-count [] = inl (refl, refl)
find_first_zero_bit-count (false ∷ b) = inr (omega arith, omega arith)
find_first_zero_bit-count (true ∷ b) = ground (arith, find_first_zero_bit-count b)

pub count_clear-set-true :
    (b : List Bool) (i : ℕ)
    → get_or b i true ≡ false
    → suc (count_clear (set b i true)) ≡ count_clear b
count_clear-set-true [] i h = cc
count_clear-set-true (false ∷ b) zero h = refl
count_clear-set-true (true ∷ b) zero h = cc
count_clear-set-true (false ∷ b) (suc i) h = omega (arith, count_clear-set-true b i h)
count_clear-set-true (true ∷ b) (suc i) h = count_clear-set-true b i h

count_clear-set-false :
    (b : List Bool) (i : ℕ)
    → get_or b i false ≡ true
    → count_clear (set b i false) ≡ suc (count_clear b)
count_clear-set-false [] i h = cc
count_clear-set-false (false ∷ b) zero h = cc
count_clear-set-false (true ∷ b) zero h = refl
count_clear-set-false (false ∷ b) (suc i) h = omega (arith, count_clear-set-false b i h)
count_clear-set-false (true ∷ b) (suc i) h = count_clear-set-false b i h

Agree-set :
    (b : List Bool) (ss : List Slot) (i : ℕ) (s : Slot)
    → Agree b ss
    → Agree (set b i s.in_use) (set ss i s)
Agree-set [] [] i s a = tt
Agree-set [] (t ∷ ss) i s a = absurd a
Agree-set (x ∷ b) [] i s a = absurd a
Agree-set (x ∷ b) (t ∷ ss) zero s a = (refl, a.1)
Agree-set (x ∷ b) (t ∷ ss) (suc i) s a = (a.0, Agree-set b ss i s a.1)

pub take_slot-IsBalanced :
    (p : FramePool) (i : ℕ)
    → get_or p.bitmap i true ≡ false
    → IsBalanced p
    → IsBalanced (take_slot p i) × ((take_slot p i).free_count + 1 ≡ p.free_count)
unfolding take_slot
take_slot-IsBalanced p i clear v =
    let c = count_clear-set-true p.bitmap i clear in
    (
      record {
        bits = length-set p.bitmap i true ∙ v.bits;
        agree = Agree-set p.bitmap p.slots i taken_slot v.agree;
        count = omega (arith, v.count, c);
      },
      omega (arith, v.count, c),
    )

Agree-replicate : (n : ℕ) → Agree (replicate n false) (replicate n free_slot)
Agree-replicate zero = tt
Agree-replicate (suc n) = (refl, Agree-replicate n)

count_clear-replicate : (n : ℕ) → count_clear (replicate n false) ≡ n
count_clear-replicate zero = refl
count_clear-replicate (suc n) = ap suc (count_clear-replicate n)

-- A pool of any size whose slots are all free is balanced.
pub new-IsBalanced :
    (n : ℕ)
    → IsBalanced (record {
      bitmap = replicate n false;
      slots = replicate n free_slot;
      size = n;
      free_count = n;
    })
new-IsBalanced n = record {
  bits = length-replicate n false;
  agree = Agree-replicate n;
  count = sym (count_clear-replicate n);
}

pub fresh-IsBalanced : IsBalanced fresh
unfolding fresh
fresh-IsBalanced = new-IsBalanced frame_pool_size

-- What a successful `odl_tb5_frame_pool_get` does to the pool.
pub record Gets (p : FramePool) (i : ℕ) (q : FramePool) : Type 0 where
  pub in_range : i < p.size
  pub was_free : get_or p.bitmap i true ≡ false
  pub lowest : (j : ℕ) → j < i → is_taken p j ≡ true
  pub taken : is_taken q i ≡ true
  pub others : (j : ℕ) → i ≢ j → is_taken q j ≡ is_taken p j
  pub count : q.free_count + 1 ≡ p.free_count
  pub balanced : IsBalanced q

get_or-default :
    (b : List Bool) (i : ℕ) → i < length b → get_or b i true ≡ false → get_or b i false ≡ false
get_or-default [] i h e = absurd (omega arith)
get_or-default (x ∷ b) zero h e = e
get_or-default (x ∷ b) (suc i) h e = get_or-default b i (omega arith) e

-- Taking the lowest clear bit.
take_first-Gets :
    (p : FramePool)
    → IsBalanced p
    → find_first_zero_bit p.bitmap < length p.bitmap
    → Gets p (find_first_zero_bit p.bitmap) (take_slot p (find_first_zero_bit p.bitmap))
unfolding take_slot
take_first-Gets p v found = record {
  in_range = omega (arith, v.bits);
  was_free = clear;
  lowest = find_first_zero_bit-first p.bitmap;
  taken = get_or-set_self p.bitmap idx true false found;
  others = λ j ne. get_or-set_ne p.bitmap idx j true false ne;
  count = (take_slot-IsBalanced p idx clear v).1;
  balanced = (take_slot-IsBalanced p idx clear v).0;
}
  where
    idx : ℕ
    idx = find_first_zero_bit p.bitmap

    clear : get_or p.bitmap idx true ≡ false
    clear = find_first_zero_bit-clear p.bitmap found

-- Taking a slot of a balanced pool hands out the lowest free slot and marks it alone, or, exactly
-- when the count is 0, hands out nothing and leaves the pool as it was. It keeps the balance.
pub get_lem :
    (p : FramePool)
    → IsBalanced p
    → ((p.free_count ≡ 0) × (get p ≡ (none, p)))
      ⊎ ((0 < p.free_count) × ((i : ℕ) × ((q : FramePool) × ((get p ≡ (some i, q)) × Gets p i q))))
unfolding get
get_lem p v = elim (find_first_zero_bit-count p.bitmap) [
  | inl (full, none_clear) ↦ inl (omega (arith, v.count, none_clear), ground (arith, v.bits, full))
  | inr (found, clear) ↦ inr (
    omega (arith, v.count, clear),
    (
      find_first_zero_bit p.bitmap,
      (take_slot p _, (ground (arith, v.bits, found), take_first-Gets p v found)),
    ),
  )
]

-- Putting back a slot that is taken, in a balanced pool, frees it alone, counts it, and keeps the
-- balance.
pub put-IsBalanced :
    (p : FramePool) (i : ℕ)
    → is_taken p i ≡ true
    → IsBalanced p
    → IsBalanced (put p i)
      × ((put p i).free_count ≡ p.free_count + 1)
      × (((j : ℕ) → i ≢ j → is_taken (put p i) j ≡ is_taken p j) × (is_taken (put p i) i ≡ false))
unfolding put
put-IsBalanced p i t v = (
  record {
    bits = length-set p.bitmap i false ∙ v.bits;
    agree = Agree-set p.bitmap p.slots i free_slot v.agree;
    count = omega (arith, v.count, count_clear-set-false p.bitmap i t);
  },
  refl,
  ((λ j ne. get_or-set_ne p.bitmap i j false false ne), freed p.bitmap i),
)
  where
    freed : (b : List Bool) (j : ℕ) → get_or (set b j false) j false ≡ false
    freed [] j = refl
    freed (x ∷ b) zero = refl
    freed (x ∷ b) (suc j) = freed b j

set-set : (b : List Bool) (i : ℕ) → get_or b i true ≡ false → set (set b i true) i false ≡ b
set-set [] i h = refl
set-set (x ∷ b) zero h = ground arith
set-set (x ∷ b) (suc i) h = ap (λ c. x ∷ c) (set-set b i h)

-- Getting a slot of a balanced pool and putting it back leaves the bitmap and the count as they were.
pub put-get :
    (p : FramePool) (i : ℕ) (q : FramePool)
    → IsBalanced p
    → get p ≡ (some i, q)
    → ((put q i).bitmap ≡ p.bitmap) × ((put q i).free_count ≡ p.free_count)
unfolding put get take_slot
put-get p i q v e = elim (find_first_zero_bit-count p.bitmap) [
  | inl (full, _) ↦ absurd (ground (arith, v.bits, full))
  | inr (found, _) ↦ ground (
    arith,
    v.bits,
    found,
    set-set p.bitmap _ (find_first_zero_bit-clear p.bitmap found),
    (take_slot-IsBalanced p _ (find_first_zero_bit-clear p.bitmap found) v).1,
  )
]

abbrev pub bit : Bool → ℕ
bit b = if b then 1 else 0

-- Slot by slot: what a get and a put change.
pub get_bits :
    {p q : FramePool} {i : ℕ}
    → IsBalanced p
    → Gets p i q
    → (j : ℕ) → bit (is_taken p j) + (if i == j then 1 else 0) ≡ bit (is_taken q j)
get_bits {p} {q} {i} v g j =
    let free : is_taken p i ≡ false =
      get_or-default p.bitmap i (omega (arith, g.in_range, v.bits)) g.was_free in
    elim (Bool-cases (i == j)) [
      | inl e ↦
          let same : i ≡ j = (==_iff i j).0 e in
          let a : is_taken p j ≡ false = ap (is_taken p) (sym same) ∙ free in
          let b : is_taken q j ≡ true = ap (is_taken q) (sym same) ∙ g.taken in rw (e, a, b) refl
      | inr e ↦ let o = g.others j (λ h. ground (arith, e, h, ==_iff i j)) in ground (arith, e, o)
    ]

pub put_bits :
    (p : FramePool) (i : ℕ)
    → is_taken p i ≡ true
    → IsBalanced p
    → (j : ℕ) → bit (is_taken p j) ≡ bit (is_taken (put p i) j) + (if i == j then 1 else 0)
put_bits p i t v j =
    let (_, _, (others, freed)) = put-IsBalanced p i t v in
    elim (Bool-cases (i == j)) [
      | inl e ↦
          let same : i ≡ j = (==_iff i j).0 e in
          let a : is_taken p j ≡ true = ap (is_taken p) (sym same) ∙ t in
          let b : is_taken (put p i) j ≡ false = ap (is_taken (put p i)) (sym same) ∙ freed in
          rw (e, a, b) refl
      | inr e ↦ let o = others j (λ h. ground (arith, e, h, ==_iff i j)) in ground (arith, e, o)
    ]
