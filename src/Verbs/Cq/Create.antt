-- ===== src/Verbs/Cq/Create.antt =====
-- `odl_create_cq` and `odl_destroy_cq` of verbs/src/odl_tb5_verbs_cq.c. What the C library and the
-- kernel answer is an argument; what the call has taken and not given back is part of the result.
use odin_link_five.Prelude.{
  ℕ, ◌+◌, ◌-◌, ◌≤◌, ◌<◌, ◌≡◌, refl, sym, subst, Bool, true, false, List, [], ◌∷◌, Option, none,
  some, if◌then◌else◌, ltb, leb, not, ℤ, pos, negsuc, replicate, length-replicate, arith,
}
use odin_link_five.Verbs.Ring.{items-zero}
use odin_link_five.Verbs.Ring.Count.{used, used-zero}
use odin_link_five.Verbs.Cq.{Cq, zero_wc}
use odin_link_five.Verbs.Cq.Fifo.{IsValid, waiting}

abbrev pub max_cqs : ℕ
max_cqs = 128

abbrev pub comp_channel_backlog : ℕ
comp_channel_backlog = 64

abbrev pub comp_channel_max : ℕ
comp_channel_max = 65536

-- `cqe > 0 ? cqe : 1`
abbrev pub at_least_one : ℤ → ℕ
at_least_one (pos n) = if ltb 0 n then n else 1
at_least_one (negsuc n) = 1

-- "allocate cqe+1 to make the ADVERTISED depth actually usable", between the two bounds.
unfoldable pub ring_cap_of : ℤ → ℕ
ring_cap_of cqe =
    let wanted = at_least_one cqe + 1 in
    let floored = if ltb wanted comp_channel_backlog then comp_channel_backlog else wanted in
    if ltb comp_channel_max floored then comp_channel_max else floored

unfoldable pub new_cq : ℕ → Cq
new_cq cap = record {
  ring = replicate cap zero_wc;
  ring_cap = cap;
  head = 0;
  tail = 0;
  event = 0;
  armed = false;
}

-- What a call holds: the `struct odl_verbs_cq`, its ring, and its eventfd.
pub data Held : Type 0 where
  the_cq the_ring the_eventfd : Held

-- The answers of the two `calloc`s and of `eventfd`.
pub record Answers : Type 0 where
  pub cq_allocated : Bool
  pub ring_allocated : Bool
  pub eventfd_opened : Bool

-- The queue and the depth it advertises, or the null pointer; what the call holds at its end.
pub record Created : Type 0 where
  pub cq : Option (Cq × ℕ)
  pub held : List Held

abbrev refused : List Held → Created
refused held = record { cq = none; held = held }

-- `ncqs` is how many queues the context has.
unfoldable pub create_cq : Answers → ℕ → ℤ → Created
unfolding ring_cap_of new_cq
create_cq a ncqs cqe =
    let cap = ring_cap_of cqe in
    if not a.cq_allocated
    then refused []
    else if not a.ring_allocated
    then refused []
    else if not a.eventfd_opened
    then refused (the_ring ∷ [])
    else if leb max_cqs ncqs
    then refused (the_ring ∷ [])
    else record { cq = some (new_cq cap, cap - 1); held = the_cq ∷ the_ring ∷ the_eventfd ∷ [] }

pub ring_cap_of-bounds :
    (cqe : ℤ) → (comp_channel_backlog ≤ ring_cap_of cqe) × (ring_cap_of cqe ≤ comp_channel_max)
unfolding ring_cap_of
ring_cap_of-bounds cqe = ground arith

-- Up to the ceiling, the ring has a slot for each completion that was asked for.
pub ring_cap_of-holds : (n : ℕ) → n < comp_channel_max → n + 1 ≤ ring_cap_of (pos n)
unfolding ring_cap_of
ring_cap_of-holds n lt = ground arith

new_cq-IsValid : (cap : ℕ) → 1 < cap → IsValid (new_cq cap)
unfolding new_cq
new_cq-IsValid cap lt = record {
  room = lt;
  head_in = omega arith;
  tail_in = omega arith;
  storage = omega (arith, length-replicate cap zero_wc);
}

create_cq-new_cq :
    (a : Answers) (ncqs : ℕ) (cqe : ℤ) (p : Cq × ℕ)
    → (create_cq a ncqs cqe).cq ≡ some p
    → p ≡ (new_cq (ring_cap_of cqe), ring_cap_of cqe - 1)
unfolding create_cq
create_cq-new_cq a ncqs cqe p e = ground arith

new_cq-empty : (cap : ℕ) → 1 < cap → waiting (new_cq cap) ≡ []
unfolding new_cq
new_cq-empty cap lt =
    items-zero zero_wc cap (replicate cap zero_wc) 0 (used cap 0 0)
      ((used-zero cap 0 0 (omega arith) (omega arith)).1 refl)

-- A queue that is created is empty, and holds as many completions as it advertises.
pub create_cq-IsValid :
    (a : Answers) (ncqs n : ℕ) {c : Cq} {depth : ℕ}
    → n < comp_channel_max
    → (create_cq a ncqs (pos n)).cq ≡ some (c, depth)
    → IsValid c × (waiting c ≡ []) × (n ≤ depth) × (depth ≡ c.ring_cap - 1)
unfolding new_cq
create_cq-IsValid a ncqs n {c} {depth} lt e =
    let p = sym (create_cq-new_cq a ncqs (pos n) (c, depth) e) in
    let big : 1 < ring_cap_of (pos n) = omega (arith, ring_cap_of-bounds (pos n)) in
    subst (λ (r : Cq × ℕ). IsValid r.0 × (waiting r.0 ≡ []) × (n ≤ r.1) × (r.1 ≡ r.0.ring_cap - 1))
      p
      (
        new_cq-IsValid (ring_cap_of (pos n)) big,
        new_cq-empty (ring_cap_of (pos n)) big,
        omega (arith, ring_cap_of-holds n lt),
        refl,
      )

pub create_cq-held :
    (a : Answers) (ncqs : ℕ) (cqe : ℤ)
    → a.cq_allocated ≡ true
    → a.ring_allocated ≡ true
    → (create_cq a ncqs cqe).cq ≡ none
    → (create_cq a ncqs cqe).held ≡ the_ring ∷ []
unfolding create_cq
create_cq-held a ncqs cqe h h' e = ground arith
