-- ===== src/Verbs/Cq/Fifo.antt =====
-- The completion queue behaves as the bounded queue of the completions that wait in it.
use odin_link_five.Prelude.{
  suc_add, Bool-cases, ℕ, zero, suc, ◌+◌, ◌-◌, ◌%◌, ◌≤◌, ◌<◌, ◌≡◌, refl, sym, ap, ◌∙◌, Bool, true,
  false, ◌⊎◌, inl, inr, List, [], ◌∷◌, ◌++◌, length, set, get_or, take, drop, length-set, lt→ltb,
  ◌==◌, ==_iff, arith,
}
use odin_link_five.Errno.{ok, enospc}
use odin_link_five.Verbs.Fifo
use odin_link_five.Verbs.Ring.{items, items-put, items-ne_zero, items-zero, length-items}
use odin_link_five.Verbs.Ring.Count.{
  used, used-lt, used-zero, used-full, used-put, used-take, tail-used,
}
use odin_link_five.Verbs.Cq.{
  Wc, Cq, zero_wc, signal, cq_post, poll_loop, poll_ring, poll_event, poll_cq,
}

-- How many completions wait, and which.
abbrev pub count : Cq → ℕ
count c = used c.ring_cap c.head c.tail

abbrev pub waiting : Cq → List Wc
waiting c = items zero_wc c.ring_cap c.ring c.head (count c)

-- The ring's indices are slots, the array has them all, and there is room for one completion.
pub record IsValid (c : Cq) : Type 0 where
  pub room : 1 < c.ring_cap
  pub head_in : c.head < c.ring_cap
  pub tail_in : c.tail < c.ring_cap
  pub storage : c.ring_cap ≤ length c.ring

waiting-signal : (c : Cq) → waiting (signal c) ≡ waiting c
unfolding signal
waiting-signal c = ground arith

signal-IsValid : (c : Cq) → IsValid c → IsValid (signal c)
unfolding signal
signal-IsValid c v = ground arith

module _ {c : Cq} (v : IsValid c) where
  -- The ring is full exactly when one slot is left.
  next_cases :
      ((((c.tail + 1) % c.ring_cap == c.head) ≡ true) × (count c + 1 ≡ c.ring_cap))
      ⊎ ((((c.tail + 1) % c.ring_cap == c.head) ≡ false) × (count c + 1 < c.ring_cap))
  next_cases = ground (
    arith,
    used-full c.ring_cap c.head c.tail v.head_in v.tail_in,
    used-lt c.ring_cap c.head c.tail v.head_in v.tail_in,
    ==_iff ((c.tail + 1) % c.ring_cap) c.head,
  )

  module _ (wc : Wc) where
    put_slot : Cq
    put_slot = record c { ring = set c.ring c.tail wc; tail = (c.tail + 1) % c.ring_cap }

    waiting-put_slot : count c + 1 < c.ring_cap → waiting put_slot ≡ waiting c ++ (wc ∷ [])
    unfolding put_slot
    waiting-put_slot lt =
        ap (λ n. items zero_wc c.ring_cap (set c.ring c.tail wc) c.head n)
          (used-put c.ring_cap c.head c.tail v.head_in v.tail_in lt ∙ sym (suc_add (count c)))
        ∙ items-put zero_wc c.ring_cap c.ring c.head (count c) c.tail wc v.head_in (omega arith)
            v.storage (tail-used c.ring_cap c.head c.tail v.head_in v.tail_in)

    put_slot-IsValid : IsValid put_slot
    unfolding put_slot
    put_slot-IsValid = ground (arith, length-set c.ring c.tail wc)

    -- The ring of a completion queue refines a queue of at most its capacity less one: a completion
    -- that is posted goes to the end, or, when the queue is full, is refused with ENOSPC and nothing
    -- changes. The ring is valid.
    pub cq_post_refines :
        let (s, c') = cq_post wc c in
        (s, waiting c') ≡ Fifo.put enospc (c.ring_cap - 1) wc (waiting c)
    unfolding cq_post Fifo.put put_slot
    cq_post_refines = ground (
      arith,
      next_cases,
      length-items zero_wc c.ring_cap c.ring c.head (count c),
      waiting-put_slot,
      waiting-signal put_slot,
    )

    pub cq_post-IsValid : IsValid (cq_post wc c).1
    unfolding cq_post put_slot
    cq_post-IsValid = ground (arith, signal-IsValid put_slot put_slot-IsValid)

module _ (ring : List Wc) (cap tail : ℕ) (t : tail < cap) where
  from : ℕ → List Wc
  from head = items zero_wc cap ring head (used cap head tail)

  -- A round of the loop with the ring empty, and with a completion in it.
  from_empty : (head : ℕ) → head < cap → (head == tail) ≡ true → from head ≡ []
  unfolding from
  from_empty head h e =
      items-zero zero_wc cap ring head (used cap head tail)
        ((used-zero cap head tail h t).1 ((==_iff head tail).0 e))

  from_next :
      (head : ℕ)
      → head < cap
      → (head == tail) ≡ false
      → from head ≡ get_or ring head zero_wc ∷ from ((head + 1) % cap)
  unfolding from
  from_next head h e =
      items-ne_zero zero_wc cap ring head (used cap head tail) some_used
      ∙ ap (λ n. get_or ring head zero_wc ∷ items zero_wc cap ring ((head + 1) % cap) n)
          (sym (used-take cap head tail h t some_used))
    where
      some_used : 0 < used cap head tail
      some_used = ground (arith, used-zero cap head tail h t, ==_iff head tail)

  poll_loop_refines :
      (n head : ℕ)
      → head < cap
      → ((poll_loop n ring cap head tail).0 ≡ take n (from head))
        × (from ((poll_loop n ring cap head tail).1) ≡ drop n (from head))
        × ((poll_loop n ring cap head tail).1 < cap)
  unfolding poll_loop
  poll_loop_refines zero head h = (refl, refl, h)
  poll_loop_refines (suc n) head h =
      let (a, b, c) = poll_loop_refines n ((head + 1) % cap) (omega arith) in
      elim (Bool-cases (head == tail)) [
        | inl e ↦ rw (e, from_empty head h e) (refl, refl, h)
        | inr e ↦ rw (e, from_next head h e) (rw a refl, b, c)
      ]

pub waiting-empty : {c : Cq} → IsValid c → waiting c ≡ [] → c.head ≡ c.tail
waiting-empty {c} v e =
    (used-zero c.ring_cap c.head c.tail v.head_in v.tail_in).0
      (sym (length-items zero_wc c.ring_cap c.ring c.head (count c)) ∙ ap length e)

module _ (num_entries : ℕ) {c : Cq} (v : IsValid c) where
  pub poll_ring_refines :
      ((poll_ring num_entries c).0 ≡ take num_entries (waiting c))
      × (waiting (poll_ring num_entries c).2 ≡ drop num_entries (waiting c))
      × IsValid (poll_ring num_entries c).2
  unfolding poll_ring from
  poll_ring_refines =
      let (a, b, h) =
        poll_loop_refines c.ring c.ring_cap c.tail v.tail_in num_entries c.head v.head_in in
      (a, b, record { room = v.room; head_in = h; tail_in = v.tail_in; storage = v.storage })

  -- The eventfd has no part in it.
  waiting-poll_event :
      (wcs : List Wc) (b : Bool) (c' : Cq) → waiting (poll_event wcs b c') ≡ waiting c'
  unfolding poll_event
  waiting-poll_event [] b c' = refl
  waiting-poll_event (_ ∷ _) true c' = refl
  waiting-poll_event (_ ∷ _) false c' = refl

  poll_event-IsValid :
      (wcs : List Wc) (b : Bool) (c' : Cq) → IsValid c' → IsValid (poll_event wcs b c')
  unfolding poll_event
  poll_event-IsValid [] b c' w = w
  poll_event-IsValid (_ ∷ _) true c' w = record {
    room = w.room;
    head_in = w.head_in;
    tail_in = w.tail_in;
    storage = w.storage;
  }
  poll_event-IsValid (_ ∷ _) false c' w = w

  -- A poll of a valid ring takes the oldest completions, as many as are asked for or as there are, in
  -- order, leaves the others, and keeps the ring valid.
  pub poll_cq_refines :
      ((poll_cq num_entries c).0 ≡ take num_entries (waiting c))
      × (waiting (poll_cq num_entries c).1 ≡ drop num_entries (waiting c))
      × IsValid (poll_cq num_entries c).1
  unfolding poll_cq
  poll_cq_refines =
      let (a, b, w) = poll_ring_refines in
      let (wcs, drained, c') = poll_ring num_entries c in
      (a, waiting-poll_event wcs drained c' ∙ b, poll_event-IsValid wcs drained c' w)

-- With room, a post is taken.
pub cq_post-room :
    (wc : Wc) {c : Cq}
    → IsValid c
    → length (waiting c) + 1 < c.ring_cap
    → (waiting (cq_post wc c).1 ≡ waiting c ++ (wc ∷ [])) × ((cq_post wc c).1.ring_cap ≡ c.ring_cap)
unfolding cq_post Fifo.put signal
cq_post-room wc {c} v room =
    let taken : Fifo.put enospc (c.ring_cap - 1) wc (waiting c) ≡ (ok, waiting c ++ (wc ∷ [])) =
      rw (lt→ltb (length (waiting c)) (c.ring_cap - 1) (omega arith)) refl in
    (ap (λ r. r.1) (cq_post_refines v wc ∙ taken), ground arith)
