-- ===== src/Verbs/Sq/Head.antt =====
-- The head of the send queue: `odl_qp_worker` frees its slot, and `odl_post_send` leaves it alone.
use odin_link_five.Prelude.{
  ◌+◌, ◌-◌, ◌%◌, ◌<◌, ◌≡◌, refl, sym, ap, ◌∙◌, Bool, true, List, [], ◌∷◌, ◌++◌, length, get_or,
  arith, length-append,
}
use odin_link_five.Verbs.Ring.{items-ne_zero, length-items}
use odin_link_five.Verbs.Ring.Count.{slot_cases}
use odin_link_five.Verbs.Sq.{SendEntry, SendQueue, zero_entry}
use odin_link_five.Verbs.Sq.Post.{entries, IsValid}

pub length-entries : (q : SendQueue) → length (entries q) ≡ q.sq_count
length-entries q = length-items zero_entry q.sq_depth q.sq q.sq_head q.sq_count

abbrev pub head_entry : SendQueue → SendEntry
head_entry q = get_or q.sq q.sq_head zero_entry

-- The queue without its head, and with the flag as given.
abbrev pub without_head : Bool → SendQueue → SendQueue
without_head b q = record q {
  sq_head = (q.sq_head + 1) % q.sq_depth;
  sq_count = q.sq_count - 1;
  tx_inflight = b;
}

abbrev pub with_flag : Bool → SendQueue → SendQueue
with_flag b q = record q { tx_inflight = b }

module _ {q : SendQueue} (v : IsValid q) where
  pub with_flag-IsValid : (b : Bool) → IsValid (with_flag b q)
  with_flag-IsValid b = record {
    head_in = v.head_in;
    tail_is = v.tail_is;
    bounded = v.bounded;
    storage = v.storage;
    sized = v.sized;
  }

  pub without_head-IsValid : (b : Bool) → 0 < q.sq_count → IsValid (without_head b q)
  without_head-IsValid b some_wait = record {
    head_in = omega (arith, v.head_in);
    tail_is =
        v.tail_is
        ∙ ground (
          arith,
          v.head_in,
          v.bounded,
          slot_cases q.sq_depth (q.sq_head + q.sq_count),
          slot_cases q.sq_depth (q.sq_head + 1),
          slot_cases q.sq_depth ((q.sq_head + 1) % q.sq_depth + (q.sq_count - 1)),
        );
    bounded = omega (arith, v.bounded);
    storage = v.storage;
    sized = v.sized;
  }

pub entries-head :
    (b : Bool) (q : SendQueue)
    → 0 < q.sq_count
    → entries q ≡ head_entry q ∷ entries (without_head b q)
entries-head b q some_wait = items-ne_zero zero_entry q.sq_depth q.sq q.sq_head q.sq_count some_wait

first_of :
    (xs ys : List SendEntry) (e : SendEntry) → 0 < length xs → get_or (xs ++ ys) 0 e ≡ get_or xs 0 e
first_of [] ys e h = absurd (omega arith)
first_of (x ∷ xs) ys e h = refl

get_or-entries : (q : SendQueue) → 0 < q.sq_count → get_or (entries q) 0 zero_entry ≡ head_entry q
get_or-entries q h = rw (entries-head true q h) refl

-- A queue that has grown at its end has the same head.
pub head_entry-grown :
    (q q' : SendQueue) (added : List SendEntry)
    → entries q' ≡ entries q ++ added
    → 0 < q.sq_count
    → (0 < q'.sq_count) × (head_entry q' ≡ head_entry q)
head_entry-grown q q' added e h =
    let n : length (entries q') ≡ length (entries q) + length added =
      ap length e ∙ length-append (entries q) added in
    let h' : 0 < q'.sq_count = omega (arith, length-entries q, length-entries q') in
    (
      h',
      sym (get_or-entries q' h')
          ∙ ap (λ l. get_or l 0 zero_entry) e
          ∙ first_of (entries q) added zero_entry (omega (arith, length-entries q))
          ∙ get_or-entries q h,
    )
