-- ===== src/Verbs/Sq/Post.antt =====
-- `odl_post_send`'s loop adds the requests at the end of the send queue, in order, until one is
-- refused.
use native.Mathlib.Decide.{ℕ_discrete}
use odin_link_five.Prelude.{
  ℕ, ◌+◌, ◌%◌, ◌≤◌, ◌<◌, ◌≡◌, refl, sym, ap, ◌∙◌, subst, List, [], ◌∷◌, ◌++◌, leb, length, get_or,
  set, length-set, get_or-set_self, get_or-set_ne, map, append-nil, append_assoc, arith, Bool-cases,
  ◌⊎◌, inl, inr, suc_add,
}
use odin_link_five.Errno.{Status, ok, fail, enomem}
use odin_link_five.Verbs.Ring.{items, items-put, items-set_after}
use odin_link_five.Verbs.Ring.Count.{slot_cases}
use odin_link_five.Verbs.Sq.{
  SendWr, SendEntry, CopyStats, SendQueue, PostEnv, zero_entry, fill, push, post_loop,
}
use odin_link_five.Verbs.Sq.Fill.{Request, view, request, IsSized, fill_lem}

-- The entries in use, oldest first, and their requests.
abbrev pub entries : SendQueue → List SendEntry
entries q = items zero_entry q.sq_depth q.sq q.sq_head q.sq_count

abbrev pub waiting : SendQueue → List Request
waiting q = map view (entries q)

pub record IsValid (q : SendQueue) : Type 0 where
  pub head_in : q.sq_head < q.sq_depth
  pub tail_is : q.sq_tail ≡ (q.sq_head + q.sq_count) % q.sq_depth
  pub bounded : q.sq_count ≤ q.sq_depth
  pub storage : q.sq_depth ≤ length q.sq
  pub sized : (i : ℕ) → IsSized (get_or q.sq i zero_entry)

tail_in : {q : SendQueue} → IsValid q → q.sq_tail < q.sq_depth
tail_in v = omega arith

IsSized-set :
    (xs : List SendEntry) (t : ℕ) (e : SendEntry)
    → ((i : ℕ) → IsSized (get_or xs i zero_entry))
    → t < length xs
    → IsSized e
    → (i : ℕ) → IsSized (get_or (set xs t e) i zero_entry)
IsSized-set xs t e all lt one i = elim (ℕ_discrete t i) [
  | yes same ↦
      subst (λ j. IsSized (get_or (set xs t e) j zero_entry)) same
        (subst IsSized (sym (get_or-set_self xs t e zero_entry lt)) one)
  | no ne ↦ subst IsSized (sym (get_or-set_ne xs t i e zero_entry ne)) (all i)
]

module _ (e : SendEntry) (st : CopyStats) {q : SendQueue} (v : IsValid q) (sized : IsSized e)
    (room : q.sq_count < q.sq_depth) where
  push-IsValid : IsValid (push e st q)
  unfolding push
  push-IsValid = record {
    head_in = v.head_in;
    tail_is = ground (
      arith,
      slot_cases q.sq_depth (q.sq_head + q.sq_count),
      slot_cases q.sq_depth (q.sq_tail + 1),
      slot_cases q.sq_depth (q.sq_head + (q.sq_count + 1)),
    );
    bounded = omega arith;
    storage = omega (arith, length-set q.sq q.sq_tail e, v.storage);
    sized = IsSized-set q.sq q.sq_tail e v.sized (omega (arith, v.storage, tail_in v)) sized;
  }

  entries-push : entries (push e st q) ≡ entries q ++ (e ∷ [])
  unfolding push
  entries-push =
      ap (λ n. items zero_entry q.sq_depth (set q.sq q.sq_tail e) q.sq_head n)
        (sym (suc_add q.sq_count))
      ∙ items-put zero_entry q.sq_depth q.sq q.sq_head q.sq_count q.sq_tail e v.head_in room
          v.storage v.tail_is

  -- A slot that is written and does not count.
  spoilt : SendQueue
  spoilt = record q { sq = set q.sq q.sq_tail e }

  spoilt-IsValid : IsValid spoilt
  unfolding spoilt
  spoilt-IsValid = record {
    head_in = v.head_in;
    tail_is = v.tail_is;
    bounded = v.bounded;
    storage = omega (arith, length-set q.sq q.sq_tail e, v.storage);
    sized = IsSized-set q.sq q.sq_tail e v.sized (omega (arith, v.storage, tail_in v)) sized;
  }

  entries-spoilt : entries spoilt ≡ entries q
  unfolding spoilt
  entries-spoilt =
      items-set_after zero_entry q.sq_depth q.sq q.sq_head q.sq_count q.sq_tail e v.head_in room
        v.tail_is

-- What the loop makes of a list of requests: those that it takes stand in the queue behind the ones
-- that waited, and those that it returns are left.
pub record IsPosted (env : PostEnv) (wrs : List SendWr) (q : SendQueue)
    (r : Status × List SendWr × SendQueue) : Type 0 where
  pub accepted : List SendWr
  pub added : List SendEntry
  pub split : wrs ≡ accepted ++ r.1
  pub grown : entries r.2 ≡ entries q ++ added
  pub same : map view added ≡ map (request env) accepted
  pub outcome : ((r.0 ≡ ok) × (r.1 ≡ [])) ⊎ ((r.0 ≡ fail enomem) × (0 < length r.1))
  pub valid : IsValid r.2
  pub head : r.2.sq_head ≡ q.sq_head
  pub inflight : r.2.tx_inflight ≡ q.tx_inflight

-- One more request at the front that is taken.
step_on :
    (env : PostEnv) (wr : SendWr) (wrs : List SendWr) (e : SendEntry) (q q1 : SendQueue)
    (r : Status × List SendWr × SendQueue)
    → entries q1 ≡ entries q ++ (e ∷ [])
    → view e ≡ request env wr
    → q1.sq_head ≡ q.sq_head
    → q1.tx_inflight ≡ q.tx_inflight
    → IsPosted env wrs q1 r
    → IsPosted env (wr ∷ wrs) q r
step_on env wr wrs e q q1 r one w h t p = record {
  accepted = wr ∷ p.accepted;
  added = e ∷ p.added;
  split = ap (λ l. wr ∷ l) p.split;
  grown = p.grown ∙ rw (one, append_assoc) refl;
  same = rw (w, p.same) refl;
  outcome = p.outcome;
  valid = p.valid;
  head = p.head ∙ h;
  inflight = p.inflight ∙ t;
}

-- The request at the front is refused.
stop :
    (env : PostEnv) (wr : SendWr) (wrs : List SendWr) (q q1 : SendQueue)
    → entries q1 ≡ entries q
    → q1.sq_head ≡ q.sq_head
    → q1.tx_inflight ≡ q.tx_inflight
    → IsValid q1
    → IsPosted env (wr ∷ wrs) q (fail enomem, wr ∷ wrs, q1)
stop env wr wrs q q1 one h t v = record {
  accepted = [];
  added = [];
  split = refl;
  grown = one ∙ sym (append-nil (entries q));
  same = refl;
  outcome = inr (refl, omega arith);
  valid = v;
  head = h;
  inflight = t;
}

-- Posting a list of requests to a valid send queue adds an entry for each of a first part of them at
-- the end, in order, each with what its request asks for, the bytes as they were in the application's
-- memory at the call where they are copied; the result is 0 when this is all of them, and ENOMEM with
-- the rest as `*bad_wr` otherwise. The head and the worker's flag stay as they are, and the queue
-- stays valid.
pub post_loop_lem :
    (env : PostEnv) (wrs : List SendWr) {q : SendQueue}
    → IsValid q
    → IsPosted env wrs q (post_loop env wrs q)
unfolding post_loop spoilt push
post_loop_lem env [] {q} v = record {
  accepted = [];
  added = [];
  split = refl;
  grown = sym (append-nil (entries q));
  same = refl;
  outcome = inl (refl, refl);
  valid = v;
  head = refl;
  inflight = refl;
}
post_loop_lem env (wr ∷ wrs) {q} v =
    let (filled, e, st) = fill env wr (get_or q.sq q.sq_tail zero_entry) q.stats in
    let (sized, how) =
      fill_lem env wr (get_or q.sq q.sq_tail zero_entry) q.stats (v.sized q.sq_tail) in
    elim (Bool-cases (leb q.sq_depth q.sq_count)) [
      | inl full ↦ rw full (stop env wr wrs q q refl refl refl v)
      | inr room ↦
          let lt : q.sq_count < q.sq_depth = ground arith in
          elim (Bool-cases filled) [
            | inl yes_filled ↦
                let w : view e ≡ request env wr = elim how [
                  | inl no_filled ↦ absurd (cc)
                  | inr w ↦ w
                ] in
                rw (room, yes_filled)
                  (step_on env wr wrs e q (push e st q) (post_loop env wrs (push e st q))
                    (entries-push e st v sized lt) w refl refl
                    (post_loop_lem env wrs (push-IsValid e st v sized lt)))
            | inr not_filled ↦
                rw (room, not_filled)
                  (stop env wr wrs q (spoilt e st v sized lt) (entries-spoilt e st v sized lt) refl
                    refl (spoilt-IsValid e st v sized lt))
          ]
    ]
