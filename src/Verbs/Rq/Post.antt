-- ===== src/Verbs/Rq/Post.antt =====
-- `odl_post_recv` of verbs/src/odl_tb5_verbs_qp.c adds the buffers at the end of the receive queue.
use odin_link_five.Prelude.{
  ◌+◌, ◌%◌, ◌≤◌, ◌<◌, ◌≡◌, refl, sym, ap, ◌∙◌, List, [], ◌∷◌, ◌++◌, if◌then◌else◌, ltb, leb, length,
  set, length-set, append-nil, append_assoc, arith, Bool-cases, ◌⊎◌, inl, inr, suc_add,
}
use odin_link_five.Errno.{Status, ok, fail, enomem}
use odin_link_five.Verbs.Ring.{items, items-put}
use odin_link_five.Verbs.Ring.Count.{slot_cases}
use odin_link_five.Verbs.Rq.{
  RecvWr, RecvEntry, RecvSide, zero_recv, rq_depth, recv_entry, push, post_recv,
}

-- The buffers that wait for a message, oldest first.
abbrev pub buffers : RecvSide → List RecvEntry
buffers s = items zero_recv rq_depth s.rq s.rq_head s.rq_count

pub record IsValid (s : RecvSide) : Type 0 where
  pub head_in : s.rq_head < rq_depth
  pub tail_is : s.rq_tail ≡ (s.rq_head + s.rq_count) % rq_depth
  pub bounded : s.rq_count ≤ rq_depth
  pub storage : rq_depth ≤ length s.rq

-- The buffers of a list of requests: a request without a scatter entry has none.
pub buffers_of : List RecvWr → List RecvEntry
buffers_of [] = []
buffers_of (wr ∷ wrs) =
    let rest = buffers_of wrs in if ltb 0 wr.num_sge then recv_entry wr ∷ rest else rest

module _ (wr : RecvWr) {s : RecvSide} (v : IsValid s) (room : s.rq_count < rq_depth) where
  push-IsValid : IsValid (push wr s)
  unfolding push
  push-IsValid = record {
    head_in = v.head_in;
    tail_is = ground (
      arith,
      v.tail_is,
      slot_cases rq_depth (s.rq_head + s.rq_count),
      slot_cases rq_depth (s.rq_tail + 1),
      slot_cases rq_depth (s.rq_head + (s.rq_count + 1)),
    );
    bounded = omega arith;
    storage = omega (arith, length-set s.rq s.rq_tail (recv_entry wr), v.storage);
  }

  buffers-push : buffers (push wr s) ≡ buffers s ++ (recv_entry wr ∷ [])
  unfolding push
  buffers-push =
      ap (λ n. items zero_recv rq_depth (set s.rq s.rq_tail (recv_entry wr)) s.rq_head n)
        (sym (suc_add s.rq_count))
      ∙ items-put zero_recv rq_depth s.rq s.rq_head s.rq_count s.rq_tail (recv_entry wr) v.head_in
          room v.storage v.tail_is

pub record IsPosted (wrs : List RecvWr) (s : RecvSide) (r : Status × List RecvWr × RecvSide)
    : Type 0 where
  pub accepted : List RecvWr
  pub split : wrs ≡ accepted ++ r.1
  pub grown : buffers r.2 ≡ buffers s ++ buffers_of accepted
  pub outcome : ((r.0 ≡ ok) × (r.1 ≡ [])) ⊎ ((r.0 ≡ fail enomem) × (r.2.rq_count ≡ rq_depth))
  pub valid : IsValid r.2

buffers_of-cons :
    (wr : RecvWr) (wrs : List RecvWr)
    → buffers_of (wr ∷ []) ++ buffers_of wrs ≡ buffers_of (wr ∷ wrs)
unfolding buffers_of
buffers_of-cons wr wrs = ground arith

-- One more request at the front that is taken.
step_on :
    (wr : RecvWr) (wrs : List RecvWr) (s s1 : RecvSide) (r : Status × List RecvWr × RecvSide)
    → buffers s1 ≡ buffers s ++ buffers_of (wr ∷ [])
    → IsPosted wrs s1 r
    → IsPosted (wr ∷ wrs) s r
unfolding buffers_of
step_on wr wrs s s1 r one p = record {
  accepted = wr ∷ p.accepted;
  split = ap (λ l. wr ∷ l) p.split;
  grown =
      p.grown
      ∙ ap (λ l. l ++ buffers_of p.accepted) one
      ∙ append_assoc (buffers s) (buffers_of (wr ∷ [])) (buffers_of p.accepted)
      ∙ ap (λ l. buffers s ++ l) (buffers_of-cons wr p.accepted);
  outcome = p.outcome;
  valid = p.valid;
}

pub post_recv_lem :
    (wrs : List RecvWr) {s : RecvSide} → IsValid s → IsPosted wrs s (post_recv wrs s)
unfolding post_recv buffers_of
post_recv_lem [] {s} v = record {
  accepted = [];
  split = refl;
  grown = sym (append-nil (buffers s));
  outcome = inl (refl, refl);
  valid = v;
}
post_recv_lem (wr ∷ wrs) {s} v = elim (Bool-cases (leb rq_depth s.rq_count)) [
  | inl full ↦ rw full (record {
    accepted = [];
    split = refl;
    grown = sym (append-nil (buffers s));
    outcome = inr (refl, ground (arith, v.bounded));
    valid = v;
  })
  | inr room ↦ elim (Bool-cases (ltb 0 wr.num_sge)) [
    | inl sge ↦
        let lt : s.rq_count < rq_depth = ground arith in
        rw (room, sge)
          (step_on wr wrs s (push wr s) (post_recv wrs (push wr s)) (rw sge (buffers-push wr v lt))
            (post_recv_lem wrs (push-IsValid wr v lt)))
    | inr no_sge ↦
        rw (room, no_sge)
          (step_on wr wrs s s (post_recv wrs s) (rw no_sge (sym (append-nil (buffers s))))
            (post_recv_lem wrs v))
  ]
]
