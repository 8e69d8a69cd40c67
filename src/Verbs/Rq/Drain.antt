-- ===== src/Verbs/Rq/Drain.antt =====
-- `odl_rq_drain` of verbs/src/odl_tb5_verbs_qp.c completes the posted buffers from the oldest on, one
-- completion for each.
use odin_link_five.Prelude.{
  ℕ, suc, ◌+◌, ◌-◌, ◌%◌, ◌<◌, ◌≡◌, refl, sym, ap, ◌∙◌, List, [], ◌∷◌, Option, none, some,
  if◌then◌else◌, ◌==◌, ==_iff, length, get_or, drop, min, arith, Bool-cases, inl, inr,
}
use odin_link_five.Verbs.Ring.{items-ne_zero, items-zero}
use odin_link_five.Verbs.Ring.Count.{slot_cases}
use odin_link_five.Verbs.Cq.{Wc, success, general_err, wc_recv, Cq}
use odin_link_five.Verbs.Worker.{post_wc}
use odin_link_five.Verbs.Cq.Wakeup.{post_all}
use odin_link_five.Verbs.Rq.{
  RecvEntry, RecvSide, zero_recv, rq_depth, Answer, again, got, failed, recv_wc, consume, deliver,
  drain_loop,
}
use odin_link_five.Verbs.Rq.Post.{buffers, IsValid}

abbrev pub post_each : List Wc → Option Cq → Option Cq
post_each wcs none = none
post_each wcs (some c) = some (post_all wcs c)

-- What an answer makes of a buffer: nothing, or the completion of a message that came or of an error.
abbrev pub completion : ℕ → RecvEntry → Answer → Option Wc
completion qp e again = none
completion qp e (got src n) = some (record {
  wr_id = e.wr_id;
  status = success;
  byte_len = n;
  opcode = wc_recv;
  qp_num = qp;
  src_qp = src;
})
completion qp e (failed _) = some (record {
  wr_id = e.wr_id;
  status = general_err;
  byte_len = 0;
  opcode = wc_recv;
  qp_num = qp;
  src_qp = 0;
})

abbrev more : Option Wc → List Wc → List Wc
more none wcs = []
more (some wc) wcs = wc ∷ wcs

-- The completions of buffers for a list of answers, up to the first that nothing is pending.
unfoldable pub completions : ℕ → List Answer → List RecvEntry → List Wc
completions qp [] es = []
completions qp (a ∷ answers) [] = []
completions qp (a ∷ answers) (e ∷ es) = more (completion qp e a) (completions qp answers es)

-- The completions are those of the oldest buffers, in order; the other buffers stay.
pub record IsDrained (answers : List Answer) (s : RecvSide) (r : List Wc × RecvSide) : Type 0 where
  pub valid : IsValid r.1
  pub made : r.0 ≡ completions s.qp_num answers (buffers s)
  pub rest : buffers r.1 ≡ drop (length r.0) (buffers s)
  pub completed : r.1.recv_cq ≡ post_each r.0 s.recv_cq

deliver-IsValid : (wc : Wc) {s : RecvSide} → IsValid s → 0 < s.rq_count → IsValid (deliver wc s)
unfolding deliver consume
deliver-IsValid wc {s} v h = record {
  head_in = omega arith;
  tail_is = ground (
    arith,
    v.tail_is,
    v.head_in,
    v.bounded,
    slot_cases rq_depth (s.rq_head + s.rq_count),
    slot_cases rq_depth (s.rq_head + 1),
    slot_cases rq_depth ((s.rq_head + 1) % rq_depth + (s.rq_count - 1)),
  );
  bounded = omega (arith, v.bounded);
  storage = v.storage;
}

buffers-deliver :
    (wc : Wc) (s : RecvSide)
    → 0 < s.rq_count
    → buffers s ≡ get_or s.rq s.rq_head zero_recv ∷ buffers (deliver wc s)
unfolding deliver consume
buffers-deliver wc s h = items-ne_zero zero_recv rq_depth s.rq s.rq_head s.rq_count h

post_each-cons :
    (wc : Wc) (wcs : List Wc) (o : Option Cq)
    → post_each wcs (post_wc wc o) ≡ post_each (wc ∷ wcs) o
unfolding post_all
post_each-cons wc wcs none = refl
post_each-cons wc wcs (some c) = refl

post_each-nil : (o : Option Cq) → o ≡ post_each [] o
unfolding post_all
post_each-nil none = refl
post_each-nil (some c) = refl

-- Nothing is done, and nothing was to be done.
nothing :
    (answers : List Answer) {s : RecvSide}
    → IsValid s
    → completions s.qp_num answers (buffers s) ≡ []
    → IsDrained answers s ([], s)
nothing answers {s} v e = record {
  valid = v;
  made = sym e;
  rest = refl;
  completed = post_each-nil s.recv_cq;
}

completions-again :
    (qp : ℕ) (answers : List Answer) (es : List RecvEntry)
    → completions qp (again ∷ answers) es ≡ []
unfolding completions
completions-again qp answers [] = refl
completions-again qp answers (e ∷ es) = refl

completions-empty : (qp : ℕ) (answers : List Answer) → completions qp answers [] ≡ []
unfolding completions
completions-empty qp [] = refl
completions-empty qp (a ∷ answers) = refl

-- A round of the loop with a completion for the buffer at the head.
one_round :
    (wc : Wc) (a : Answer) (answers : List Answer) {s : RecvSide} (r : List Wc × RecvSide)
    → IsValid s
    → completion s.qp_num (get_or s.rq s.rq_head zero_recv) a ≡ some wc
    → (0 < s.rq_count → IsDrained answers (deliver wc s) r)
    → IsDrained (a ∷ answers) s (if s.rq_count == 0 then ([], s) else (wc ∷ r.0, r.1))
unfolding deliver consume completions
one_round wc a answers {s} r v is go = elim (Bool-cases (s.rq_count == 0)) [
  | inl empty ↦
      let none_posted : buffers s ≡ [] =
        items-zero zero_recv rq_depth s.rq s.rq_head s.rq_count
          (ground (arith, ==_iff s.rq_count 0)) in
      rw empty (
        nothing (a ∷ answers) v (
          ap (completions s.qp_num (a ∷ answers)) none_posted
          ∙ completions-empty s.qp_num (a ∷ answers)))
  | inr some_wait ↦
      let pos : 0 < s.rq_count = ground (arith, ==_iff s.rq_count 0) in
      let d = go pos in
      let split = buffers-deliver wc s pos in
      rw some_wait (record {
        valid = d.valid;
        made =
            ap (λ l. wc ∷ l) d.made
            ∙ ap (λ o. more o (completions s.qp_num answers (buffers (deliver wc s)))) (sym is)
            ∙ ap (completions s.qp_num (a ∷ answers)) (sym split);
        rest = d.rest ∙ ap (drop (suc (length r.0))) (sym split);
        completed = d.completed ∙ post_each-cons wc r.0 s.recv_cq;
      })
]

-- A drain of a valid receive queue makes, for the driver's answers in turn, one completion for each
-- answer with data or an error, out of the oldest posted buffer that is left, with the buffer's id
-- and the answer's source, length and status, until the driver has nothing or no buffer is left. It
-- posts these, in order, to the receive queue's completion queue, and the other buffers stay as they
-- were; the queue stays valid.
pub drain_loop_lem :
    (answers : List Answer) {s : RecvSide} → IsValid s → IsDrained answers s (drain_loop answers s)
unfolding drain_loop completions
drain_loop_lem [] v = nothing [] v refl
drain_loop_lem (again ∷ answers) {s} v =
    nothing (again ∷ answers) v (completions-again s.qp_num answers (buffers s))
drain_loop_lem (got src n ∷ answers) {s} v =
    let wc = recv_wc (get_or s.rq s.rq_head zero_recv).wr_id s.qp_num src success n in
    one_round wc (got src n) answers (drain_loop answers (deliver wc s)) v refl
      λ h. drain_loop_lem answers (deliver-IsValid wc v h)
drain_loop_lem (failed e ∷ answers) {s} v =
    let wc = recv_wc (get_or s.rq s.rq_head zero_recv).wr_id s.qp_num 0 general_err 0 in
    one_round wc (failed e) answers (drain_loop answers (deliver wc s)) v refl
      λ h. drain_loop_lem answers (deliver-IsValid wc v h)

-- The answers that consume a buffer: all but the one that says that nothing is pending.
abbrev pub consumes : List Answer → ℕ
consumes [] = 0
consumes (again ∷ answers) = 0
consumes (got _ _ ∷ answers) = suc (consumes answers)
consumes (failed _ ∷ answers) = suc (consumes answers)

length_round :
    (wc : Wc) (s : RecvSide) (r : List Wc × RecvSide) (n : ℕ)
    → length r.0 ≡ min n (s.rq_count - 1)
    → let t : List Wc × RecvSide = if s.rq_count == 0 then ([], s) else (wc ∷ r.0, r.1) in
      length t.0 ≡ min (suc n) s.rq_count
length_round wc s r n h = ground (arith, ==_iff s.rq_count 0)

-- As many as the stream answers for, up to the buffers that are posted.
pub length-drain_loop :
    (answers : List Answer) (s : RecvSide)
    → length (drain_loop answers s).0 ≡ min (consumes answers) s.rq_count
unfolding drain_loop deliver consume
length-drain_loop [] s = omega arith
length-drain_loop (again ∷ answers) s = omega arith
length-drain_loop (got src n ∷ answers) s =
    let wc = recv_wc (get_or s.rq s.rq_head zero_recv).wr_id s.qp_num src success n in
    length_round wc s (drain_loop answers (deliver wc s)) (consumes answers)
      (length-drain_loop answers (deliver wc s))
length-drain_loop (failed e ∷ answers) s =
    let wc = recv_wc (get_or s.rq s.rq_head zero_recv).wr_id s.qp_num 0 general_err 0 in
    length_round wc s (drain_loop answers (deliver wc s)) (consumes answers)
      (length-drain_loop answers (deliver wc s))
