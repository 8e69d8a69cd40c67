-- ===== src/Verbs/Worker/Logs.antt =====
-- What the sends of a queue pair of verbs/src/odl_tb5_verbs_qp.c leave on the wire and in the
-- completion queue, for each request once, whatever the order of the steps.
use odin_link_five.Prelude.{
  ℕ, ◌+◌, ◌<◌, ◌≡◌, refl, sym, ap, ◌∙◌, subst, Bool, true, List, [], ◌∷◌, ◌++◌, Option, none, some,
  if◌then◌else◌, length, length-append, append_assoc, append-nil, ltb, take, map, arith, inl, inr,
  Bool-cases,
}
use odin_link_five.Errno.{Status}
use odin_link_five.Verbs.Cq.{Wc, success, Cq, cq_post}
use odin_link_five.Verbs.Cq.Wakeup.{post_all}
use odin_link_five.Verbs.Handles.{tally, tally-append}
use odin_link_five.Verbs.Mr.{Mr}
use odin_link_five.Verbs.Rq.Drain.{post_each}
use odin_link_five.Verbs.Sq.{SendWr, SendQueue, PostEnv, read}
use odin_link_five.Verbs.Sq.Fill.{Request, request, view}
use odin_link_five.Verbs.Sq.Post.{waiting}
use odin_link_five.Verbs.Sq.Head.{head_entry, entries-head}
use odin_link_five.Verbs.Worker.{
  Payload, host, payload_of, Sent, post_wc, inline_send, inline_complete, send_wc, post_queued,
  Peeked, Stage, idle, trying, done, popped, retain, transmit, pop, complete,
}
use odin_link_five.Verbs.Worker.World.{
  World, queue_up, send_inline, finish_inline, at_stage, begin_round, load_of, tried, attempt,
  free_slot, end_round, Step, queue_up_step, send_inline_step, finish_inline_step, begin_step,
  attempt_step, free_step, end_step, Steps, stay, step, StageOk, IsOrdered,
}
use odin_link_five.Verbs.Worker.Stages.{peek_some, peek_none}
use odin_link_five.Verbs.Worker.Order.{Step-IsOrdered}
use odin_link_five.Verbs.Worker.Tries.{carried, carried-append, try_send_effect}

post_each-end :
    (wcs : List Wc) (wc : Wc) (o : Option Cq)
    → post_wc wc (post_each wcs o) ≡ post_each (wcs ++ (wc ∷ [])) o
unfolding post_all
post_each-end [] wc none = refl
post_each-end (x ∷ wcs) wc none = refl
post_each-end [] wc (some c) = refl
post_each-end (x ∷ wcs) wc (some c) = post_each-end wcs wc (some (cq_post x c).1)

-- The completion that the worker has and has not posted.
abbrev pub owed_by : Stage → List Wc
owed_by (done wc) = wc ∷ []
owed_by (popped wc) = wc ∷ []
owed_by _ = []

abbrev pub by_request : (ℕ → Bool) → Request → Bool
by_request t r = t r.wr_id

abbrev pub by_caller : (ℕ → Bool) → SendWr → Bool
by_caller t wr = t wr.wr_id

abbrev pub by_completion : (ℕ → Bool) → Wc → Bool
by_completion t wc = t wc.wr_id

-- The wire has gained what the driver took, the completion queue the completions; and the ids of the
-- requests that left are those of the completions made and owed.
pub record IsLogged (src dst : ℕ) (wire : List Sent) (cq : Option Cq) (w : World) : Type 0 where
  pub source : w.side.tx_stream_id ≡ src
  pub target : w.side.dest_qp ≡ dst
  pub sent : w.side.wire ≡ wire ++ carried src dst w.loads
  pub posted_to : w.side.send_cq ≡ post_each w.completed cq
  pub each : length w.loads ≡ length w.left
  pub ids :
      (t : ℕ → Bool)
      → tally (by_request t) w.left
        ≡ tally (by_completion t) w.completed
          + tally (by_caller t) w.owed
          + tally (by_completion t) (owed_by w.stage)

-- The request at the head, alone.
take-waiting : (q : SendQueue) → 0 < q.sq_count → take 1 (waiting q) ≡ view (head_entry q) ∷ []
take-waiting q some_wait = ap (λ l. take 1 (map view l)) (entries-head true q some_wait)

module _ {src dst : ℕ} {wire : List Sent} {cq : Option Cq} (w : World) (i : IsOrdered w)
    (g : IsLogged src dst wire cq w) where
  -- More goes out.
  sent_more :
      (ls : List (Option Payload)) (out : List Sent)
      → out ≡ w.side.wire ++ carried w.side.tx_stream_id w.side.dest_qp ls
      → out ≡ wire ++ carried src dst (w.loads ++ ls)
  sent_more ls out e =
      e
      ∙ ap (λ n. w.side.wire ++ carried n w.side.dest_qp ls) g.source
      ∙ ap (λ n. w.side.wire ++ carried src n ls) g.target
      ∙ ap (λ l. l ++ carried src dst ls) g.sent
      ∙ append_assoc wire (carried src dst w.loads) (carried src dst ls)
      ∙ ap (λ l. wire ++ l) (sym (carried-append src dst w.loads ls))

  completes : (wc : Wc) → post_wc wc w.side.send_cq ≡ post_each (w.completed ++ (wc ∷ [])) cq
  completes wc = ap (post_wc wc) g.posted_to ∙ post_each-end w.completed wc cq

  queue_up-IsLogged :
      (env : PostEnv) (wrs : List SendWr) → IsLogged src dst wire cq (queue_up env wrs w)
  unfolding post_queued
  queue_up-IsLogged env wrs = record {
    source = g.source;
    target = g.target;
    sent = g.sent;
    posted_to = g.posted_to;
    each = g.each;
    ids = g.ids;
  }

  send_inline-IsLogged :
      (env : PostEnv) (wr : SendWr) → IsLogged src dst wire cq (send_inline env wr w)
  unfolding inline_send transmit carried
  send_inline-IsLogged env wr = record {
    source = g.source;
    target = g.target;
    sent = sent_more (some (host (read env.mem wr.addr wr.length)) ∷ []) _ refl;
    posted_to = g.posted_to;
    each = omega (
      arith,
      g.each,
      length-append w.loads (some (host (read env.mem wr.addr wr.length)) ∷ []),
      length-append w.left (request env wr ∷ []),
    );
    ids = λ t. omega (arith, g.ids t, tally-append (by_request t) w.left (request env wr ∷ []));
  }

  finish_inline-IsLogged :
      (before after : List SendWr) (wr : SendWr)
      → w.owed ≡ before ++ (wr ∷ after)
      → IsLogged src dst wire cq (finish_inline wr (before ++ after) w)
  unfolding inline_complete send_wc
  finish_inline-IsLogged before after wr e = record {
    source = g.source;
    target = g.target;
    sent = g.sent;
    posted_to = completes (send_wc wr.wr_id success wr.length w.side);
    each = g.each;
    ids = λ t. omega (
      arith,
      g.ids t,
      ap (tally (by_caller t)) e,
      tally-append (by_caller t) before (wr ∷ after),
      tally-append (by_caller t) before after,
      tally-append (by_completion t) w.completed (send_wc wr.wr_id success wr.length w.side ∷ []),
    );
  }

  at_ids :
      (st : Stage)
      → w.stage ≡ st
      → (t : ℕ → Bool)
      → tally (by_request t) w.left
        ≡ tally (by_completion t) w.completed
          + tally (by_caller t) w.owed
          + tally (by_completion t) (owed_by st)
  at_ids st e t =
      subst
        (λ x.
          tally (by_request t) w.left
          ≡ tally (by_completion t) w.completed
            + tally (by_caller t) w.owed
            + tally (by_completion t) (owed_by x))
        e (g.ids t)

  begin_round-IsLogged : w.stage ≡ idle → IsLogged src dst wire cq (begin_round w)
  begin_round-IsLogged e = elim (Bool-cases (ltb 0 w.side.queue.sq_count)) [
    | inl some_wait ↦
        subst (λ r. IsLogged src dst wire cq (at_stage r w)) (sym (peek_some w.side some_wait))
          (record {
            source = g.source;
            target = g.target;
            sent = g.sent;
            posted_to = g.posted_to;
            each = g.each;
            ids = at_ids idle e;
          })
    | inr none_wait ↦
        subst (λ r. IsLogged src dst wire cq (at_stage r w)) (sym (peek_none w.side none_wait))
          (record {
            source = g.source;
            target = g.target;
            sent = g.sent;
            posted_to = g.posted_to;
            each = g.each;
            ids = at_ids idle e;
          })
  ]

  attempt-IsLogged :
      (mem : ℕ → ℕ) (mrs : List Mr) (ret : Status) (p : Peeked)
      → w.stage ≡ trying p
      → IsLogged src dst wire cq (attempt mem mrs ret p w)
  unfolding retain
  attempt-IsLogged mem mrs ret p e =
      let load = load_of ret p (payload_of mem mrs w.side.queue p) in
      let (_, some_wait, same) = subst (λ st. StageOk st w.side.queue) e i.stage_ok in
      let front = take-waiting w.side.queue some_wait in
      elim (try_send_effect mem mrs ret p w.side) [
        | inl r ↦
            subst (λ r. IsLogged src dst wire cq (tried r load w)) (sym r)
              (record {
                source = g.source;
                target = g.target;
                sent = g.sent ∙ ap (λ l. wire ++ carried src dst l) (sym (append-nil w.loads));
                posted_to = g.posted_to;
                each =
                    omega (
                      arith,
                      g.each,
                      ap length (append-nil w.loads),
                      ap length (append-nil w.left),
                    );
                ids = λ t. ap (tally (by_request t)) (append-nil w.left) ∙ at_ids (trying p) e t;
              })
        | inr (wc, s', r, tr) ↦
            let id : wc.wr_id ≡ (head_entry w.side.queue).wr_id =
              tr.id ∙ ap (λ (x : Peeked). x.wr_id) same in
            subst (λ r. IsLogged src dst wire cq (tried r load w)) (sym r)
              (record {
                source = tr.source ∙ g.source;
                target = tr.target ∙ g.target;
                sent = sent_more (load ∷ []) _ tr.sent;
                posted_to = tr.cq ∙ g.posted_to;
                each = omega (
                  arith,
                  g.each,
                  length-append w.loads (load ∷ []),
                  length-append w.left (take 1 (waiting w.side.queue)),
                  ap length front,
                );
                ids = λ t.
                    let one : (if t wc.wr_id then 1 else 0)
                        ≡ (if t (head_entry w.side.queue).wr_id then 1 else 0) =
                      ap {B = ℕ} (λ n. if t n then 1 else 0) id in
                    omega (
                      arith,
                      at_ids (trying p) e t,
                      one,
                      tally-append (by_request t) w.left (take 1 (waiting w.side.queue)),
                      ap (tally (by_request t)) front,
                    );
              })
      ]

  free_slot-IsLogged : (wc : Wc) → w.stage ≡ done wc → IsLogged src dst wire cq (free_slot wc w)
  unfolding pop
  free_slot-IsLogged wc e = record {
    source = g.source;
    target = g.target;
    sent = g.sent;
    posted_to = g.posted_to;
    each = g.each;
    ids = at_ids (done wc) e;
  }

  end_round-IsLogged : (wc : Wc) → w.stage ≡ popped wc → IsLogged src dst wire cq (end_round wc w)
  unfolding complete
  end_round-IsLogged wc e = record {
    source = g.source;
    target = g.target;
    sent = g.sent;
    posted_to = completes wc;
    each = g.each;
    ids = λ t.
        omega (arith, at_ids (popped wc) e t, tally-append (by_completion t) w.completed (wc ∷ []));
  }

Step-IsLogged :
    {src dst : ℕ} {wire : List Sent} {cq : Option Cq} {w w' : World}
    → Step w w'
    → IsOrdered w
    → IsLogged src dst wire cq w
    → IsLogged src dst wire cq w'
Step-IsLogged (queue_up_step env wrs w) i g = queue_up-IsLogged w i g env wrs
Step-IsLogged (send_inline_step env on wr w h) i g = send_inline-IsLogged w i g env wr
Step-IsLogged (finish_inline_step before after wr w h) i g =
    finish_inline-IsLogged w i g before after wr h
Step-IsLogged (begin_step w h) i g = begin_round-IsLogged w i g h
Step-IsLogged (attempt_step mem mrs ret p w h) i g = attempt-IsLogged w i g mem mrs ret p h
Step-IsLogged (free_step wc w h) i g = free_slot-IsLogged w i g wc h
Step-IsLogged (end_step wc w h) i g = end_round-IsLogged w i g wc h

-- In every interleaving of the callers that post sends, queued or inline, with the worker's stretches
-- between its locks: the requests that were taken are those that were tried, in that order, followed
-- by those that wait in the send queue; the wire has gained, in the order tried, exactly the payloads
-- of those that the driver took; the completion queue is what posting the completions that were made,
-- in order, makes of it; and the request ids that were tried are, up to order, those of the
-- completions that were made and that the callers and the worker still owe. This is so if it was so
-- at the start.
pub Steps-IsLogged :
    {src dst : ℕ} {wire : List Sent} {cq : Option Cq} {w w' : World}
    → Steps w w'
    → IsOrdered w
    → IsLogged src dst wire cq w
    → IsOrdered w' × IsLogged src dst wire cq w'
Steps-IsLogged (stay w) i g = (i, g)
Steps-IsLogged (step w w' w'' s r) i g = Steps-IsLogged r (Step-IsOrdered s i) (Step-IsLogged s i g)
