-- ===== src/Verbs/Worker/Order.antt =====
-- The sends of a queue pair leave in the order in which the application posted them, whatever the
-- order of the steps of the callers and the worker.
use odin_link_five.Prelude.{
  ℕ, ◌+◌, ◌<◌, ◌≡◌, refl, sym, ap, ◌∙◌, subst, Bool, true, false, List, [], ◌∷◌, ◌++◌, length, ltb,
  ==_iff, take, drop, map, arith, append_assoc, append-nil, length-append, take-append-drop,
  Bool-cases, inl, inr, length-take, ltb→lt,
}
use mathlib.Core.List.{map-append}
use odin_link_five.Errno.{Status}
use odin_link_five.Verbs.Mr.{Mr}
use odin_link_five.Verbs.Cq.{Wc, success}
use odin_link_five.Verbs.Sq.{SendWr, PostEnv, post_loop}
use odin_link_five.Verbs.Sq.Fill.{view, request}
use odin_link_five.Verbs.Sq.Post.{entries, waiting, IsValid, post_loop_lem}
use odin_link_five.Verbs.Sq.Head.{
  without_head, with_flag-IsValid, without_head-IsValid, entries-head,
}
use odin_link_five.Verbs.Worker.{
  inline_ready, inline_send, inline_complete, send_wc, post_queued, Peeked, Stage, idle, trying,
  done, popped, retain, transmit, payload_of, pop, complete,
}
use odin_link_five.Verbs.Worker.World.{
  World, queue_up, send_inline, finish_inline, at_stage, begin_round, load_of, tried, attempt,
  free_slot, end_round, Step, queue_up_step, send_inline_step, finish_inline_step, begin_step,
  attempt_step, free_step, end_step, Steps, stay, step, unsent, held, StageOk, IsOrdered,
}
use odin_link_five.Verbs.Worker.Stages.{
  length-waiting, accepted_lem, unsent-append, nothing_waits, StageOk-grown, peek_some, peek_none,
  try_send_cases,
}

module _ (w : World) (i : IsOrdered w) where
  queue_up-IsOrdered : (env : PostEnv) (wrs : List SendWr) → IsOrdered (queue_up env wrs w)
  unfolding post_queued
  queue_up-IsOrdered env wrs =
      let p = post_loop_lem env wrs i.valid in
      let q' = (post_loop env wrs w.side.queue).2 in
      let all : waiting q' ≡ waiting w.side.queue ++ map (request env) p.accepted =
        ap (map view) p.grown
        ∙ map-append view (entries w.side.queue) p.added
        ∙ ap (λ l. waiting w.side.queue ++ l) p.same in
      record {
        valid = p.valid;
        order =
            ap (λ l. w.posted ++ map (request env) l)
              (accepted_lem wrs p.accepted (post_loop env wrs w.side.queue).1 p.split)
            ∙ ap (λ l. l ++ map (request env) p.accepted) i.order
            ∙ append_assoc w.left (unsent w.stage (waiting w.side.queue))
                (map (request env) p.accepted)
            ∙ ap (λ l. w.left ++ l)
                (sym (unsent-append w.stage w.side.queue (map (request env) p.accepted) i.stage_ok)
                  ∙ ap (unsent w.stage) (sym all));
        counted = i.counted;
        stage_ok =
            StageOk-grown w.stage w.side.queue q' p.added p.grown p.head p.inflight i.stage_ok;
      }

  -- The inline path is taken with no request waiting and none being sent.
  inline_clear :
      (env : PostEnv) (on : Bool) (wr : SendWr)
      → inline_ready env on (wr ∷ []) w.side.queue ≡ true
      → (w.side.queue.sq_count ≡ 0) × (w.side.queue.tx_inflight ≡ false)
  unfolding inline_ready
  inline_clear env on wr h = ground (arith, ==_iff w.side.queue.sq_count 0)

  unsent_clear :
      (st : Stage)
      → w.side.queue.sq_count ≡ 0
      → StageOk st w.side.queue
      → unsent st (waiting w.side.queue) ≡ []
  unsent_clear idle e ok_at = nothing_waits w.side.queue e
  unsent_clear (trying p) e (_, h, _) = absurd (omega arith)
  unsent_clear (done wc) e (_, h) = absurd (omega arith)
  unsent_clear (popped wc) e ok_at = nothing_waits w.side.queue e

  send_inline-IsOrdered :
      (env : PostEnv) (on : Bool) (wr : SendWr)
      → inline_ready env on (wr ∷ []) w.side.queue ≡ true
      → IsOrdered (send_inline env wr w)
  unfolding inline_send transmit
  send_inline-IsOrdered env on wr h =
      let (none_wait, _) = inline_clear env on wr h in
      let e = unsent_clear w.stage none_wait i.stage_ok in
      record {
        valid = i.valid;
        order =
            ap (λ l. l ++ (request env wr ∷ []))
              (i.order ∙ ap (λ l. w.left ++ l) e ∙ append-nil w.left)
            ∙ sym (append-nil (w.left ++ (request env wr ∷ [])))
            ∙ ap (λ l. (w.left ++ (request env wr ∷ [])) ++ l) (sym e);
        counted = omega (arith, i.counted, length-append w.left (request env wr ∷ []));
        stage_ok = i.stage_ok;
      }

  finish_inline-IsOrdered :
      (before after : List SendWr) (wr : SendWr)
      → w.owed ≡ before ++ (wr ∷ after)
      → IsOrdered (finish_inline wr (before ++ after) w)
  unfolding inline_complete
  finish_inline-IsOrdered before after wr e = record {
    valid = i.valid;
    order = i.order;
    counted = omega (
      arith,
      i.counted,
      ap length e,
      length-append before (wr ∷ after),
      length-append before after,
      length-append w.completed (send_wc wr.wr_id success wr.length w.side ∷ []),
    );
    stage_ok = i.stage_ok;
  }

  begin_round-IsOrdered : w.stage ≡ idle → IsOrdered (begin_round w)
  begin_round-IsOrdered e = elim (Bool-cases (ltb 0 w.side.queue.sq_count)) [
    | inl some_wait ↦
        subst (λ r. IsOrdered (at_stage r w)) (sym (peek_some w.side some_wait))
          (record {
            valid = with_flag-IsValid i.valid true;
            order = i.order ∙ ap (λ st. w.left ++ unsent st (waiting w.side.queue)) e;
            counted = i.counted ∙ ap (λ st. length w.completed + length w.owed + held st) e;
            stage_ok = (refl, ltb→lt 0 w.side.queue.sq_count some_wait, refl);
          })
    | inr none_wait ↦
        subst (λ r. IsOrdered (at_stage r w)) (sym (peek_none w.side none_wait))
          (record {
            valid = i.valid;
            order = i.order ∙ ap (λ st. w.left ++ unsent st (waiting w.side.queue)) e;
            counted = i.counted ∙ ap (λ st. length w.completed + length w.owed + held st) e;
            stage_ok = subst (λ st. StageOk st w.side.queue) e i.stage_ok;
          })
  ]

  module _ (p : Peeked) (e : w.stage ≡ trying p) where
    order_trying : w.posted ≡ w.left ++ waiting w.side.queue
    order_trying = i.order ∙ ap (λ st. w.left ++ unsent st (waiting w.side.queue)) e

    counted_trying : length w.left ≡ length w.completed + length w.owed + 0
    counted_trying = i.counted ∙ ap (λ st. length w.completed + length w.owed + held st) e

    trying_ok : StageOk (trying p) w.side.queue
    trying_ok = subst (λ st. StageOk st w.side.queue) e i.stage_ok

    attempt-IsOrdered :
        (mem : ℕ → ℕ) (mrs : List Mr) (ret : Status) → IsOrdered (attempt mem mrs ret p w)
    unfolding retain
    attempt-IsOrdered mem mrs ret =
        let load = load_of ret p (payload_of mem mrs w.side.queue p) in
        elim (try_send_cases mem mrs ret p w.side) [
          | inl r ↦
              subst (λ r. IsOrdered (tried r load w)) (sym r)
                (record {
                  valid = with_flag-IsValid i.valid false;
                  order =
                      order_trying ∙ ap (λ l. l ++ waiting w.side.queue) (sym (append-nil w.left));
                  counted = ap length (append-nil w.left) ∙ counted_trying;
                  stage_ok = refl;
                })
          | inr (wc, s', r, same) ↦
              let (f, some_wait, _) = trying_ok in
              subst (λ r. IsOrdered (tried r load w)) (sym r)
                (record {
                  valid = subst IsValid (sym same) i.valid;
                  order =
                      order_trying
                      ∙ ap (λ l. w.left ++ l) (sym (take-append-drop 1 (waiting w.side.queue)))
                      ∙ sym (
                          append_assoc w.left (take 1 (waiting w.side.queue))
                            (drop 1 (waiting w.side.queue)))
                      ∙ ap (λ q. (w.left ++ take 1 (waiting w.side.queue)) ++ drop 1 (waiting q))
                          (sym same);
                  counted = omega (
                    arith,
                    counted_trying,
                    length-append w.left (take 1 (waiting w.side.queue)),
                    length-take 1 (waiting w.side.queue),
                    length-waiting w.side.queue,
                  );
                  stage_ok = subst (StageOk (done wc)) (sym same) (f, some_wait);
                })
        ]

  order_free :
      (wc : Wc)
      → w.stage ≡ done wc
      → 0 < w.side.queue.sq_count
      → w.posted ≡ w.left ++ waiting (without_head false w.side.queue)
  order_free wc e some_wait =
      i.order
      ∙ ap (λ st. w.left ++ unsent st (waiting w.side.queue)) e
      ∙ ap (λ l. w.left ++ drop 1 (map view l)) (entries-head false w.side.queue some_wait)

  free_slot-IsOrdered : (wc : Wc) → w.stage ≡ done wc → IsOrdered (free_slot wc w)
  unfolding pop
  free_slot-IsOrdered wc e =
      let (_, some_wait) = subst (λ st. StageOk st w.side.queue) e i.stage_ok in
      record {
        valid = without_head-IsValid i.valid false some_wait;
        order = order_free wc e some_wait;
        counted = i.counted ∙ ap (λ st. length w.completed + length w.owed + held st) e;
        stage_ok = refl;
      }

  end_round-IsOrdered : (wc : Wc) → w.stage ≡ popped wc → IsOrdered (end_round wc w)
  unfolding complete
  end_round-IsOrdered wc e = record {
    valid = record {
      head_in = i.valid.head_in;
      tail_is = i.valid.tail_is;
      bounded = i.valid.bounded;
      storage = i.valid.storage;
      sized = i.valid.sized;
    };
    order = i.order ∙ ap (λ st. w.left ++ unsent st (waiting w.side.queue)) e;
    counted = omega (arith, i.counted, ap held e, length-append w.completed (wc ∷ []));
    stage_ok = subst (λ st. StageOk st w.side.queue) e i.stage_ok;
  }

pub Step-IsOrdered : {w w' : World} → Step w w' → IsOrdered w → IsOrdered w'
Step-IsOrdered (queue_up_step env wrs w) i = queue_up-IsOrdered w i env wrs
Step-IsOrdered (send_inline_step env on wr w h) i = send_inline-IsOrdered w i env on wr h
Step-IsOrdered (finish_inline_step before after wr w h) i =
    finish_inline-IsOrdered w i before after wr h
Step-IsOrdered (begin_step w h) i = begin_round-IsOrdered w i h
Step-IsOrdered (attempt_step mem mrs ret p w h) i = attempt-IsOrdered w i p h mem mrs ret
Step-IsOrdered (free_step wc w h) i = free_slot-IsOrdered w i wc h
Step-IsOrdered (end_step wc w h) i = end_round-IsOrdered w i wc h

pub Steps-IsOrdered : {w w' : World} → Steps w w' → IsOrdered w → IsOrdered w'
Steps-IsOrdered (stay w) i = i
Steps-IsOrdered (step w w' w'' s r) i = Steps-IsOrdered r (Step-IsOrdered s i)
