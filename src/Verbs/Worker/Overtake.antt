-- ===== src/Verbs/Worker/Overtake.antt =====
-- The completions of a queue pair of verbs/src/odl_tb5_verbs_qp.c: the worker frees the slot and lifts
-- `tx_inflight` before it posts the completion, so a send on the inline path can complete first.
use odin_link_five.Prelude.{
  ◌+◌, ◌-◌, ◌≤◌, ◌<◌, ◌≡◌, ==_iff, refl, ap, ◌∙◌, true, List, [], ◌∷◌, ◌++◌, Option, none, some,
  length, append_assoc, arith, length-append,
}
use odin_link_five.Verbs.Cq.{Wc, success, Cq, cq_post}
use odin_link_five.Verbs.Cq.Fifo.{IsValid, cq_post-room, cq_post-IsValid, waiting}
use odin_link_five.Verbs.Sq.{SendWr, PostEnv}
use odin_link_five.Verbs.Sq.Fill.{request}
use odin_link_five.Verbs.Worker.World.{
  World, free_slot, send_inline, finish_inline, end_round, free_step, send_inline_step,
  finish_inline_step, end_step, Steps, stay, step,
}
use odin_link_five.Verbs.Worker.{
  done, is_host, inline_max, SendSide, inline_ready, inline_send, inline_complete, send_wc, pop,
  complete, transmit,
}

-- Two completions that are posted with room for both wait in the order of the calls.
two_posts :
    (a b : Wc) {c : Cq}
    → IsValid c
    → length (waiting c) + 2 < c.ring_cap
    → waiting (cq_post b (cq_post a c).1).1 ≡ waiting c ++ (a ∷ b ∷ [])
two_posts a b {c} v room =
    let (one, cap) = cq_post-room a v (omega arith) in
    let n = ap length one ∙ length-append (waiting c) (a ∷ []) in
    (cq_post-room b (cq_post-IsValid v a) (omega arith)).0
    ∙ ap (λ l. l ++ (b ∷ [])) one
    ∙ append_assoc (waiting c) (a ∷ []) (b ∷ [])

-- The queue of a side's completions, if it has one.
abbrev pub completions : SendSide → Option (List Wc)
completions s = elim s.send_cq [ none ↦ none | some c ↦ some (waiting c) ]

completed :
    (env : PostEnv) (wr : SendWr) (earlier : Wc) (s : SendSide) (c : Cq)
    → s.send_cq ≡ some c
    → IsValid c
    → length (waiting c) + 2 < c.ring_cap
    → completions (complete earlier (inline_complete wr (inline_send env wr (pop s))))
      ≡ some (waiting c ++ (send_wc wr.wr_id success wr.length s ∷ earlier ∷ []))
unfolding complete inline_complete inline_send pop transmit send_wc
completed env wr earlier s c has v room =
    rw has (ap some (two_posts (send_wc wr.wr_id success wr.length s) earlier v room))

-- With the slot of the last request free, the inline path is open.
ready_after_pop :
    (env : PostEnv) (wr : SendWr) (s : SendSide)
    → s.queue.sq_count ≡ 1
    → wr.num_sge ≡ 1
    → wr.length ≤ inline_max
    → is_host wr.lkey env.mrs ≡ true
    → inline_ready env true (wr ∷ []) (pop s).queue ≡ true
unfolding inline_ready pop
ready_after_pop env wr s one sge small h =
    ground (arith, h, ==_iff wr.num_sge 1, ==_iff (s.queue.sq_count - 1) 0)

module _ (env : PostEnv) (wr : SendWr) (earlier : Wc) (w : World) (c : Cq) where
  after_free : World
  after_free = free_slot earlier w

  after_send : World
  unfolding after_free
  after_send = send_inline env wr after_free

  after_inline : World
  unfolding after_send
  after_inline = finish_inline wr w.owed after_send

  after_round : World
  unfolding after_inline
  after_round = end_round earlier after_inline

  overtaking :
      w.stage ≡ done earlier
      → inline_ready env true (wr ∷ []) (pop w.side).queue ≡ true
      → Steps w after_round
  unfolding after_round after_inline after_send after_free
  overtaking sent ready = step w after_free after_round (free_step earlier w sent) (
      step after_free after_send after_round (send_inline_step env true wr after_free ready) (
        step after_send after_inline after_round (finish_inline_step [] w.owed wr after_send refl) (
          step after_inline after_round after_round (end_step earlier after_inline refl)
            (stay after_round))))

  -- When the worker has sent the only queued request and has yet to lift its barrier, a run of worker
  -- and caller exists in which a small send of host memory is posted inline and its completion stands
  -- in the completion queue before that of the earlier request. The completion queue is valid and has
  -- room for two.
  pub post_send-overtakes :
      w.stage ≡ done earlier
      → w.side.queue.sq_count ≡ 1
      → wr.num_sge ≡ 1
      → wr.length ≤ inline_max
      → is_host wr.lkey env.mrs ≡ true
      → w.side.send_cq ≡ some c
      → IsValid c
      → length (waiting c) + 2 < c.ring_cap
      → (w' : World) × Steps w w'
        × (w'.left ≡ w.left ++ (request env wr ∷ []))
        × (completions w'.side
            ≡ some (waiting c ++ (send_wc wr.wr_id success wr.length w.side ∷ earlier ∷ [])))
  unfolding after_round after_inline after_send after_free
  post_send-overtakes sent one sge small h has v room = (
    after_round,
    overtaking sent (ready_after_pop env wr w.side one sge small h),
    refl,
    completed env wr earlier w.side c has v room,
  )
