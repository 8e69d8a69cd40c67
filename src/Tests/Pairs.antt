-- ===== src/Tests/Pairs.antt =====
-- The theorems on the verbs provider's receive queues, queue pairs and regions, applied to small ones.
use odin_link_five.Prelude.{
  ℕ, ◌+◌, ◌<◌, ◌≡◌, ◌≢◌, refl, Bool, true, false, [], ◌∷◌, none, some, replicate, pos, ◌^◌, arith,
  length-replicate,
}
use odin_link_five.Errno.{eagain, eintr}
use odin_link_five.Verbs.Rq.{RecvSide, zero_recv, got, failed, drain_loop}
use odin_link_five.Verbs.Rq.Post.{IsValid}
use odin_link_five.Verbs.Rq.Drain.{IsDrained, drain_loop_lem}
use odin_link_five.Verbs.Handles.{tally}
use odin_link_five.Verbs.Mr.{Mr, reg_dmabuf_mr, dmabuf_mr, has_key}
use odin_link_five.Verbs.Qp.{Context, CreateAnswers, null, made, create_qp, destroy_qp, new_qp}
use odin_link_five.Verbs.Qp.Create.{destroy-create, create_qp-no_thread}

abbrev one_buffer : RecvSide
one_buffer = record {
  rq = record { wr_id = 5; addr = 64; len = 8 } ∷ replicate 255 zero_recv;
  rq_head = 0;
  rq_tail = 1;
  rq_count = 1;
  pending_recvs = pos 1;
  recv_cq = none;
  qp_num = 3;
}

one_buffer-IsValid : IsValid one_buffer
one_buffer-IsValid = record {
  head_in = omega arith;
  tail_is = omega arith;
  bounded = omega arith;
  storage = omega (arith, length-replicate 255 zero_recv);
}

drain_loop_lem_example :
    IsDrained
      (failed eintr ∷ got 2 8 ∷ [])
      one_buffer
      (drain_loop (failed eintr ∷ got 2 8 ∷ []) one_buffer)
drain_loop_lem_example = drain_loop_lem (failed eintr ∷ got 2 8 ∷ []) one_buffer-IsValid

abbrev answers : Bool → CreateAnswers
answers started = record {
  qp_at = some 40;
  sq_allocated = true;
  rx_stream = some 1;
  tx_stream = some 2;
  worker_started = started;
  rx_worker_started = true;
}

abbrev context : Context
context = record { qps = 30 ∷ []; streams = 9 ∷ []; allocated = 30 ∷ [] }

two_ne_one : ◌≢◌ {A = ℕ} 2 1
two_ne_one = omega arith

destroy-create_example :
    let ctx = destroy_qp (new_qp 40 1 2 100) (create_qp (answers true) true 100 context).1 in
    ((create_qp (answers true) true 100 context).0 ≡ made (new_qp 40 1 2 100))
    × (ctx.streams ≡ 9 ∷ [])
    × (ctx.allocated ≡ 30 ∷ [])
    × ((p : ℕ → Bool) → tally p ctx.qps ≡ tally p (30 ∷ []))
destroy-create_example =
    destroy-create (answers true) 40 1 2 100 context (refl, refl, refl, refl) two_ne_one
      (omega arith) (omega arith) (omega arith) refl

create_qp-no_thread_example :
    create_qp (answers false) true 100 context
    ≡ (null eagain, record context { qps = 30 ∷ 40 ∷ [] })
create_qp-no_thread_example =
    create_qp-no_thread (answers false) 40 1 2 100 context (refl, refl, refl, refl) two_ne_one
      (omega arith) refl

-- A region whose address ends in the same 32 bits as an older one's.
abbrev older : Mr
older = dmabuf_mr 4096 11 0 100 0 0

abbrev newer : Mr
newer = dmabuf_mr (4096 + 2 ^ 32) 12 0 100 0 0

registered :
    reg_dmabuf_mr (some (4096 + 2 ^ 32)) (some 12) 0 100 0 0 (older ∷ [])
    ≡ some (older ∷ newer ∷ [])
unfolding reg_dmabuf_mr
registered = refl

key_taken : 0 < tally (has_key 4096) (older ∷ [])
unfolding dmabuf_mr
key_taken = omega arith
