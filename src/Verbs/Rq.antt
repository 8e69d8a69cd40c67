-- ===== src/Verbs/Rq.antt =====
-- The receive queue of a queue pair of verbs/src/odl_tb5_verbs_qp.c: `odl_post_recv` and
-- `odl_rq_drain`. The answers of `odl_tb5_stream_recv` are an argument, one after another; after the
-- last one the stream has nothing more.
pub mod Post
pub mod Drain
use odin_link_five.Prelude.{
  ℕ, suc, ◌+◌, ◌-◌, ◌%◌, Bool, true, false, List, [], ◌∷◌, ◌++◌, Option, none, some, if◌then◌else◌,
  ltb, leb, ◌==◌, ℤ, inc, dec, length, get_or, set,
}
use odin_link_five.Errno.{Errno, Status, ok, fail, enomem}
use odin_link_five.Verbs.Cq.{Wc, WcStatus, success, general_err, wc_recv, zero_wc, Cq, cq_post}
use odin_link_five.Verbs.Worker.{post_wc}

abbrev pub rq_depth : ℕ
rq_depth = 256

-- `struct ibv_recv_wr` with its first scatter entry, which has a meaning when `num_sge > 0`.
pub record RecvWr : Type 0 where
  pub wr_id : ℕ
  pub num_sge : ℕ
  pub addr : ℕ
  pub length : ℕ

-- One index of the arrays `rq_wr_id`, `rq_addr` and `rq_len`.
pub record RecvEntry : Type 0 where
  pub wr_id : ℕ
  pub addr : ℕ
  pub len : ℕ

abbrev pub zero_recv : RecvEntry
zero_recv = record { wr_id = 0; addr = 0; len = 0 }

pub record RecvSide : Type 0 where
  pub rq : List RecvEntry
  pub rq_head : ℕ
  pub rq_tail : ℕ
  pub rq_count : ℕ
  pub pending_recvs : ℤ
  pub recv_cq : Option Cq
  pub qp_num : ℕ

abbrev pub recv_entry : RecvWr → RecvEntry
recv_entry wr = record { wr_id = wr.wr_id; addr = wr.addr; len = wr.length }

unfoldable pub push : RecvWr → RecvSide → RecvSide
push wr s = record s {
  rq = set s.rq s.rq_tail (recv_entry wr);
  rq_tail = (s.rq_tail + 1) % rq_depth;
  rq_count = s.rq_count + 1;
  pending_recvs = inc s.pending_recvs;
}

-- What it returns, `*bad_wr` with the requests linked after it, and the queue.
unfoldable pub post_recv : List RecvWr → RecvSide → Status × List RecvWr × RecvSide
unfolding push
post_recv [] s = (ok, [], s)
post_recv (wr ∷ wrs) s =
    let rest = post_recv wrs (if ltb 0 wr.num_sge then push wr s else s) in
    if leb rq_depth s.rq_count then (fail enomem, wr ∷ wrs, s) else rest

-- An answer of `odl_tb5_stream_recv`: nothing is pending, a message from a stream with its length, or
-- another error.
pub data Answer : Type 0 where
  again : Answer
  got : ℕ → ℕ → Answer
  failed : Errno → Answer

unfoldable pub consume : RecvSide → RecvSide
consume s = record s {
  rq_head = (s.rq_head + 1) % rq_depth;
  rq_count = s.rq_count - 1;
  pending_recvs = dec s.pending_recvs;
}

abbrev pub recv_wc : ℕ → ℕ → ℕ → WcStatus → ℕ → Wc
recv_wc id qp_num src st n = record {
  wr_id = id;
  status = st;
  byte_len = n;
  opcode = wc_recv;
  qp_num = qp_num;
  src_qp = src;
}

-- The completion for the buffer at the head, when the answer is one that consumes it.
abbrev pub wc_for : Answer → RecvSide → Option Wc
wc_for again s = none
wc_for (got src actual) s =
    some (recv_wc (get_or s.rq s.rq_head zero_recv).wr_id s.qp_num src success actual)
wc_for (failed e) s =
    some (recv_wc (get_or s.rq s.rq_head zero_recv).wr_id s.qp_num 0 general_err 0)

unfoldable pub deliver : Wc → RecvSide → RecvSide
unfolding consume
deliver wc s = record (consume s) { recv_cq = post_wc wc s.recv_cq }

-- The completions that the loop posts, in order, and the queue.
unfoldable pub drain_loop : List Answer → RecvSide → List Wc × RecvSide
unfolding deliver
drain_loop [] s = ([], s)
drain_loop (a ∷ answers) s = elim (wc_for a s) [
  | none ↦ ([], s)
  | some wc ↦
      let (wcs, s') = drain_loop answers (deliver wc s) in
      if s.rq_count == 0 then ([], s) else (wc ∷ wcs, s')
]

-- `locked` is the answer of `pthread_mutex_trylock`; the number of completions.
unfoldable pub rq_drain : Bool → List Answer → RecvSide → ℕ × RecvSide
unfolding drain_loop
rq_drain locked answers s =
    let (wcs, s') = drain_loop answers s in if locked then (length wcs, s') else (0, s)
