-- ===== src/Verbs/Worker.antt =====
-- The sending side of a queue pair, verbs/src/odl_tb5_verbs_qp.c: `odl_post_send` with its inline
-- path, and a round of `odl_qp_worker` as the steps between which the lock is free. What
-- `odl_tb5_stream_send` answers is an argument; it takes the bytes when it answers 0. The waits for
-- the descriptor to be ready are left out, since each ends in a try.
pub mod World
pub mod Stages
pub mod Order
pub mod Tries
pub mod Logs
pub mod Snapshot
pub mod Overtake
use odin_link_five.Prelude.{
  ℕ, zero, suc, ◌+◌, ◌-◌, ◌%◌, Bool, true, false, ◌&&◌, not, List, [], ◌∷◌, ◌++◌, Option, none,
  some, if◌then◌else◌, ltb, leb, ◌==◌, dec, get_or, take,
}
use odin_link_five.Errno.{Errno, Status, ok, fail, eagain}
use odin_link_five.Verbs.Mr.{Mr, lookup_dmabuf}
use odin_link_five.Verbs.Cq.{Wc, WcStatus, success, general_err, wc_send, zero_wc, Cq, cq_post}
use odin_link_five.Verbs.Sq.{
  SendWr, Address, in_bounce, in_app, SendEntry, zero_entry, SendQueue, PostEnv, read, post_loop,
}

-- What goes out on a stream: bytes, or so many bytes of a dma-buf from its offset 0 on.
pub data Payload : Type 0 where
  host : List ℕ → Payload
  from_dmabuf : ℕ → ℕ → Payload

pub record Sent : Type 0 where
  pub src : ℕ
  pub dst : ℕ
  pub payload : Payload

-- The parts of `struct odl_verbs_qp` that sending uses, and what went out.
pub record SendSide : Type 0 where
  pub queue : SendQueue
  pub send_cq : Option Cq
  pub tx_stream_id : ℕ
  pub dest_qp : ℕ
  pub qp_num : ℕ
  pub wire : List Sent

-- `if (qp->send_cq) odl_cq_post(qp->send_cq, &wc);`
abbrev pub post_wc : Wc → Option Cq → Option Cq
post_wc wc none = none
post_wc wc (some c) = some (cq_post wc c).1

unfoldable pub send_wc : ℕ → WcStatus → ℕ → SendSide → Wc
send_wc id st n s = record zero_wc {
  wr_id = id;
  status = st;
  byte_len = n;
  opcode = wc_send;
  qp_num = s.qp_num;
}

unfoldable pub transmit : Payload → SendSide → SendSide
transmit p s = record s {
  wire = s.wire ++ (record { src = s.tx_stream_id; dst = s.dest_qp; payload = p } ∷ []);
}

abbrev pub inline_max : ℕ
inline_max = 4096

abbrev pub is_host : ℕ → List Mr → Bool
is_host lkey mrs = elim (lookup_dmabuf lkey mrs) [ some _ ↦ false | none ↦ true ]

-- The test of the inline path; `on` is `odl_inline_enabled()`.
unfoldable pub inline_ready : PostEnv → Bool → List SendWr → SendQueue → Bool
inline_ready env on [] q = false
inline_ready env on (wr ∷ []) q =
    on
    && wr.num_sge == 1
    && q.sq_count == 0
    && not q.tx_inflight
    && leb wr.length inline_max
    && is_host wr.lkey env.mrs
inline_ready env on (_ ∷ _ ∷ _) q = false

-- The sending from the caller's thread, and the completion after the lock is free again.
unfoldable pub inline_send : PostEnv → SendWr → SendSide → SendSide
unfolding transmit
inline_send env wr s = transmit (host (read env.mem wr.addr wr.length)) s

unfoldable pub inline_complete : SendWr → SendSide → SendSide
unfolding send_wc
inline_complete wr s = record s {
  send_cq = post_wc (send_wc wr.wr_id success wr.length s) s.send_cq;
}

unfoldable pub post_queued : PostEnv → List SendWr → SendSide → Status × List SendWr × SendSide
post_queued env wrs s =
    let (st, bad, q) = post_loop env wrs s.queue in (st, bad, record s { queue = q })

-- `ret` is the answer of `odl_tb5_stream_send` on the inline path.
unfoldable pub post_send :
    PostEnv → Bool → Status → List SendWr → SendSide → Status × List SendWr × SendSide
unfolding inline_ready inline_send inline_complete post_queued
post_send env on (fail _) wrs s = post_queued env wrs s
post_send env on ok [] s = post_queued env [] s
post_send env on ok (wr ∷ wrs) s =
    if inline_ready env on (wr ∷ wrs) s.queue
    then (ok, [], inline_complete wr (inline_send env wr s))
    else post_queued env (wr ∷ wrs) s

-- The worker's copy of the request at the head, and the slot that it is in.
pub record Peeked : Type 0 where
  pub slot : ℕ
  pub wr_id : ℕ
  pub addr : Address
  pub len : ℕ
  pub lkey : ℕ
  pub num_sge : ℕ

-- Where a round of the worker is: at its start, with a request to send, with one that was sent, and
-- with one whose slot is free and whose completion is still to be posted.
pub data Stage : Type 0 where
  idle : Stage
  trying : Peeked → Stage
  done : Wc → Stage
  popped : Wc → Stage

abbrev pub peeked : SendQueue → Peeked
peeked q =
    let e = get_or q.sq q.sq_head zero_entry in
    record {
      slot = q.sq_head;
      wr_id = e.wr_id;
      addr = e.addr;
      len = e.len;
      lkey = e.lkey;
      num_sge = e.num_sge;
    }

unfoldable pub peek : SendSide → Stage × SendSide
peek s =
    if ltb 0 s.queue.sq_count
    then (trying (peeked s.queue), record s { queue = record s.queue { tx_inflight = true } })
    else (idle, s)

-- The bytes at an address, when they are sent.
abbrev pub bytes_at : (ℕ → ℕ) → SendQueue → Peeked → List ℕ
bytes_at mem q w = elim w.addr [
  | in_bounce ↦ take w.len (get_or q.sq w.slot zero_entry).bounce_storage
  | in_app a ↦ read mem a w.len
]

abbrev pub payload_of : (ℕ → ℕ) → List Mr → SendQueue → Peeked → Payload
payload_of mem mrs q w = elim (lookup_dmabuf w.lkey mrs) [
  | some fd ↦ from_dmabuf fd w.len
  | none ↦ host (bytes_at mem q w)
]

-- "The request never left the head slot": on `-EAGAIN` the round is over.
unfoldable pub retain : SendSide → Stage × SendSide
retain s = (idle, record s { queue = record s.queue { tx_inflight = false } })

abbrev pub is_eagain : Errno → Bool
is_eagain eagain = true
is_eagain _ = false

abbrev pub after_send : Status → Peeked → Payload → SendSide → Stage × SendSide
after_send ok w p s = (done (send_wc w.wr_id success w.len s), transmit p s)
after_send (fail e) w p s =
    if is_eagain e then retain s else (done (send_wc w.wr_id general_err 0 s), s)

-- "Execute the send", or nothing to send.
unfoldable pub try_send : (ℕ → ℕ) → List Mr → Status → Peeked → SendSide → Stage × SendSide
unfolding send_wc transmit retain
try_send mem mrs ret w s =
    if ltb 0 w.num_sge
    then after_send ret w (payload_of mem mrs s.queue w) s
    else (done (send_wc w.wr_id success 0 s), s)

unfoldable pub pop : SendSide → SendSide
pop s = record s {
  queue = record s.queue {
    sq_head = (s.queue.sq_head + 1) % s.queue.sq_depth;
    sq_count = s.queue.sq_count - 1;
    tx_inflight = false;
  };
}

unfoldable pub complete : Wc → SendSide → SendSide
complete wc s = record s {
  send_cq = post_wc wc s.send_cq;
  queue = record s.queue { pending_sends = dec s.queue.pending_sends };
}
