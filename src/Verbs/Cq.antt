-- ===== src/Verbs/Cq.antt =====
-- The completion queue of verbs/src/odl_tb5_verbs_cq.c, with its ring and its eventfd. The lock
-- makes each of the functions' locked parts one step, so `odl_poll_cq` is two: the ring under the
-- lock, the eventfd after it.
pub mod Fifo
pub mod Wakeup
pub mod Create
use odin_link_five.Prelude.{
  ℕ, zero, suc, ◌+◌, ◌%◌, Bool, true, false, ◌&&◌, List, [], ◌∷◌, if◌then◌else◌, ltb, ◌==◌, not,
  get_or, set,
}
use odin_link_five.Errno.{Status, ok, fail, enospc}

-- `enum ibv_wc_status` and `enum ibv_wc_opcode`, as far as the provider reports them.
pub data WcStatus : Type 0 where
  success general_err : WcStatus

pub data WcOpcode : Type 0 where
  wc_send wc_recv : WcOpcode

pub record Wc : Type 0 where
  pub wr_id : ℕ
  pub status : WcStatus
  pub byte_len : ℕ
  pub opcode : WcOpcode
  pub qp_num : ℕ
  pub src_qp : ℕ

-- `memset(&wc, 0, sizeof(wc))`, and what `calloc` leaves in the ring.
abbrev pub zero_wc : Wc
zero_wc = record {
  wr_id = 0;
  status = success;
  byte_len = 0;
  opcode = wc_send;
  qp_num = 0;
  src_qp = 0;
}

-- `event` is the counter of the eventfd.
pub record Cq : Type 0 where
  pub ring : List Wc
  pub ring_cap : ℕ
  pub head : ℕ
  pub tail : ℕ
  pub event : ℕ
  pub armed : Bool

unfoldable pub req_notify_cq : Cq → Cq
req_notify_cq c = record c { armed = true }

-- "Signal eventfd if armed".
unfoldable pub signal : Cq → Cq
signal c = if c.armed then record c { event = c.event + 1; armed = false } else c

unfoldable pub cq_post : Wc → Cq → Status × Cq
unfolding signal
cq_post wc c =
    let next = (c.tail + 1) % c.ring_cap in
    if next == c.head
    then (fail enospc, c)
    else (ok, signal (record c { ring = set c.ring c.tail wc; tail = next }))

-- The loop of `odl_poll_cq`, for `n` entries more: the entries, and the head after them.
unfoldable pub poll_loop : ℕ → List Wc → ℕ → ℕ → ℕ → List Wc × ℕ
poll_loop zero ring cap head tail = ([], head)
poll_loop (suc n) ring cap head tail =
    let (wcs, h) = poll_loop n ring cap ((head + 1) % cap) tail in
    if not (head == tail) then (get_or ring head zero_wc ∷ wcs, h) else ([], head)

-- The part under the lock: the entries, whether the ring is `drained`, and the queue.
unfoldable pub poll_ring : ℕ → Cq → List Wc × Bool × Cq
unfolding poll_loop
poll_ring num_entries c =
    let (wcs, h) = poll_loop num_entries c.ring c.ring_cap c.head c.tail in
    (wcs, h == c.tail, record c { head = h })

-- The part after it. A read of an eventfd takes the whole counter.
unfoldable pub poll_event : List Wc → Bool → Cq → Cq
poll_event [] drained c = c
poll_event (_ ∷ _) drained c = if drained then record c { event = 0 } else c

-- `odl_poll_cq` with nothing between its two parts.
unfoldable pub poll_cq : ℕ → Cq → List Wc × Cq
unfolding poll_ring poll_event
poll_cq num_entries c =
    let (wcs, drained, c') = poll_ring num_entries c in (wcs, poll_event wcs drained c')
