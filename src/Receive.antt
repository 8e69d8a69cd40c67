-- ===== src/Receive.antt =====
-- The receive side of the device in driver/odl_tb5_ring_dma.c: `odl_tb5_rx_callback` for a frame of the
-- pool, `odl_tb5_rx_repost`, `odl_tb5_stream_lookup` and the readers `odl_tb5_stream_recv` and
-- `odl_tb5_stream_wait_rx`.
pub mod Repost
pub mod Dispatch
pub mod Queue
use odin_link_five.Prelude.{
  ℕ, zero, suc, ◌+◌, ◌-◌, min, Bool, true, false, not, ◌&&◌, ◌||◌, ltb, leb, ◌==◌, List, [], ◌∷◌,
  ◌++◌, Option, none, some, if◌then◌else◌, take, ℤ, pos, inc, dec, below, ltb_ℤ,
}
use odin_link_five.Errno.{Errno, Status, ok, fail, eintr, eshutdown, eagain, efault, etimedout}
use odin_link_five.Wire.{
  StreamHdr, decode_hdr, payload_of, stream_hdr_size, stream_id_ctrl, le32_at, dma_magic, dma_pong,
  dma_hdr_size,
}
use odin_link_five.FramePool.{FramePool}
use odin_link_five.FramePool
use odin_link_five.Stream.{Stream, RxMsg, Alloc, rx_fragment}

-- What the receive side keeps in `struct odl_tb5_device`. The streams are those of the hash table,
-- in its order. `control_replies` counts the times that `ctrl_reply_work` was scheduled.
pub record Device : Type 0 where
  pub pool : FramePool
  pub streams : List Stream
  pub rx_posted : ℤ
  pub rx_target : ℕ
  pub rx_posted_min : ℤ
  pub rx_repost_starved : ℕ
  pub rx_repost_short : ℕ
  pub rx_canceled : ℕ
  pub rx_err_crc : ℕ
  pub rx_err_overrun : ℕ
  pub rx_frames_ok : ℕ
  pub pong_received : Bool
  pub verify_rx_type : ℕ
  pub control_replies : ℕ

-- A completed receive: the slot, the memory from its start on, and what the NHI reports.
pub record Completion : Type 0 where
  pub slot : ℕ
  pub virt : List ℕ
  pub size : ℕ
  pub canceled : Bool
  pub crc_error : Bool
  pub overrun : Bool

-- A round of `odl_tb5_rx_repost`, with what `odl_tb5_frame_pool_get` gave, `n` rounds to come after
-- it, and `go` for those. The ring's answer to `tb_ring_rx` for a slot is a parameter.
unfoldable pub repost_round :
    (ℕ → Bool) → ℕ → (Device → List ℕ × Device) → Option ℕ × FramePool → Device → List ℕ × Device
repost_round accepts n go (none, p) d = (
  [],
  record d {
    rx_repost_starved = d.rx_repost_starved + 1;
    rx_repost_short = if ltb d.rx_repost_short (suc n) then suc n else d.rx_repost_short;
  },
)
repost_round accepts n go (some i, p) d =
    let r = go (record d { pool = p; rx_posted = inc d.rx_posted }) in
    if accepts i then (i ∷ r.0, r.1) else ([], record d { pool = FramePool.put p i })

-- Its loop, with `n` rounds left; the list is of the slots that the ring took.
unfoldable pub repost_from : (ℕ → Bool) → ℕ → Device → List ℕ × Device
unfolding repost_round
repost_from accepts zero d = ([], d)
repost_from accepts (suc n) d =
    repost_round accepts n (repost_from accepts n) (FramePool.get d.pool) d

unfoldable pub note_min : Device → Device
note_min d =
    if ltb_ℤ d.rx_posted d.rx_posted_min then record d { rx_posted_min = d.rx_posted } else d

unfoldable pub rx_repost : (ℕ → Bool) → Device → List ℕ × Device
unfolding repost_from note_min
rx_repost accepts d =
    let r = repost_from accepts (below d.rx_target d.rx_posted) d in (r.0, note_min r.1)

-- `odl_tb5_stream_lookup`, and writing back what the callback did to the stream found.
unfoldable pub stream_lookup : ℕ → List Stream → Option Stream
stream_lookup id [] = none
stream_lookup id (s ∷ ss) = if s.id == id then some s else stream_lookup id ss

unfoldable pub update_stream : ℕ → (Stream → Stream) → List Stream → List Stream
update_stream id f [] = []
update_stream id f (s ∷ ss) = if s.id == id then f s ∷ ss else s ∷ update_stream id f ss

-- "Raw DMA control message (no stream header - used during verify)".
unfoldable pub is_control : Completion → Bool
is_control c = leb dma_hdr_size c.size && le32_at c.virt 0 == dma_magic

unfoldable pub rx_control : Completion → Device → Device
rx_control c d =
    if le32_at c.virt 4 == dma_pong
    then record d { pong_received = true }
    else record d { verify_rx_type = le32_at c.virt 4; control_replies = d.control_replies + 1 }

-- "Check for stream header".
unfoldable pub rx_data : Alloc → Completion → Device → Device
rx_data a c d =
    let h = decode_hdr c.virt in
    if leb stream_hdr_size c.size && not (h.dst_id == stream_id_ctrl)
    then record d {
      streams =
          update_stream h.dst_id (rx_fragment a h (payload_of c.virt h.payload_len)) d.streams;
    }
    else d

-- The end of an accepted frame: its slot goes back and the ring is filled up.
unfoldable pub recycle : (ℕ → Bool) → Completion → Device → List ℕ × Device
recycle accepts c d = rx_repost accepts (record d { pool = FramePool.put d.pool c.slot })

-- Which way the callback takes a frame, by its tests in their order.
pub data Verdict : Type 0 where
  was_canceled bad_crc overran control stream_data : Verdict

unfoldable pub verdict : Completion → Verdict
unfolding is_control
verdict c =
    if c.canceled
    then was_canceled
    else if c.crc_error
    then bad_crc
    else if c.overrun
    then overran
    else if is_control c
    then control
    else stream_data

unfoldable pub rx_as : Verdict → (ℕ → Bool) → Alloc → Completion → Device → List ℕ × Device
rx_as was_canceled accepts a c d =
    ([], record d { rx_canceled = d.rx_canceled + 1; pool = FramePool.put d.pool c.slot })
rx_as bad_crc accepts a c d =
    ([], record d { rx_err_crc = d.rx_err_crc + 1; pool = FramePool.put d.pool c.slot })
rx_as overran accepts a c d =
    ([], record d { rx_err_overrun = d.rx_err_overrun + 1; pool = FramePool.put d.pool c.slot })
rx_as control accepts a c d =
    recycle accepts c (rx_control c (record d { rx_frames_ok = d.rx_frames_ok + 1 }))
rx_as stream_data accepts a c d =
    recycle accepts c (rx_data a c (record d { rx_frames_ok = d.rx_frames_ok + 1 }))

-- `odl_tb5_rx_callback` for a frame of the pool.
unfoldable pub rx_callback : (ℕ → Bool) → Alloc → Completion → Device → List ℕ × Device
rx_callback accepts a c d = rx_as (verdict c) accepts a c (record d { rx_posted = dec d.rx_posted })

-- What a wait for `rx_complete > 0 || dying` ends by, if its condition does not hold.
pub data WaitEnd : Type 0 where
  signal timeout : WaitEnd

-- `odl_tb5_stream_wait_rx`: the stream is as the wait leaves it. The busy poll before the wait only
-- delays it.
unfoldable pub stream_wait_rx : WaitEnd → Stream → Status
stream_wait_rx w s =
    if ltb 0 s.rx_complete
    then ok
    else if s.dying
    then fail eshutdown
    else elim w [ signal ↦ fail eintr | timeout ↦ fail etimedout ]

-- What a read hands out: the sender's stream, and the bytes copied.
pub record Read : Type 0 where
  pub src_id : ℕ
  pub actual_len : ℕ
  pub bytes : List ℕ

unfoldable pub dequeue : Bool → ℕ → List RxMsg → Stream → Status × Option Read × Stream
dequeue fault buf_len [] s = (fail eagain, none, s)
dequeue fault buf_len (m ∷ ms) s =
    let n = min m.len buf_len in
    (
      if fault then fail efault else ok,
      some (record { src_id = m.src_id; actual_len = n; bytes = take n m.bytes }),
      record s {
        rx_queue = ms;
        rx_queue_len = s.rx_queue_len - 1;
        rx_complete = s.rx_complete - 1;
      },
    )

-- `odl_tb5_stream_recv`: its wait has no timeout. `fault` is the answer of `copy_to_user`, after
-- which the message is gone all the same.
unfoldable pub stream_recv : Bool → ℕ → Stream → Status × Option Read × Stream
unfolding dequeue
stream_recv fault buf_len s =
    if ltb 0 s.rx_complete
    then dequeue fault buf_len s.rx_queue s
    else if s.dying
    then (fail eshutdown, none, s)
    else (fail eintr, none, s)
