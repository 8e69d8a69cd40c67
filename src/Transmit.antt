-- ===== src/Transmit.antt =====
-- `odl_tb5_stream_send` of driver/odl_tb5_ring_dma.c: the checks, the choice of the mode, and the send.
pub mod Outcomes
use odin_link_five.Prelude.{
  ℕ, ◌-◌, ◌*◌, Bool, true, false, not, ◌||◌, ltb, ◌==◌, List, [], Option, none, some, if◌then◌else◌,
  length,
}
use odin_link_five.Errno.{Status, fail, enotconn, einval, enomem}
use odin_link_five.Wire.{stream_payload_max}
use odin_link_five.FramePool.{FramePool}
use odin_link_five.TxMode.{TxMode, latency, throughput, TxAdaptive, evaluate_tx_mode}
use odin_link_five.Send.{Round, Sending, Call, send_loop}
use odin_link_five.Throughput.{BatchRound, Batching, batch_loop}

-- What a send meets: whether the batch pool is there and the message can be allocated; the frame pool and the free batch buffers; the rounds of either loop, and fuel for them.
pub record Meeting : Type 0 where
  pub has_batches : Bool
  pub served : Bool
  pub pool : FramePool
  pub free : List ℕ
  pub rounds : ℕ → Round
  pub batch_rounds : ℕ → BatchRound
  pub fuel : ℕ

abbrev pub ring_of : Option (Status × Sending) → Option (Status × List (List ℕ))
ring_of none = none
ring_of (some (st, s)) = some (st, s.ring)

abbrev pub batch_ring_of : Option (Status × Batching) → Option (Status × List (List ℕ))
batch_ring_of none = none
batch_ring_of (some (st, s)) = some (st, s.ring)

-- The send in a mode, on a ring that holds `ring`.
unfoldable pub send_in : TxMode → Meeting → Call → List (List ℕ) → Option (Status × List (List ℕ))
unfolding send_loop batch_loop
send_in latency e c ring =
    if e.served
    then ring_of (
        send_loop e.fuel e.rounds 0 c
          (record { pool = e.pool; frames_pending = 0; sent = 0; frag_idx = 0; ring = ring }))
    else some (fail enomem, ring)
send_in throughput e c ring =
    if e.served
    then batch_ring_of (
        batch_loop e.fuel e.batch_rounds 0 c (record {
          free = e.free;
          frames_pending = 0;
          in_flight = [];
          sent = 0;
          frag_idx = 0;
          ring = ring;
        }))
    else some (fail enomem, ring)

-- `is_ready` says that the state is READY. The result, `none` if the fuel ran out, and the state of the choice.
unfoldable pub stream_send :
    Bool
    → Meeting
    → Call
    → TxAdaptive
    → List (List ℕ)
    → Option (Status × List (List ℕ)) × TxAdaptive
unfolding send_in evaluate_tx_mode
stream_send is_ready e c t ring =
    let len = length c.bytes in
    let chosen =
      evaluate_tx_mode
        (record {
          has_batches = e.has_batches;
          msg_len = len;
          pool_used = e.pool.size - e.pool.free_count;
        })
        t in
    if not is_ready
    then (some (fail enotconn, ring), t)
    else if len == 0 || ltb (stream_payload_max * 4096) len
    then (some (fail einval, ring), t)
    else (send_in chosen.0 e c ring, chosen.1)
