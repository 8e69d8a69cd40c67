-- ===== src/TxMode.antt =====
-- How driver/odl_tb5_ring_dma.c chooses between the two ways to send: `odl_tb5_evaluate_tx_mode` and
-- `odl_tb5_update_tx_watermarks`.
pub mod Hysteresis
use odin_link_five.Prelude.{
  ℕ, ◌+◌, ◌-◌, ◌*◌, ◌/◌, min, Bool, true, false, not, ltb, leb, if◌then◌else◌,
}
use odin_link_five.Wire.{stream_payload_max}
use odin_link_five.FramePool.{frame_pool_size, tx_pool_reserve}

-- `enum odl_tb5_tx_mode`.
pub data TxMode : Type 0 where
  latency throughput : TxMode

-- `tx_adaptive` of `struct odl_tb5_device`.
pub record TxAdaptive : Type 0 where
  pub mode : TxMode
  pub consecutive_low : ℕ
  pub high_watermark : ℕ
  pub low_watermark : ℕ

abbrev pub throughput_thresh : ℕ
throughput_thresh = 65536

abbrev pub mode_hysteresis : ℕ
mode_hysteresis = 4

unfoldable pub update_tx_watermarks : ℕ → TxAdaptive → TxAdaptive
update_tx_watermarks ring_size t = record t {
  high_watermark = min (ring_size * 3 / 4) (frame_pool_size - tx_pool_reserve);
  low_watermark = min (ring_size / 4) ((frame_pool_size - tx_pool_reserve) / 2);
}

-- The step up, out of the latency mode.
unfoldable pub step_up : ℕ → ℕ → TxAdaptive → TxAdaptive
step_up pool_used nframes t =
    if ltb t.high_watermark (pool_used + nframes)
    then record t { consecutive_low = 0; mode = throughput }
    else t

-- The step down, out of the throughput mode.
unfoldable pub step_down : ℕ → TxAdaptive → TxAdaptive
step_down pool_used t =
    if ltb pool_used t.low_watermark
    then if leb mode_hysteresis (t.consecutive_low + 1)
      then record t { mode = latency; consecutive_low = 0 }
      else record t { consecutive_low = t.consecutive_low + 1 }
    else record t { consecutive_low = 0 }

unfoldable pub step_from : TxMode → ℕ → ℕ → TxAdaptive → TxAdaptive
unfolding step_up step_down
step_from latency pool_used nframes t = step_up pool_used nframes t
step_from throughput pool_used nframes t = step_down pool_used t

-- A send: whether the batch pool is there, the length of the message, and the slots in use.
pub record Load : Type 0 where
  pub has_batches : Bool
  pub msg_len : ℕ
  pub pool_used : ℕ

abbrev pub frames_for : ℕ → ℕ
frames_for msg_len = (msg_len + (stream_payload_max - 1)) / stream_payload_max

unfoldable pub evaluate_tx_mode : Load → TxAdaptive → TxMode × TxAdaptive
unfolding step_from
evaluate_tx_mode l t =
    let large = record t { consecutive_low = 0; mode = throughput } in
    let t' = step_from t.mode l.pool_used (frames_for l.msg_len) t in
    if not l.has_batches
    then (latency, t)
    else if ltb throughput_thresh l.msg_len
    then (throughput, large)
    else (t'.mode, t')
