-- ===== src/Tests.antt =====
-- Concrete devices, streams and messages, on which the theorems of the other modules are applied.
pub mod Frames
pub mod Pools
pub mod Sends
pub mod Receives
pub mod Logins
pub mod Releases
pub mod Modes
pub mod Queues
pub mod Pairs
pub mod Files
pub mod Folders
use odin_link_five.Prelude.{ℕ, true, false, [], ◌∷◌, List, none, replicate, pos}
use odin_link_five.Stream.{Stream}
use odin_link_five.FramePool.{FramePool, free_slot}
use odin_link_five.Receive
use odin_link_five.Send.{Call}

abbrev pub empty_stream : Stream
empty_stream = record {
  id = 7;
  rx_queue = [];
  rx_queue_len = 0;
  rx_queue_max = 16;
  rx_complete = 0;
  rx_asm_buf = none;
  rx_asm_len = 0;
  rx_asm_cap = 0;
  rx_asm_src_id = 0;
  rx_asm_next_frag = 0;
  rx_asm_bad = false;
  rx_frag_drops = 0;
  dying = false;
}

-- A pool of `n` free slots.
abbrev pub pool_of : ℕ → FramePool
pool_of n = record {
  bitmap = replicate n false;
  slots = replicate n free_slot;
  size = n;
  free_count = n;
}

abbrev pub idle_device : Receive.Device
idle_device = record {
  pool = pool_of 4;
  streams = empty_stream ∷ [];
  rx_posted = pos 0;
  rx_target = 2;
  rx_posted_min = pos 0;
  rx_repost_starved = 0;
  rx_repost_short = 0;
  rx_canceled = 0;
  rx_err_crc = 0;
  rx_err_overrun = 0;
  rx_frames_ok = 0;
  pong_received = false;
  verify_rx_type = 0;
  control_replies = 0;
}

abbrev pub three_bytes : List ℕ
three_bytes = 10 ∷ 20 ∷ 30 ∷ []

abbrev pub short_call : Call
short_call = record { src_id = 3; dst_id = 7; msg = 1; bytes = three_bytes }
