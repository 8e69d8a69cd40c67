-- ===== src/Tests/Receives.antt =====
-- The theorems on the receive path, applied to a device with four slots and one stream.
use odin_link_five.Prelude.{ℕ, ◌≡◌, refl, true, false, [], ◌∷◌, ◌++◌, some, arith}
use odin_link_five.Wire.{StreamHdr, encode_hdr, frag_flags}
use odin_link_five.Wire.Codec.{Fits}
use odin_link_five.FramePool.{take_slot}
use odin_link_five.FramePool.Balance.{is_taken, IsBalanced, new-IsBalanced, take_slot-IsBalanced}
use odin_link_five.Stream.{Stream, RxMsg, rx_fragment}
use odin_link_five.Stream.Assembly.{generous, Delivers}
use odin_link_five.Receive.{Device, Completion, rx_repost, rx_callback, stream_lookup}
use odin_link_five.Receive.Repost.{Reposts, rx_repost-Reposts}
use odin_link_five.Receive.Dispatch.{Accounts, rx_callback-Accounts}
use odin_link_five.Receive.Queue.{IsSound, rx_fragment-IsSound}
use odin_link_five.Send.Prefix.{message_frames}
use odin_link_five.Send.Chunks.{wire_frames, chunks}
use odin_link_five.Link.{Brings, BringsAll, run_callbacks}
use odin_link_five.Link.Delivery.{message_delivered}
use odin_link_five.Tests.{empty_stream, idle_device, pool_of, three_bytes, short_call}

rx_repost-Reposts_example :
    Reposts
      (λ i. true)
      2
      idle_device
      (rx_repost (λ i. true) idle_device).0
      (rx_repost (λ i. true) idle_device).1
rx_repost-Reposts_example = rx_repost-Reposts (λ i. true) idle_device (new-IsBalanced 4)

-- Slot 0 is in the ring.
abbrev posted : Device
posted = record idle_device { pool = take_slot (pool_of 4) 0 }

posted-IsBalanced : IsBalanced posted.pool
posted-IsBalanced = (take_slot-IsBalanced (pool_of 4) 0 refl (new-IsBalanced 4)).0

posted-taken : is_taken posted.pool 0 ≡ true
unfolding take_slot
posted-taken = refl

abbrev header : StreamHdr
header = record { src_id = 3; dst_id = 7; flags = 3; reserved = 0; payload_len = 3; frag_idx = 0 }

header-Fits : Fits header
header-Fits = record {
  src = omega arith;
  dst = omega arith;
  flag = omega arith;
  res = omega arith;
  len = omega arith;
  frag = omega arith;
}

abbrev arrived : Completion
arrived = record {
  slot = 0;
  virt = encode_hdr header ++ three_bytes;
  size = 11;
  canceled = false;
  crc_error = false;
  overrun = false;
}

rx_callback-Accounts_example :
    Accounts arrived posted
      (rx_callback (λ i. true) generous arrived posted).0
      (rx_callback (λ i. true) generous arrived posted).1
rx_callback-Accounts_example =
    rx_callback-Accounts (λ i. true) generous arrived posted posted-taken posted-IsBalanced

arrived-Brings : Brings (encode_hdr header ++ three_bytes) arrived
unfolding encode_hdr
arrived-Brings = record {
  stale = [];
  bytes = refl;
  size = refl;
  kept = refl;
  sound = refl;
  fits = refl;
}

empty_stream-IsSound : IsSound empty_stream
empty_stream-IsSound = record {
  buf = (refl, refl);
  queued = refl;
  counted = refl;
  bounded = omega arith;
}

rx_fragment-IsSound_example : IsSound (rx_fragment generous header three_bytes empty_stream)
rx_fragment-IsSound_example =
    rx_fragment-IsSound generous header three_bytes empty_stream refl empty_stream-IsSound

abbrev waiting_msg : RxMsg
waiting_msg = record { src_id = 3; flags = 3; bytes = three_bytes; len = 3 }

abbrev one_waiting : Stream
one_waiting = record empty_stream { rx_queue = waiting_msg ∷ []; rx_queue_len = 1; rx_complete = 1 }

one_waiting-IsSound : IsSound one_waiting
one_waiting-IsSound = record {
  buf = (refl, refl);
  queued = refl;
  counted = refl;
  bounded = omega arith;
}

abbrev Delivered : Type 0
Delivered =
    (n : ℕ) × ((t : Stream) × ((stream_lookup 7
            (run_callbacks (λ i. true) (arrived ∷ []) posted).streams
          ≡ some t)
        × Delivers 3 n three_bytes empty_stream t))

arrived-BringsAll : BringsAll (message_frames short_call) (arrived ∷ [])
unfolding encode_hdr wire_frames chunks frag_flags
arrived-BringsAll =
    (record { stale = []; bytes = refl; size = refl; kept = refl; sound = refl; fits = refl }, tt)

posted-lookup : stream_lookup 7 posted.streams ≡ some empty_stream
unfolding stream_lookup
posted-lookup = refl

message_delivered_example : Delivered
message_delivered_example =
    message_delivered (λ i. true) short_call (arrived ∷ []) posted empty_stream (omega arith)
      (omega arith) (omega arith) (omega arith) (omega arith) arrived-BringsAll posted-lookup
      (omega arith)
