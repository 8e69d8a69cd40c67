-- ===== src/Tests/Modes.antt =====
-- The theorems on the choice of the mode, on sends in either, and on the table of streams, applied.
use odin_link_five.Prelude.{
  ℕ, ◌≡◌, ◌≢◌, ◌<◌, refl, true, false, [], ◌∷◌, some, none, arith, length, inl, leb, ◌&&◌,
  if◌then◌else◌,
}
use odin_link_five.Errno.{ok, enospc}
use odin_link_five.TxMode.{throughput, TxAdaptive, Load}
use odin_link_five.Send.Prefix.{Outcome, message_frames}
use odin_link_five.Throughput.{BatchRound, Batching, batch_loop, batch_round}
use odin_link_five.Throughput.Total.{IsSmooth}
use odin_link_five.Throughput.Buffer.{BatchBuf}
use odin_link_five.Throughput.Same.{Advance, batch_loop-Outcome}
use odin_link_five.Transmit.{Meeting, stream_send}
use odin_link_five.Transmit.Outcomes.{stream_send-Outcome}
use odin_link_five.FramePool.Balance.{new-IsBalanced}
use odin_link_five.Receive.{stream_lookup}
use odin_link_five.Registry.{id, no_id, Ida, Registry, stream_create, stream_destroy}
use odin_link_five.Registry.Ids.{IsIda, IsRegistry, stream_create-IsRegistry}
use odin_link_five.Send.{Round}
use odin_link_five.Send.Chunks.{wire_frames, chunks}
use odin_link_five.Wire.{frag_flags, encode_hdr}
use odin_link_five.Throughput.{batch_frame}
use odin_link_five.Tests.{idle_device, pool_of, short_call}

abbrev busy : TxAdaptive
busy = record { mode = throughput; consecutive_low = 2; high_watermark = 768; low_watermark = 256 }

abbrev small : Load
small = record { has_batches = true; msg_len = 100; pool_used = 3 }

abbrev smooth : BatchRound
smooth = record {
  during = λ f. f;
  completed = 0;
  signalled = false;
  between = λ f. f;
  fault_at = λ i. false;
  refuses_at = λ i. false;
}

-- A round in which a buffer is always given back in time.
abbrev kept_up : BatchRound
kept_up = record smooth { during = λ f. 5 ∷ f }

abbrev begun : Batching
begun = record {
  free = 5 ∷ [];
  frames_pending = 0;
  in_flight = [];
  sent = 0;
  frag_idx = 0;
  ring = [];
}

abbrev batched : Batching
batched = record {
  free = [];
  frames_pending = 1;
  in_flight = (5, 1) ∷ [];
  sent = 3;
  frag_idx = 1;
  ring = message_frames short_call;
}

batch_run : batch_loop 3 (λ n. smooth) 0 short_call begun ≡ some (ok, batched)
unfolding batch_loop wire_frames chunks frag_flags encode_hdr batch_frame batch_round
batch_run = refl

begun-Advance : Advance [] short_call begun
begun-Advance = record { bounded = omega arith; aligned = inl refl; frames = refl }

batch_loop-Outcome_example : Outcome [] short_call ok batched.ring
batch_loop-Outcome_example =
    batch_loop-Outcome [] 3 (λ n. smooth) 0 short_call begun ok batched (omega arith) begun-Advance
      batch_run

kept_up-IsSmooth : IsSmooth kept_up
kept_up-IsSmooth = record {
  seen = λ f. omega arith;
  there = λ f. omega arith;
  readable = λ i. refl;
  accepted = λ i. refl;
}

abbrev quiet : Round
quiet = record {
  during = λ p. p;
  completed = 0;
  signalled = false;
  between = λ p. p;
  copy_fault = false;
  ring_refuses = false;
}

-- A meeting in which the throughput mode is on.
abbrev meeting : Meeting
meeting = record {
  has_batches = true;
  served = true;
  pool = pool_of 0;
  free = 5 ∷ [];
  rounds = λ n. quiet;
  batch_rounds = λ n. smooth;
  fuel = 3;
}

-- The low watermark is 0, so that no load is low.
abbrev at_work : TxAdaptive
at_work = record { mode = throughput; consecutive_low = 0; high_watermark = 768; low_watermark = 0 }

sent : (stream_send true meeting short_call at_work []).0 ≡ some (ok, message_frames short_call)
unfolding stream_send wire_frames chunks frag_flags encode_hdr batch_frame batch_round
sent = refl

stream_send-Outcome_example :
    Outcome [] short_call ok (message_frames short_call)
    × (ok ≡ ok → (true ≡ true) × (0 < length short_call.bytes))
stream_send-Outcome_example =
    stream_send-Outcome true meeting short_call at_work [] (message_frames short_call) ok sent

-- An allocator that gives 20 if no id is in use and the range has it.
abbrev first_id : Ida
first_id [] lo hi = if leb lo 20 && leb 20 hi then id 20 else no_id enospc
first_id (i ∷ is) lo hi = no_id enospc

first_id-IsIda : IsIda first_id
first_id-IsIda [] lo hi n e = ground arith
first_id-IsIda (i ∷ is) lo hi n e = ground arith

abbrev no_streams : Registry
no_streams = record { device = record idle_device { streams = [] }; ids = [] }

no_streams-IsRegistry : IsRegistry no_streams
no_streams-IsRegistry = (tt, (refl, new-IsBalanced 4))

abbrev one_stream : Registry
one_stream = (stream_create true true (λ i. true) first_id 0 no_streams).1

stream_create-IsRegistry_example : IsRegistry one_stream
stream_create-IsRegistry_example =
    stream_create-IsRegistry true true (λ i. true) first_id 0 no_streams first_id-IsIda
      (omega arith) no_streams-IsRegistry

abbrev Destroyed : Type 0
Destroyed =
    IsRegistry (stream_destroy 20 one_stream)
    × ((stream_lookup 20 (stream_destroy 20 one_stream).device.streams ≡ none)
        × ((m : ℕ)
            → 20 ≢ m
            → stream_lookup m (stream_destroy 20 one_stream).device.streams
              ≡ stream_lookup m one_stream.device.streams))

-- A buffer that is in use.
abbrev taken : BatchBuf
taken = record { frames_pending = 0; is_free = false }
