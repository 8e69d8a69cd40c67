-- ===== src/Tests/Frames.antt =====
-- The theorems on headers and reassembly, applied to short messages.
use odin_link_five.Prelude.{ℕ, ◌≡◌, ◌<◌, refl, true, false, [], ◌∷◌, ◌++◌, List, some, arith}
use odin_link_five.Wire.{StreamHdr, encode_hdr, decode_hdr, payload_of}
use odin_link_five.Wire.Codec.{Fits, decode-encode}
use odin_link_five.Stream.{Stream, Alloc, rx_fragments}
use odin_link_five.Stream.Assembly.{frames_from, delivered}
use odin_link_five.Stream.Undetected.{lost_prefix_delivered}
use odin_link_five.Stream.Loss.{Dropped, frames_before, lost_middle}
use odin_link_five.Tests.{empty_stream, three_bytes}

abbrev header : StreamHdr
header = record { src_id = 3; dst_id = 7; flags = 3; reserved = 0; payload_len = 3; frag_idx = 0 }

header-Fits : Fits header
header-Fits = record {
  src = omega arith;
  dst = omega arith;
  flag = omega arith;
  res = omega arith;
  len = omega arith;
  frag = omega arith;
}

decode-encode_example :
    (decode_hdr (encode_hdr header ++ (three_bytes ++ (9 ∷ []))) ≡ header)
    × (payload_of (encode_hdr header ++ (three_bytes ++ (9 ∷ []))) 3 ≡ three_bytes)
decode-encode_example = decode-encode header three_bytes (9 ∷ []) header-Fits refl

abbrev two_fragments : List (List ℕ)
two_fragments = three_bytes ∷ (40 ∷ []) ∷ []

-- Fragments 0, 1 and 3 of a message of four.
abbrev gapped : Stream
gapped =
    rx_fragments (frames_from 3 7 3 ((50 ∷ []) ∷ []))
      (rx_fragments (frames_before 3 7 0 two_fragments) empty_stream)

lost_middle_example : Dropped empty_stream gapped × (0 < gapped.rx_frag_drops)
lost_middle_example =
    lost_middle 3 7 0 three_bytes ((40 ∷ []) ∷ []) (50 ∷ []) [] empty_stream
      ((omega arith, omega arith), ((omega arith, omega arith), tt))
      ((omega arith, omega arith), tt) (omega arith)

-- A message of two fragments, then fragment 2 alone of a message of three.
abbrev cut : Stream
cut =
    rx_fragments (frames_from 3 7 2 ((50 ∷ []) ∷ []))
      (rx_fragments (frames_from 3 7 0 two_fragments) empty_stream)

lost_prefix_delivered_example :
    (cut.rx_queue ≡ delivered 3 (10 ∷ 20 ∷ 30 ∷ 40 ∷ []) ∷ delivered 3 (50 ∷ []) ∷ [])
    × (cut.rx_frag_drops ≡ 0)
lost_prefix_delivered_example =
    lost_prefix_delivered 3 7 three_bytes ((40 ∷ []) ∷ []) (50 ∷ []) [] empty_stream
      ((omega arith, omega arith), ((omega arith, omega arith), tt))
      ((omega arith, omega arith), tt) (omega arith) (omega arith)

-- A stream that holds one fragment in a buffer that is full.
abbrev full_stream : Stream
full_stream = record empty_stream {
  rx_asm_buf = some three_bytes;
  rx_asm_len = 3;
  rx_asm_cap = 3;
  rx_asm_src_id = 3;
  rx_asm_next_frag = 1;
}

abbrev no_growth : Alloc
no_growth = record { asm = λ n. false; msg = true }
