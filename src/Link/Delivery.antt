-- ===== src/Link/Delivery.antt =====
-- The whole way of a message: from the bytes that a program sends to the peer's receive queue.
use odin_link_five.Prelude.{
  ℕ, ◌+◌, ◌≤◌, ◌<◌, ◌≡◌, ◌≢◌, refl, ap, sym, ◌∙◌, Bool, true, false, List, [], ◌∷◌, ◌++◌, some,
  length, arith, Bool-cases, inl, inr, ◌==◌,
}
use odin_link_five.Wire.{encode_hdr, frag_flags, stream_payload_max}
use odin_link_five.Wire.Codec.{Fits, frag_flags-lt}
use odin_link_five.Stream.{Stream, rx_fragment, rx_fragments}
use odin_link_five.Stream.Assembly.{
  generous, hdr_at, joined, AllCarried, Carried, frames_from, Delivers, Delivers-eq, whole-Delivers,
}
use odin_link_five.Send.{Call}
use odin_link_five.Send.Chunks.{
  chunks, wire_frames, chunks_step, joined-chunks, AllCarried-chunks, length-chunks-le,
}
use odin_link_five.Send.Prefix.{message_frames, max_len}
use odin_link_five.Receive.{Device, Completion, stream_lookup, update_stream, rx_callback}
use odin_link_five.Link.{run_callbacks, Brings, BringsAll}
use odin_link_five.Link.Streams.{rx_callback-streams}

id-rx_fragment :
    (src dst i : ℕ) (last : Bool) (c : List ℕ) (s : Stream)
    → (rx_fragment generous (hdr_at src dst i last c) c s).id ≡ s.id
unfolding rx_fragment frag_flags
id-rx_fragment src dst i last c s = ground arith

-- Two updates of one stream are one.
update-update :
    (id : ℕ) (f g : Stream → Stream) (ss : List Stream)
    → ((s : Stream) → (f s).id ≡ s.id)
    → update_stream id g (update_stream id f ss) ≡ update_stream id (λ s. g (f s)) ss
unfolding update_stream
update-update id f g [] h = refl
update-update id f g (s ∷ ss) h = elim (Bool-cases (s.id == id)) [
  | inl hit ↦ rw (hit, update_stream, h s, hit) refl
  | inr miss ↦ rw (miss, update_stream, miss) (ap (λ ys. s ∷ ys) (update-update id f g ss h))
]

update-none : (id : ℕ) (ss : List Stream) → update_stream id (λ s. s) ss ≡ ss
unfolding update_stream
update-none id [] = refl
update-none id (s ∷ ss) = ground (arith, update-none id ss)

-- Looking up the stream that was updated.
lookup-update :
    (id : ℕ) (f : Stream → Stream) (ss : List Stream) (s : Stream)
    → ((t : Stream) → (f t).id ≡ t.id)
    → stream_lookup id ss ≡ some s
    → stream_lookup id (update_stream id f ss) ≡ some (f s)
unfolding stream_lookup update_stream
lookup-update id f [] s h e = absurd (cc)
lookup-update id f (t ∷ ss) s h e = ground (arith, h t, lookup-update id f ss s h)

hdr_at-Fits :
    (src dst i : ℕ) (last : Bool) (c : List ℕ)
    → src < 256
    → dst < 256
    → i < 65536
    → Carried c
    → Fits (hdr_at src dst i last c)
hdr_at-Fits src dst i last c s d h k = record {
  src = s;
  dst = d;
  flag = frag_flags-lt (i == 0) last;
  res = omega arith;
  len = k.1;
  frag = h;
}

id-rx_fragments :
    (src dst i : ℕ) (cs : List (List ℕ)) (s : Stream)
    → (rx_fragments (frames_from src dst i cs) s).id ≡ s.id
unfolding rx_fragments frames_from
id-rx_fragments src dst i [] s = refl
id-rx_fragments src dst i (c ∷ []) s = id-rx_fragment src dst i true c s
id-rx_fragments src dst i (c ∷ e ∷ cs) s =
    id-rx_fragments src dst (i + 1) (e ∷ cs) _ ∙ id-rx_fragment src dst i false c s

-- One frame of a message at the receiver.
frame_step :
    (accepts : ℕ → Bool) (src dst i : ℕ) (last : Bool) (c : List ℕ) (x : Completion) (d : Device)
    → src < 256
    → dst < 256
    → dst ≢ 0
    → i < 65536
    → Carried c
    → Brings (encode_hdr (hdr_at src dst i last c) ++ c) x
    → (rx_callback accepts generous x d).1.streams
      ≡ update_stream dst (rx_fragment generous (hdr_at src dst i last c) c) d.streams
frame_step accepts src dst i last c x d s t nz h k b =
    rx_callback-streams accepts generous (hdr_at src dst i last c) c x d
      (hdr_at-Fits src dst i last c s t h k) refl nz refl b

-- What the completions of a message's frames do to the streams.
run_callbacks-streams :
    (accepts : ℕ → Bool) (src dst i : ℕ) (cs : List (List ℕ)) (xs : List Completion) (d : Device)
    → src < 256
    → dst < 256
    → dst ≢ 0
    → i + length cs < 65536
    → AllCarried cs
    → BringsAll (wire_frames src dst i cs) xs
    → (run_callbacks accepts xs d).streams
      ≡ update_stream dst (rx_fragments (frames_from src dst i cs)) d.streams
unfolding run_callbacks rx_fragments frames_from wire_frames
run_callbacks-streams accepts src dst i [] [] d s t nz h k b = sym (update-none dst d.streams)
run_callbacks-streams accepts src dst i [] (x ∷ xs) d s t nz h k b = absurd b
run_callbacks-streams accepts src dst i (c ∷ []) [] d s t nz h k b = absurd b
run_callbacks-streams accepts src dst i (c ∷ []) (x ∷ []) d s t nz h k b =
    frame_step accepts src dst i true c x d s t nz (omega arith) k.0 b.0
run_callbacks-streams accepts src dst i (c ∷ []) (x ∷ y ∷ xs) d s t nz h k b = absurd b.1
run_callbacks-streams accepts src dst i (c ∷ e ∷ cs) [] d s t nz h k b = absurd b
run_callbacks-streams accepts src dst i (c ∷ e ∷ cs) (x ∷ xs) d s t nz h k b =
    run_callbacks-streams accepts src dst (i + 1) (e ∷ cs) xs _ s t nz (omega arith) k.1 b.1
    ∙ (ap (update_stream dst (rx_fragments (frames_from src dst (i + 1) (e ∷ cs))))
          (frame_step accepts src dst i false c x d s t nz (omega arith) k.0 b.0)
        ∙ update-update dst (rx_fragment generous (hdr_at src dst i false c) c)
            (rx_fragments (frames_from src dst (i + 1) (e ∷ cs))) d.streams
            (id-rx_fragment src dst i false c))

Delivers-chunks :
    (src dst : ℕ) (cs : List (List ℕ)) (s : Stream)
    → 0 < length cs
    → length cs < 65536
    → AllCarried cs
    → s.rx_queue_len < s.rx_queue_max
    → Delivers src (length cs) (joined cs) s (rx_fragments (frames_from src dst 0 cs) s)
Delivers-chunks src dst [] s p h k room = absurd (omega arith)
Delivers-chunks src dst (c ∷ cs) s p h k room = whole-Delivers src dst c cs s k h room

-- A message of 1 byte up to the longest that the driver accepts, whose frames all complete at the
-- peer in order, without error and with memory served, is appended to the receive queue of the stream
-- that it is sent to exactly as it was sent. This holds whatever that stream was assembling before,
-- whatever bytes the slots held behind the frames, and whatever slots the ring takes; the stream is
-- open and its queue is not full.
pub message_delivered :
    (accepts : ℕ → Bool) (c : Call) (xs : List Completion) (d : Device) (s : Stream)
    → c.src_id < 256
    → c.dst_id < 256
    → c.dst_id ≢ 0
    → 0 < length c.bytes
    → length c.bytes ≤ max_len
    → BringsAll (message_frames c) xs
    → stream_lookup c.dst_id d.streams ≡ some s
    → s.rx_queue_len < s.rx_queue_max
    → (n : ℕ) × ((t : Stream) × ((stream_lookup c.dst_id (run_callbacks accepts xs d).streams
            ≡ some t)
          × Delivers c.src_id n c.bytes s t))
message_delivered accepts c xs d s hs ht nz p h b found room = (
  length cs,
  (
    rx_fragments (frames_from c.src_id c.dst_id 0 cs) s,
    (
      ap (stream_lookup c.dst_id) (
            run_callbacks-streams accepts c.src_id c.dst_id 0 cs xs d hs ht nz (omega (arith, few))
              carried b)
          ∙ lookup-update c.dst_id (rx_fragments (frames_from c.src_id c.dst_id 0 cs)) d.streams s
              (id-rx_fragments c.src_id c.dst_id 0 cs) found,
      Delivers-eq c.src_id s _ refl
          (joined-chunks stream_payload_max (length c.bytes) c.bytes (omega arith) (omega arith))
          (Delivers-chunks c.src_id c.dst_id cs s
            (omega (
              arith,
              ap length (
                  chunks_step stream_payload_max (length c.bytes) c.bytes (omega arith) p
                    (omega arith)),
            ))
            (omega (arith, few)) carried room),
    ),
  ),
)
  where
    cs : List (List ℕ)
    cs = chunks stream_payload_max (length c.bytes) c.bytes

    few : length cs ≤ 4096
    few = length-chunks-le 4096 (length c.bytes) c.bytes h

    carried : AllCarried cs
    carried =
        AllCarried-chunks stream_payload_max (length c.bytes) c.bytes (omega arith) (omega arith)
