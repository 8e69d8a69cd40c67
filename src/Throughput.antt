-- ===== src/Throughput.antt =====
-- `odl_tb5_stream_send_throughput` of driver/odl_tb5_ring_dma.c, which stages up to 64 frames in one
-- buffer of the batch pool, and the choice in `odl_tb5_stream_send`.
pub mod Stage
pub mod Same
pub mod Total
pub mod Buffer
use odin_link_five.Prelude.{
  ℕ, zero, suc, ◌+◌, ◌-◌, ◌*◌, ◌/◌, ◌%◌, min, Bool, true, false, ◌&&◌, ltb, ◌==◌, List, [], ◌∷◌,
  ◌++◌, Option, none, some, if◌then◌else◌, take, drop, length,
}
use odin_link_five.Errno.{Errno, Status, ok, fail, etimedout, erestartsys, efault, eio}
use odin_link_five.Wire.{encode_hdr, frag_flags, stream_payload_max}
use odin_link_five.Send.{Call}

abbrev pub batch_frames : ℕ
batch_frames = 64

-- The environment of a round: what others do to the free list during the wait and before the lock,
-- the completions of this message, how a wait without a buffer ends, the frame of the batch at which
-- the user's memory faults, and the one that the ring refuses.
pub record BatchRound : Type 0 where
  pub during : List ℕ → List ℕ
  pub completed : ℕ
  pub signalled : Bool
  pub between : List ℕ → List ℕ
  pub fault_at : ℕ → Bool
  pub refuses_at : ℕ → Bool

-- The state of the loop: the free list of the batch pool, first in first out; the message's pending
-- frames; each buffer in flight with the frames posted from it; the bytes sent; the fragment index;
-- and the frames that the ring took.
pub record Batching : Type 0 where
  pub free : List ℕ
  pub frames_pending : ℕ
  pub in_flight : List (ℕ × ℕ)
  pub sent : ℕ
  pub frag_idx : ℕ
  pub ring : List (List ℕ)

abbrev pub batch_payload : Call → ℕ → ℕ
batch_payload c sent = min (length c.bytes - sent) (batch_frames * stream_payload_max)

abbrev pub nframes : ℕ → ℕ
nframes bp = (bp + (stream_payload_max - 1)) / stream_payload_max

abbrev pub frame_payload : ℕ → ℕ → ℕ
frame_payload bp i = min (bp - i * stream_payload_max) stream_payload_max

-- Frame `i` of the batch that starts at byte `sent` and carries `bp` bytes.
unfoldable pub batch_frame : Call → ℕ → ℕ → ℕ → ℕ → List ℕ
batch_frame c sent bp i frag_idx =
    let offset = i * stream_payload_max in
    let payload = frame_payload bp i in
    encode_hdr (record {
      src_id = c.src_id;
      dst_id = c.dst_id;
      flags = frag_flags (sent == 0 && i == 0) (sent + offset + payload == length c.bytes);
      reserved = 0;
      payload_len = payload;
      frag_idx = frag_idx;
    })
    ++ take payload (drop (sent + offset) c.bytes)

-- What the staging of a batch leaves: the fragment index, and the frames unless the copy faulted.
pub record Staged : Type 0 where
  pub faulted : Bool
  pub frag_idx : ℕ
  pub frames : List (List ℕ)

-- `k` frames from frame `i` on.
unfoldable pub stage : (ℕ → Bool) → Call → ℕ → ℕ → ℕ → ℕ → ℕ → Staged
stage fault_at c sent bp zero i frag_idx = record {
  faulted = false;
  frag_idx = frag_idx;
  frames = [];
}
stage fault_at c sent bp (suc k) i frag_idx =
    let next = (frag_idx + 1) % 65536 in
    let rest = stage fault_at c sent bp k (i + 1) next in
    if fault_at i
    then record { faulted = true; frag_idx = next; frames = [] }
    else record rest { frames = batch_frame c sent bp i frag_idx ∷ rest.frames }

-- The frames that the ring takes, from frame `i` on, and how many it does not.
unfoldable pub post : (ℕ → Bool) → ℕ → List (List ℕ) → List (List ℕ) × ℕ
post refuses_at i [] = ([], 0)
post refuses_at i (f ∷ fs) =
    let rest = post refuses_at (i + 1) fs in
    if refuses_at i then ([], length (f ∷ fs)) else (f ∷ rest.0, rest.1)

-- After the submission of buffer `b` with `bp` bytes: on a refusal the buffer goes back at once only
-- if no frame of it was taken.
unfoldable pub settle : ℕ → ℕ → List (List ℕ) × ℕ → Batching → Option Status × Batching
settle b bp (posted, zero) s = (
  none,
  record s {
    frames_pending = s.frames_pending + length posted;
    in_flight = s.in_flight ++ (b, length posted) ∷ [];
    sent = s.sent + bp;
    ring = s.ring ++ posted;
  },
)
settle b bp ([], suc left) s = (some (fail eio), record s { free = s.free ++ b ∷ [] })
settle b bp (f ∷ fs, suc left) s = (
  some (fail eio),
  record s {
    frames_pending = s.frames_pending + length (f ∷ fs);
    in_flight = s.in_flight ++ (b, length (f ∷ fs)) ∷ [];
    ring = s.ring ++ f ∷ fs;
  },
)

-- The round from the buffer on. An empty free list is `continue`.
unfoldable pub with_batch : BatchRound → Call → List ℕ → Batching → Option Status × Batching
unfolding stage post settle
with_batch r c [] s = (none, record s { free = [] })
with_batch r c (b ∷ free) s =
    let bp = batch_payload c s.sent in
    let st = stage r.fault_at c s.sent bp (nframes bp) 0 s.frag_idx in
    if st.faulted
    then (some (fail efault), record s { free = free ++ b ∷ []; frag_idx = st.frag_idx })
    else settle b bp (post r.refuses_at 0 st.frames)
        (record s { free = free; frag_idx = st.frag_idx })

unfoldable pub batch_round : BatchRound → Call → Batching → Option Status × Batching
unfolding with_batch
batch_round r c s =
    let waited = r.during s.free in
    let t = record s { free = waited; frames_pending = s.frames_pending - r.completed } in
    if ltb 0 (length waited)
    then with_batch r c (r.between waited) t
    else (some (fail (if r.signalled then erestartsys else etimedout)), t)

unfoldable pub after_batch :
    (Batching → Option (Status × Batching)) → Option Status × Batching → Option (Status × Batching)
after_batch go (none, s) = go s
after_batch go (some status, s) = some (status, s)

-- The loop, with fuel for the rounds: `none` if it ran out.
unfoldable pub batch_loop : ℕ → (ℕ → BatchRound) → ℕ → Call → Batching → Option (Status × Batching)
unfolding after_batch
batch_loop zero env n c s = none
batch_loop (suc fuel) env n c s = elim (ltb s.sent (length c.bytes)) [
  | true ↦ after_batch (batch_loop fuel env (n + 1) c) (batch_round (env n) c s)
  | false ↦ some (ok, s)
]
