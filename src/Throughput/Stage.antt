-- ===== src/Throughput/Stage.antt =====
-- The frames that `odl_tb5_stream_send_throughput` of driver/odl_tb5_ring_dma.c stages in one buffer are
-- the next ones of the message.
use odin_link_five.Prelude.{
  ℕ, zero, suc, ◌+◌, ◌-◌, ◌*◌, ◌%◌, ◌≤◌, ◌<◌, ◌≡◌, refl, ap, sym, ◌∙◌, min, Bool, true, false, ◌&&◌,
  ◌==◌, List, [], ◌∷◌, ◌++◌, length, arith, Bool-cases, inl, inr, ==_iff,
}
use odin_link_five.Send.{Sending, Call, build_frame}
use odin_link_five.Send.Prefix.{frames_of, frames_of-step, max_len}
use odin_link_five.Throughput.{batch_payload, nframes, frame_payload, batch_frame, stage, post}

-- The state of a latency send at byte `sent`, for the frame it would build.
abbrev at : ℕ → ℕ → Sending
at sent frag_idx = record {
  pool = record { bitmap = []; slots = []; size = 0; free_count = 0 };
  frames_pending = 0;
  sent = sent;
  frag_idx = frag_idx;
  ring = [];
}

both_zero : (sent i : ℕ) → (sent == 0 && i == 0) ≡ (sent + i * 4024 == 0)
both_zero sent i = ground (arith, ==_iff sent 0, ==_iff i 0, ==_iff (sent + i * 4024) 0)

payload_same :
    (c : Call) (sent bp i : ℕ)
    → bp ≡ batch_payload c sent
    → i < nframes bp
    → frame_payload bp i ≡ min (length c.bytes - (sent + i * 4024)) 4024
payload_same c sent bp i e lt = omega (arith)

batch_frame-same :
    (c : Call) (sent bp i frag_idx : ℕ)
    → bp ≡ batch_payload c sent
    → i < nframes bp
    → batch_frame c sent bp i frag_idx ≡ build_frame c (at (sent + i * 4024) frag_idx)
unfolding batch_frame build_frame
batch_frame-same c sent bp i frag_idx e lt =
    rw (both_zero sent i, payload_same c sent bp i e lt) refl

stage_none :
    (fault_at : ℕ → Bool) (c : Call) (sent bp i frag_idx : ℕ)
    → stage fault_at c sent bp zero i frag_idx
      ≡ record { faulted = false; frag_idx = frag_idx; frames = [] }
unfolding stage
stage_none fault_at c sent bp i frag_idx = refl

stage_faulted :
    (fault_at : ℕ → Bool) (c : Call) (sent bp k i frag_idx : ℕ)
    → fault_at i ≡ true
    → (stage fault_at c sent bp (suc k) i frag_idx).faulted ≡ true
unfolding stage
stage_faulted fault_at c sent bp k i frag_idx h = rw h refl

stage_step :
    (fault_at : ℕ → Bool) (c : Call) (sent bp k i frag_idx : ℕ)
    → fault_at i ≡ false
    → (frag_idx + 1) % 65536 ≡ frag_idx + 1
    → stage fault_at c sent bp (suc k) i frag_idx
      ≡ record (stage fault_at c sent bp k (i + 1) (frag_idx + 1)) {
        frames =
            batch_frame c sent bp i frag_idx
            ∷ (stage fault_at c sent bp k (i + 1) (frag_idx + 1)).frames;
      }
unfolding stage
stage_step fault_at c sent bp k i frag_idx h w = rw (h, w) refl

-- The frames from frame `i` of a batch on begin with the one that is staged there.
frames_of-batch :
    (c : Call) (sent bp i frag_idx : ℕ)
    → bp ≡ batch_payload c sent
    → i < nframes bp
    → sent + i * 4024 ≡ 4024 * frag_idx
    → frames_of c (sent + min (i * 4024) bp) frag_idx
      ≡ batch_frame c sent bp i frag_idx
        ∷ frames_of c (sent + min ((i + 1) * 4024) bp) (frag_idx + 1)
frames_of-batch c sent bp i frag_idx e lt al =
    let here : sent + min (i * 4024) bp ≡ sent + i * 4024 = omega arith in
    let next : sent + i * 4024 + min (length c.bytes - (sent + i * 4024)) 4024
        ≡ sent + min ((i + 1) * 4024) bp =
      omega arith in
    rw (here, batch_frame-same c sent bp i frag_idx e lt, ← next)
      (frames_of-step c (at (sent + i * 4024) frag_idx) (omega arith) al)

-- The staged frames, followed by those of the bytes behind the batch, are the frames from frame `i` on.
pub stage-frames :
    (fault_at : ℕ → Bool) (c : Call) (sent bp k i frag_idx : ℕ)
    → bp ≡ batch_payload c sent
    → i + k ≡ nframes bp
    → length c.bytes ≤ max_len
    → sent + i * 4024 ≡ 4024 * frag_idx
    → (stage fault_at c sent bp k i frag_idx).faulted ≡ false
    → ((stage fault_at c sent bp k i frag_idx).frames ++ frames_of c (sent + bp) (frag_idx + k)
        ≡ frames_of c (sent + min (i * 4024) bp) frag_idx)
      × ((stage fault_at c sent bp k i frag_idx).frag_idx ≡ frag_idx + k)
stage-frames fault_at c sent bp zero i frag_idx e n len al f =
    let full : min (i * 4024) bp ≡ bp = omega arith in
    let none_left : frag_idx + 0 ≡ frag_idx = omega arith in
    rw (stage_none fault_at c sent bp i frag_idx, full, none_left) (refl, refl)
stage-frames fault_at c sent bp (suc k) i frag_idx e n len al f = elim (Bool-cases (fault_at i)) [
  | inl h ↦ let stuck = stage_faulted fault_at c sent bp k i frag_idx h in absurd (cc)
  | inr h ↦
      let step = stage_step fault_at c sent bp k i frag_idx h (omega arith) in
      let rest = stage fault_at c sent bp k (i + 1) (frag_idx + 1) in
      let sound : rest.faulted ≡ false = sym (ap (λ r. r.faulted) step) ∙ f in
      let ih =
        stage-frames fault_at c sent bp k (i + 1) (frag_idx + 1) e (omega arith) len (omega arith)
          sound in
      let same : frag_idx + suc k ≡ frag_idx + 1 + k = omega arith in
      rw (step, same)
        (
          ap (λ fs. batch_frame c sent bp i frag_idx ∷ fs) ih.0
              ∙ sym (frames_of-batch c sent bp i frag_idx e (omega arith) al),
          ih.1,
        )
]

-- What the ring takes of a list of frames is a first part of it, and all of it if none is left.
pub post-prefix :
    (refuses_at : ℕ → Bool) (i : ℕ) (fs : List (List ℕ))
    → (rest : List (List ℕ)) × (((post refuses_at i fs).0 ++ rest ≡ fs)
        × ((post refuses_at i fs).1 ≡ 0 → (post refuses_at i fs).0 ≡ fs))
unfolding post
post-prefix refuses_at i [] = ([], (refl, (λ z. refl)))
post-prefix refuses_at i (f ∷ fs) = elim (Bool-cases (refuses_at i)) [
  | inl h ↦ rw h (f ∷ fs, (refl, (λ z. absurd (omega (arith, z)))))
  | inr h ↦
      let (rest, (p, q)) = post-prefix refuses_at (i + 1) fs in
      rw h (rest, (ap (λ x. f ∷ x) p, (λ z. ap (λ x. f ∷ x) (q z))))
]
