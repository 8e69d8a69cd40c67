-- ===== src/Throughput/Same.antt =====
-- A throughput send of driver/odl_tb5_ring_dma.c puts the same frames on the ring as a latency send.
use odin_link_five.Prelude.{
  ℕ, zero, suc, ◌+◌, ◌-◌, ◌*◌, ◌≤◌, ◌<◌, ◌≡◌, ◌≢◌, refl, ap, sym, ◌∙◌, min, ltb, List, [], ◌∷◌,
  ◌++◌, Option, none, some, length, arith, Bool-cases, inl, inr, ◌⊎◌, append_assoc, append-nil,
  subst, ltb→lt, not-ltb→le,
}
use mathlib.Core.Option.{some-injective}
use odin_link_five.Errno.{Status, ok}
use odin_link_five.Wire.{stream_payload_max}
use odin_link_five.Send.{Call}
use odin_link_five.Send.Prefix.{frames_of, message_frames, max_len, Outcome, all_sent}
use odin_link_five.Throughput.{
  BatchRound, Batching, batch_payload, nframes, stage, post, settle, with_batch, batch_round,
  after_batch, batch_loop,
}
use odin_link_five.Throughput.Stage.{stage-frames, post-prefix}

-- How far a send that goes well has come, from a ring that held `old`.
pub record Advance (old : List (List ℕ)) (c : Call) (s : Batching) : Type 0 where
  pub bounded : s.sent ≤ length c.bytes
  pub aligned : (s.sent ≡ stream_payload_max * s.frag_idx) ⊎ (s.sent ≡ length c.bytes)
  pub frames : s.ring ++ frames_of c s.sent s.frag_idx ≡ old ++ message_frames c

-- What one round makes of a send that goes well: it ends with an outcome, or goes on well.
abbrev AfterBatch : List (List ℕ) → Call → Option Status × Batching → Type 0
AfterBatch old c (none, t) = Advance old c t
AfterBatch old c (some st, t) = Outcome old c st t.ring × (st ≢ ok)

-- The end of a batch: `fs` were staged, `posted` of them taken.
settle-AfterBatch :
    (old : List (List ℕ)) (c : Call) (b bp left : ℕ) (fs posted rest : List (List ℕ)) (s : Batching)
    → s.sent + bp ≤ length c.bytes
    → (s.sent + bp ≡ stream_payload_max * s.frag_idx) ⊎ (s.sent + bp ≡ length c.bytes)
    → s.ring ++ (fs ++ frames_of c (s.sent + bp) s.frag_idx) ≡ old ++ message_frames c
    → posted ++ rest ≡ fs
    → (left ≡ 0 → posted ≡ fs)
    → AfterBatch old c (settle b bp (posted, left) s)
unfolding settle
settle-AfterBatch old c b bp zero fs posted rest s h al fr p q = record {
  bounded = h;
  aligned = al;
  frames = rw (q refl) (append_assoc s.ring fs (frames_of c (s.sent + bp) s.frag_idx) ∙ fr);
}
settle-AfterBatch old c b bp (suc left) fs [] rest s h al fr p q =
    ((fs ++ frames_of c (s.sent + bp) s.frag_idx, fr), λ e. absurd (cc))
settle-AfterBatch old c b bp (suc left) fs (f ∷ gs) rest s h al fr p q =
    let later = frames_of c (s.sent + bp) s.frag_idx in
    (
      (
        rest ++ later,
        append_assoc s.ring (f ∷ gs) (rest ++ later)
            ∙ (ap (λ x. s.ring ++ x) (sym (append_assoc (f ∷ gs) rest later))
                ∙ (ap (λ x. s.ring ++ (x ++ later)) p ∙ fr)),
      ),
      λ e. absurd (cc),
    )

-- A batch is full, or it ends the message.
batch_end :
    (sent len frag bp : ℕ)
    → bp ≡ min (len - sent) 257536
    → sent ≡ 4024 * frag
    → sent < len
    → (sent + bp ≡ 4024 * (frag + nframes bp)) ⊎ (sent + bp ≡ len)
batch_end sent len frag bp e al lt = ground arith

-- The batch that starts at an aligned byte.
with_batch-AfterBatch :
    (old : List (List ℕ)) (r : BatchRound) (c : Call) (free : List ℕ) (s : Batching)
    → length c.bytes ≤ max_len
    → s.sent < length c.bytes
    → Advance old c s
    → AfterBatch old c (with_batch r c free s)
unfolding with_batch
with_batch-AfterBatch old r c [] s len lt a = record {
  bounded = a.bounded;
  aligned = a.aligned;
  frames = a.frames;
}
with_batch-AfterBatch old r c (b ∷ free) s len lt a =
    let bp = batch_payload c s.sent in
    let st = stage r.fault_at c s.sent bp (nframes bp) 0 s.frag_idx in
    elim (Bool-cases st.faulted) [
      | inl h ↦ rw h ((frames_of c s.sent s.frag_idx, a.frames), λ e. absurd (cc))
      | inr h ↦
          let al : s.sent ≡ stream_payload_max * s.frag_idx = omega (arith, a.aligned) in
          let whole =
            stage-frames r.fault_at c s.sent bp (nframes bp) 0 s.frag_idx refl (omega arith) len
              (omega arith) h in
          let start : s.sent + min (0 * 4024) bp ≡ s.sent = omega arith in
          let ends : (s.sent + bp ≡ stream_payload_max * st.frag_idx)
              ⊎ (s.sent + bp ≡ length c.bytes) =
            rw whole.1 (batch_end s.sent (length c.bytes) s.frag_idx bp refl al lt) in
          let fr : s.ring ++ (st.frames ++ frames_of c (s.sent + bp) st.frag_idx)
              ≡ old ++ message_frames c =
            rw whole.1 (
              ap (λ x. s.ring ++ x) (whole.0 ∙ ap (λ k. frames_of c k s.frag_idx) start)
              ∙ a.frames) in
          let (rest, (p, q)) = post-prefix r.refuses_at 0 st.frames in
          rw h (
            settle-AfterBatch old c b bp (post r.refuses_at 0 st.frames).1 st.frames
              (post r.refuses_at 0 st.frames).0 rest
              (record s { free = free; frag_idx = st.frag_idx }) (omega arith) ends fr p q)
    ]

batch_round-AfterBatch :
    (old : List (List ℕ)) (r : BatchRound) (c : Call) (s : Batching)
    → length c.bytes ≤ max_len
    → s.sent < length c.bytes
    → Advance old c s
    → AfterBatch old c (batch_round r c s)
unfolding batch_round
batch_round-AfterBatch old r c s len lt a = elim (Bool-cases (ltb 0 (length (r.during s.free)))) [
  | inl h ↦ rw h (
      with_batch-AfterBatch old r c (r.between (r.during s.free))
        (record s { free = r.during s.free; frames_pending = s.frames_pending - r.completed }) len
        lt (record { bounded = a.bounded; aligned = a.aligned; frames = a.frames }))
  | inr h ↦ rw h ((frames_of c s.sent s.frag_idx, a.frames), λ e. absurd (cc))
]

after_batch-Outcome :
    (old : List (List ℕ)) (c : Call) (go : Batching → Option (Status × Batching))
    (r : Option Status × Batching) (st : Status) (t : Batching)
    → ((u : Batching) → Advance old c u → go u ≡ some (st, t) → Outcome old c st t.ring)
    → AfterBatch old c r
    → after_batch go r ≡ some (st, t)
    → Outcome old c st t.ring
unfolding after_batch
after_batch-Outcome old c go (none, u) st t ih q e = ih u q e
after_batch-Outcome old c go (some status, u) st t ih q e =
    subst (λ r. Outcome old c r.0 r.1.ring) (some-injective _ _ e) q.0

-- Whatever the other threads, the user's memory and the ring do, a throughput send that ends with 0
-- has put the same frames on the ring as a latency send of the message does, behind what was there;
-- one that ends with an error has put some of them there, from the first on. The message is no longer
-- than the longest that the driver accepts, and the send starts in a state that has put a first part
-- of the message's frames on the ring.
pub batch_loop-Outcome :
    (old : List (List ℕ)) (fuel : ℕ) (env : ℕ → BatchRound) (n : ℕ) (c : Call) (s : Batching)
    (st : Status) (t : Batching)
    → length c.bytes ≤ max_len
    → Advance old c s
    → batch_loop fuel env n c s ≡ some (st, t)
    → Outcome old c st t.ring
unfolding batch_loop
batch_loop-Outcome old zero env n c s st t h p e = absurd (cc)
batch_loop-Outcome old (suc fuel) env n c s st t h p e =
    elim (Bool-cases (ltb s.sent (length c.bytes))) [
      | inl more ↦
          after_batch-Outcome old c _ _ st t
            (λ u q. batch_loop-Outcome old fuel env (n + 1) c u st t h q)
            (batch_round-AfterBatch old (env n) c s h (ltb→lt _ _ more) p)
            (rw (more, batch_loop) at e)
      | inr over ↦
          subst (λ r. Outcome old c r.0 r.1.ring) (some-injective _ _ (rw (over, batch_loop) at e))
            (sym (append-nil s.ring)
              ∙ (ap (λ ys. s.ring ++ ys) (sym (all_sent c s.sent s.frag_idx (not-ltb→le _ _ over)))
                  ∙ p.frames))
    ]
