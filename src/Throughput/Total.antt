-- ===== src/Throughput/Total.antt =====
-- When a throughput send of driver/odl_tb5_ring_dma.c ends with 0.
use odin_link_five.Prelude.{
  ℕ, zero, suc, ◌+◌, ◌-◌, ◌*◌, ◌%◌, ◌≤◌, ◌<◌, ◌≡◌, refl, Bool, false, ltb, List, [], ◌∷◌, Option,
  none, some, length, arith, inl, inr, Bool-cases, lt→ltb, ltb→lt, le→not-ltb,
}
use odin_link_five.Errno.{Status, ok}
use odin_link_five.Send.{Call}
use odin_link_five.Throughput.{
  BatchRound, Batching, batch_payload, nframes, stage, post, settle, with_batch, batch_round,
  after_batch, batch_loop,
}

-- A round in which nothing goes wrong: a buffer is free when the sender looks and is still there when
-- it takes the lock, the user's memory can be read, and the ring takes every frame.
pub record IsSmooth (r : BatchRound) : Type 0 where
  pub seen : (f : List ℕ) → 0 < length (r.during f)
  pub there : (f : List ℕ) → 0 < length (r.between (r.during f))
  pub readable : (i : ℕ) → r.fault_at i ≡ false
  pub accepted : (i : ℕ) → r.refuses_at i ≡ false

stage_sound :
    (fault_at : ℕ → Bool) (c : Call) (sent bp k i frag_idx : ℕ)
    → ((j : ℕ) → fault_at j ≡ false)
    → (stage fault_at c sent bp k i frag_idx).faulted ≡ false
unfolding stage
stage_sound fault_at c sent bp zero i frag_idx h = refl
stage_sound fault_at c sent bp (suc k) i frag_idx h =
    rw (h i) (stage_sound fault_at c sent bp k (i + 1) ((frag_idx + 1) % 65536) h)

post_all :
    (refuses_at : ℕ → Bool) (i : ℕ) (fs : List (List ℕ))
    → ((j : ℕ) → refuses_at j ≡ false)
    → (post refuses_at i fs).1 ≡ 0
unfolding post
post_all refuses_at i [] h = refl
post_all refuses_at i (f ∷ fs) h = rw (h i) (post_all refuses_at (i + 1) fs h)

-- What such a round does.
abbrev GoesOn : Call → Batching → Option Status × Batching → Type 0
GoesOn c s r = (r.0 ≡ none) × (r.1.sent ≡ s.sent + batch_payload c s.sent)

settle-GoesOn :
    (b bp left : ℕ) (posted : List (List ℕ)) (s : Batching)
    → left ≡ 0
    → ((settle b bp (posted, left) s).0 ≡ none)
      × ((settle b bp (posted, left) s).1.sent ≡ s.sent + bp)
unfolding settle
settle-GoesOn b bp zero posted s e = (refl, refl)
settle-GoesOn b bp (suc left) posted s e = absurd (omega (arith, e))

with_batch-GoesOn :
    (r : BatchRound) (c : Call) (free : List ℕ) (s : Batching)
    → IsSmooth r
    → 0 < length free
    → GoesOn c s (with_batch r c free s)
unfolding with_batch
with_batch-GoesOn r c [] s k h = absurd (omega (arith, h))
with_batch-GoesOn r c (b ∷ free) s k h =
    let bp = batch_payload c s.sent in
    let st = stage r.fault_at c s.sent bp (nframes bp) 0 s.frag_idx in
    rw (stage_sound r.fault_at c s.sent bp (nframes bp) 0 s.frag_idx k.readable) (
      settle-GoesOn b bp (post r.refuses_at 0 st.frames).1 (post r.refuses_at 0 st.frames).0
        (record s { free = free; frag_idx = st.frag_idx })
        (post_all r.refuses_at 0 st.frames k.accepted))

batch_round-GoesOn :
    (r : BatchRound) (c : Call) (s : Batching) → IsSmooth r → GoesOn c s (batch_round r c s)
unfolding batch_round
batch_round-GoesOn r c s k = rw (lt→ltb _ _ (k.seen s.free)) (
    with_batch-GoesOn r c (r.between (r.during s.free))
      (record s { free = r.during s.free; frames_pending = s.frames_pending - r.completed }) k
      (k.there s.free))

after_batch-none :
    (go : Batching → Option (Status × Batching)) (r : Option Status × Batching)
    → r.0 ≡ none
    → after_batch go r ≡ go r.1
unfolding after_batch
after_batch-none go (none, s) e = refl
after_batch-none go (some st, s) e = absurd (cc)

-- If every round is smooth, a throughput send with fuel for more rounds than its message has buffers
-- left to fill ends with 0.
pub batch_loop-ok :
    (k fuel : ℕ) (env : ℕ → BatchRound) (n : ℕ) (c : Call) (s : Batching)
    → ((j : ℕ) → IsSmooth (env j))
    → length c.bytes - s.sent ≤ 257536 * k
    → k < fuel
    → (t : Batching) × (batch_loop fuel env n c s ≡ some (ok, t))
unfolding batch_loop
batch_loop-ok k zero env n c s h le lt = absurd (omega arith)
batch_loop-ok zero (suc fuel) env n c s h le lt =
    (s, rw (le→not-ltb s.sent (length c.bytes) (omega arith), batch_loop) refl)
batch_loop-ok (suc k) (suc fuel) env n c s h le lt =
    let round = batch_round-GoesOn (env n) c s (h n) in
    elim (Bool-cases (ltb s.sent (length c.bytes))) [
      | inl more ↦
          rw
            (
              more,
              batch_loop,
              after_batch-none (batch_loop fuel env (n + 1) c) (batch_round (env n) c s) round.0,
            )
            (batch_loop-ok k fuel env (n + 1) c _ h (omega (arith, round.1, le, ltb→lt _ _ more))
              (omega arith))
      | inr over ↦ (s, rw (over, batch_loop) refl)
    ]
