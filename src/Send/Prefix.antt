-- ===== src/Send/Prefix.antt =====
-- What has reached the ring when a send ends: the frames that the message should be cut into, or
-- some of them from the first on.
use odin_link_five.Prelude.{
  ℕ, zero, suc, ◌+◌, ◌*◌, ◌-◌, ◌%◌, ◌≤◌, ◌<◌, ◌≡◌, ◌≢◌, refl, ap, sym, ◌∙◌, ltb, List, [], ◌∷◌,
  ◌++◌, append_assoc, append-nil, Option, none, some, length, take, drop, drop-add, drop-all, min,
  arith, length-drop, ◌⊎◌, inl, inr, Bool-cases, ltb→lt, not-ltb→le, subst,
}
use native.Mathlib.Nat.{add_comm}
use mathlib.Core.Path.{ap₂}
use mathlib.Core.Option.{some-injective}
use native.Mathlib.Decide.{dec_le}
use odin_link_five.Errno.{Status, ok, fail}
use odin_link_five.Wire.{stream_payload_max}
use odin_link_five.FramePool.{tx_pool_reserve}
use odin_link_five.Send.Chunks.{
  chunks, wire_frames, chunks_step, wire_frames-cons, drop-min, built_frame,
}
use odin_link_five.Send.{
  Round, Sending, Call, payload_size, build_frame, fill_slot, with_slot, send_round, after_round,
  send_loop,
}

-- The frames of the bytes from `sent` on, the first of them with index `i`.
abbrev pub frames_of : Call → ℕ → ℕ → List (List ℕ)
frames_of c sent i =
    wire_frames c.src_id c.dst_id i (chunks stream_payload_max (length c.bytes) (drop sent c.bytes))

-- The frames of the whole message.
abbrev pub message_frames : Call → List (List ℕ)
message_frames c = frames_of c 0 0

-- How far a send that goes well has come, from a ring that held `old`.
pub record Progress (old : List (List ℕ)) (c : Call) (s : Sending) : Type 0 where
  pub bounded : s.sent ≤ length c.bytes
  pub aligned : (s.sent ≡ stream_payload_max * s.frag_idx) ⊎ (s.sent ≡ length c.bytes)
  pub frames : s.ring ++ frames_of c s.sent s.frag_idx ≡ old ++ message_frames c

-- The next frame of the message is the one that the loop builds.
pub frames_of-step :
    (c : Call) (s : Sending)
    → s.sent < length c.bytes
    → s.sent ≡ stream_payload_max * s.frag_idx
    → frames_of c s.sent s.frag_idx
      ≡ build_frame c s ∷ frames_of c (s.sent + payload_size c s) (s.frag_idx + 1)
unfolding build_frame
frames_of-step c s lt al =
    ap (wire_frames c.src_id c.dst_id s.frag_idx) cut
    ∙ (wire_frames-cons c.src_id c.dst_id s.frag_idx (take m xs) _
        ∙ ap₂ ◌∷◌
            (sym (built_frame m c.src_id c.dst_id s.frag_idx s.sent c.bytes (omega arith) lt al))
            (ap
              (λ ys. wire_frames c.src_id c.dst_id (s.frag_idx + 1) (chunks m (length c.bytes) ys))
              rest))
  where
    m : ℕ
    m = stream_payload_max

    xs : List ℕ
    xs = drop s.sent c.bytes

    cut : chunks m (length c.bytes) xs ≡ take m xs ∷ chunks m (length c.bytes) (drop m xs)
    cut =
        chunks_step m (length c.bytes) xs (omega arith) (omega (arith, length-drop s.sent c.bytes))
          (omega (arith, length-drop s.sent c.bytes))

    rest : drop m xs ≡ drop (s.sent + payload_size c s) c.bytes
    rest =
        sym (drop-min m xs)
        ∙ (rw (length-drop s.sent c.bytes) refl
            ∙ drop-add s.sent (payload_size c s) c.bytes
            ∙ ap (λ k. drop k c.bytes) (add_comm (payload_size c s) s.sent))

-- What the ring `ring` holds of the message when a send that began with `old` ends.
abbrev pub Outcome : List (List ℕ) → Call → Status → List (List ℕ) → Type 0
Outcome old c ok ring = ring ≡ old ++ message_frames c
Outcome old c (fail e) ring = (rest : List (List ℕ)) × (ring ++ rest ≡ old ++ message_frames c)

-- What one round makes of a send that goes well: it ends with an outcome, or goes on well.
abbrev AfterRound : List (List ℕ) → Call → Option Status × Sending → Type 0
AfterRound old c (none, t) = Progress old c t
AfterRound old c (some st, t) = Outcome old c st t.ring × (st ≢ ok)

-- The longest message that `odl_tb5_stream_send` accepts.
abbrev pub max_len : ℕ
max_len = stream_payload_max * 4096

same_ring :
    (old : List (List ℕ)) (c : Call) (s t : Sending)
    → t.ring ≡ s.ring
    → t.sent ≡ s.sent
    → t.frag_idx ≡ s.frag_idx
    → Progress old c s
    → Progress old c t
same_ring old c s t e f g p = record {
  bounded = omega (arith, p.bounded, f);
  aligned = rw (f, g) p.aligned;
  frames = rw (e, f, g) p.frames;
}

pub Stops :
    (sent len sent' i' i : ℕ)
    → sent ≡ stream_payload_max * i
    → sent < len
    → sent' ≡ sent + min (len - sent) stream_payload_max
    → i' ≡ i + 1
    → (sent' ≡ stream_payload_max * i') ⊎ (sent' ≡ len)
Stops sent len sent' i' i al lt f g = elim (dec_le (sent + stream_payload_max) len) [
  | yes more ↦ inl (omega arith)
  | no less ↦ inr (omega arith)
]

sent_more :
    (old : List (List ℕ)) (c : Call) (s t : Sending)
    → length c.bytes ≤ max_len
    → s.sent < length c.bytes
    → t.ring ≡ s.ring ++ build_frame c s ∷ []
    → t.sent ≡ s.sent + payload_size c s
    → t.frag_idx ≡ (s.frag_idx + 1) % 65536
    → Progress old c s
    → Progress old c t
sent_more old c s t h lt e f g p = elim p.aligned [
  | inl al ↦
      let i : t.frag_idx ≡ s.frag_idx + 1 = omega (arith, g, al) in
      record {
        bounded = omega (arith, f);
        aligned = Stops s.sent (length c.bytes) t.sent t.frag_idx s.frag_idx al lt f i;
        frames =
            rw (e, f, i)
              (append_assoc s.ring (build_frame c s ∷ []) _
                ∙ (ap (λ ys. s.ring ++ ys) (sym (frames_of-step c s lt al)) ∙ p.frames));
      }
  | inr end ↦ absurd (omega arith)
]

fill_slot-AfterRound :
    (old : List (List ℕ)) (c : Call) (r : Round) (i : ℕ) (s : Sending)
    → length c.bytes ≤ max_len
    → s.sent < length c.bytes
    → Progress old c s
    → AfterRound old c (fill_slot r c i s)
unfolding fill_slot
fill_slot-AfterRound old c r i s h lt p = elim (Bool-cases r.copy_fault) [
  | inl fault ↦ rw fault (((frames_of c s.sent s.frag_idx, p.frames)), (λ e. cc))
  | inr fine ↦ elim (Bool-cases r.ring_refuses) [
    | inl refused ↦ rw (fine, refused) (((frames_of c s.sent s.frag_idx, p.frames)), (λ e. cc))
    | inr taken ↦ rw (fine, taken) (sent_more old c s _ h lt refl refl refl p)
  ]
]

with_slot-AfterRound :
    (old : List (List ℕ)) (c : Call) (r : Round) (got : Option ℕ) (s : Sending)
    → length c.bytes ≤ max_len
    → s.sent < length c.bytes
    → Progress old c s
    → AfterRound old c (with_slot r c got s)
unfolding with_slot
with_slot-AfterRound old c r none s h lt p = p
with_slot-AfterRound old c r (some i) s h lt p = fill_slot-AfterRound old c r i s h lt p

send_round-AfterRound :
    (old : List (List ℕ)) (c : Call) (r : Round) (s : Sending)
    → length c.bytes ≤ max_len
    → s.sent < length c.bytes
    → Progress old c s
    → AfterRound old c (send_round r c s)
unfolding send_round
send_round-AfterRound old c r s h lt p =
    elim (Bool-cases (ltb tx_pool_reserve (r.during s.pool).free_count)) [
      | inl room ↦
          rw room (with_slot-AfterRound old c r _ _ h lt (same_ring old c s _ refl refl refl p))
      | inr full ↦ rw full ((frames_of c s.sent s.frag_idx, p.frames), λ e. cc)
    ]

none_left :
    (c : Call) (i f : ℕ) → wire_frames c.src_id c.dst_id i (chunks stream_payload_max f []) ≡ []
unfolding wire_frames chunks
none_left c i zero = refl
none_left c i (suc f) = refl

pub all_sent : (c : Call) (sent i : ℕ) → length c.bytes ≤ sent → frames_of c sent i ≡ []
unfolding wire_frames chunks
all_sent c sent i h = rw (drop-all sent c.bytes h) (none_left c i (length c.bytes))

after_round-Outcome :
    (old : List (List ℕ)) (c : Call) (go : Sending → Option (Status × Sending))
    (r : Option Status × Sending) (st : Status) (t : Sending)
    → ((u : Sending) → Progress old c u → go u ≡ some (st, t) → Outcome old c st t.ring)
    → AfterRound old c r
    → after_round go r ≡ some (st, t)
    → Outcome old c st t.ring
unfolding after_round
after_round-Outcome old c go (none, u) st t ih q e = ih u q e
after_round-Outcome old c go (some status, u) st t ih q e =
    subst (λ r. Outcome old c r.0 r.1.ring) (some-injective _ _ e) q.0

-- Whatever the other threads, the user's memory and the ring do, a send that ends with 0 has put
-- exactly the frames of its message on the ring, behind what was there; one that ends with an error
-- has put some of them there, from the first on. The message is no longer than the longest that the
-- driver accepts, and the send starts in a state that has put a first part of the message's frames on
-- the ring.
pub send_loop-Outcome :
    (old : List (List ℕ)) (fuel : ℕ) (env : ℕ → Round) (n : ℕ) (c : Call) (s : Sending)
    (st : Status) (t : Sending)
    → length c.bytes ≤ max_len
    → Progress old c s
    → send_loop fuel env n c s ≡ some (st, t)
    → Outcome old c st t.ring
unfolding send_loop
send_loop-Outcome old zero env n c s st t h p e = absurd (cc)
send_loop-Outcome old (suc fuel) env n c s st t h p e =
    elim (Bool-cases (ltb s.sent (length c.bytes))) [
      | inl more ↦
          after_round-Outcome old c _ _ st t
            (λ u q. send_loop-Outcome old fuel env (n + 1) c u st t h q)
            (send_round-AfterRound old c (env n) s h (ltb→lt _ _ more) p)
            (rw (more, send_loop) at e)
      | inr done ↦
          subst (λ r. Outcome old c r.0 r.1.ring) (some-injective _ _ (rw (done, send_loop) at e))
            (sym (append-nil s.ring)
              ∙ (ap (λ ys. s.ring ++ ys) (sym (all_sent c s.sent s.frag_idx (not-ltb→le _ _ done)))
                  ∙ p.frames))
    ]
