-- ===== src/Transmit/Outcomes.antt =====
-- What `odl_tb5_stream_send` of driver/odl_tb5_ring_dma.c leaves on the ring, in either mode.
use odin_link_five.Prelude.{
  ℕ, ◌*◌, ◌≤◌, ◌<◌, ◌≡◌, ◌≢◌, refl, ap, subst, Bool, true, false, ◌||◌, ltb, ◌==◌, List, Option,
  none, some, length, arith, Bool-cases, inl, inr, ==_iff,
}
use mathlib.Core.Option.{some-injective}
use odin_link_five.Errno.{Errno, Status, ok, fail}
use odin_link_five.Wire.{stream_payload_max}
use odin_link_five.TxMode.{TxMode, latency, throughput, TxAdaptive}
use odin_link_five.Send.{Sending, Call}
use odin_link_five.Send.Prefix.{Outcome, max_len, message_frames, send_loop-Outcome}
use odin_link_five.Throughput.{Batching}
use odin_link_five.Throughput.Same.{batch_loop-Outcome}
use odin_link_five.Transmit.{Meeting, ring_of, batch_ring_of, send_in, stream_send}

ring_of-Outcome :
    (old : List (List ℕ)) (c : Call) (r : Option (Status × Sending)) (st : Status)
    (ring : List (List ℕ))
    → ((s : Sending) → r ≡ some (st, s) → Outcome old c st s.ring)
    → ring_of r ≡ some (st, ring)
    → Outcome old c st ring
ring_of-Outcome old c none st ring h e = absurd (cc)
ring_of-Outcome old c (some (st', s)) st ring h e =
    let p = some-injective _ _ e in
    let same : st' ≡ st = ap (λ x. x.0) p in
    subst (Outcome old c st) (ap (λ x. x.1) p) (h s (ap (λ x. some (x, s)) same))

batch_ring_of-Outcome :
    (old : List (List ℕ)) (c : Call) (r : Option (Status × Batching)) (st : Status)
    (ring : List (List ℕ))
    → ((s : Batching) → r ≡ some (st, s) → Outcome old c st s.ring)
    → batch_ring_of r ≡ some (st, ring)
    → Outcome old c st ring
batch_ring_of-Outcome old c none st ring h e = absurd (cc)
batch_ring_of-Outcome old c (some (st', s)) st ring h e =
    let p = some-injective _ _ e in
    let same : st' ≡ st = ap (λ x. x.0) p in
    subst (Outcome old c st) (ap (λ x. x.1) p) (h s (ap (λ x. some (x, s)) same))

-- A send that fails before its loop leaves all frames of the message to come.
failed :
    (old : List (List ℕ)) (c : Call) (x st : Status) (ring : List (List ℕ))
    → Outcome old c x old
    → ◌≡◌ {A = Option (Status × List (List ℕ))} (some (x, old)) (some (st, ring))
    → Outcome old c st ring
failed old c x st ring h e = subst (λ r. Outcome old c r.0 r.1) (some-injective _ _ e) h

not_ok :
    (old : List (List ℕ)) (x : Errno) (st : Status) (ring : List (List ℕ))
    → ◌≡◌ {A = Option (Status × List (List ℕ))} (some (fail x, old)) (some (st, ring))
    → st ≢ ok
not_ok old x st ring h z = let e : fail x ≡ st = ap (λ r. r.0) (some-injective _ _ h) in absurd (cc)

send_in-Outcome :
    (m : TxMode) (e : Meeting) (c : Call) (old ring : List (List ℕ)) (st : Status)
    → length c.bytes ≤ max_len
    → send_in m e c old ≡ some (st, ring)
    → Outcome old c st ring
unfolding send_in
send_in-Outcome latency e c old ring st len h = elim (Bool-cases e.served) [
  | inl s ↦
      ring_of-Outcome old c _ st ring
        (λ t q.
          send_loop-Outcome old e.fuel e.rounds 0 c _ st t len
            (record { bounded = omega arith; aligned = inl refl; frames = refl }) q)
        (rw s at h)
  | inr s ↦ failed old c _ st ring (message_frames c, refl) (rw s at h)
]
send_in-Outcome throughput e c old ring st len h = elim (Bool-cases e.served) [
  | inl s ↦
      batch_ring_of-Outcome old c _ st ring
        (λ t q.
          batch_loop-Outcome old e.fuel e.batch_rounds 0 c _ st t len
            (record { bounded = omega arith; aligned = inl refl; frames = refl }) q)
        (rw s at h)
  | inr s ↦ failed old c _ st ring (message_frames c, refl) (rw s at h)
]

accepted_len :
    (n : ℕ)
    → (n == 0 || ltb (stream_payload_max * 4096) n) ≡ false
    → (0 < n) × (n ≤ stream_payload_max * 4096)
accepted_len n h = ground (arith, ==_iff n 0)

-- In either mode, and whatever it meets, a send that returns 0 has put exactly the frames of its
-- message on the ring, behind what was there, and one that returns an error has put some of them
-- there, from the first on, or none. It returns 0 only if the link is ready and the message is not
-- empty.
pub stream_send-Outcome :
    (is_ready : Bool) (e : Meeting) (c : Call) (t : TxAdaptive) (old ring : List (List ℕ))
    (st : Status)
    → (stream_send is_ready e c t old).0 ≡ some (st, ring)
    → Outcome old c st ring × (st ≡ ok → (is_ready ≡ true) × (0 < length c.bytes))
unfolding stream_send
stream_send-Outcome is_ready e c t old ring st h = elim (Bool-cases is_ready) [
  | inr idle ↦ (
    failed old c _ st ring (message_frames c, refl) (rw idle at h),
    λ z. absurd (not_ok old _ st ring (rw idle at h) z),
  )
  | inl up ↦
      elim (Bool-cases (length c.bytes == 0 || ltb (stream_payload_max * 4096) (length c.bytes))) [
        | inl bad ↦ (
          failed old c _ st ring (message_frames c, refl) (rw (up, bad) at h),
          λ z. absurd (not_ok old _ st ring (rw (up, bad) at h) z),
        )
        | inr good ↦ (
          send_in-Outcome _ e c old ring st (accepted_len (length c.bytes) good).1
              (rw (up, good) at h),
          λ z. (up, (accepted_len (length c.bytes) good).0),
        )
      ]
]
