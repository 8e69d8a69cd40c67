-- ===== src/Throughput/Buffer.antt =====
-- One buffer of the batch pool in driver/odl_tb5_ring_dma.c: the count of its frames, which
-- `odl_tb5_stream_send_throughput` arms and, when the ring refuses a frame, corrects, and which
-- `odl_tb5_tx_batch_callback` counts down.
use odin_link_five.Prelude.{
  ℕ, zero, suc, ◌-◌, ◌≤◌, ◌<◌, ◌≡◌, refl, ap, ◌∙◌, Bool, true, false, ◌==◌, if◌then◌else◌, arith,
  ==_iff,
}

-- `is_free` says that the buffer is on the free list.
pub record BatchBuf : Type 0 where
  pub frames_pending : ℕ
  pub is_free : Bool

-- "Arm completion tracking before submission".
unfoldable pub arm : ℕ → BatchBuf → BatchBuf
arm nframes b = record b { frames_pending = nframes }

-- `odl_tb5_tx_batch_callback`, for the buffer.
unfoldable pub batch_callback : BatchBuf → BatchBuf
batch_callback b =
    if b.frames_pending == 1
    then record { frames_pending = 0; is_free = true }
    else record b { frames_pending = b.frames_pending - 1 }

-- What a refusal at frame `i` of `nframes` does to the buffer.
unfoldable pub refuse_at : ℕ → ℕ → BatchBuf → BatchBuf
refuse_at i nframes b = record {
  frames_pending = b.frames_pending - (nframes - i);
  is_free = if i == 0 then true else b.is_free;
}

unfoldable pub callbacks : ℕ → BatchBuf → BatchBuf
unfolding batch_callback
callbacks zero b = b
callbacks (suc k) b = callbacks k (batch_callback b)

batch_callback-one :
    (n : ℕ)
    → 1 < n
    → batch_callback (record { frames_pending = n; is_free = false })
      ≡ record { frames_pending = n - 1; is_free = false }
unfolding batch_callback
batch_callback-one n h = ground (arith, ==_iff n 1)

batch_callback-last :
    batch_callback (record { frames_pending = 1; is_free = false })
    ≡ record { frames_pending = 0; is_free = true }
unfolding batch_callback
batch_callback-last = refl

callbacks-short :
    (k n : ℕ)
    → k < n
    → callbacks k (record { frames_pending = n; is_free = false })
      ≡ record { frames_pending = n - k; is_free = false }
unfolding callbacks
callbacks-short zero n h = ap (λ m. record { frames_pending = m; is_free = false }) (omega arith)
callbacks-short (suc k) n h =
    ap (callbacks k) (batch_callback-one n (omega arith))
    ∙ (callbacks-short k (n - 1) (omega arith)
        ∙ ap (λ m. record { frames_pending = m; is_free = false }) (omega arith))

callbacks-all :
    (n : ℕ)
    → 0 < n
    → callbacks n (record { frames_pending = n; is_free = false })
      ≡ record { frames_pending = 0; is_free = true }
unfolding callbacks
callbacks-all zero h = absurd (omega (arith, h))
callbacks-all (suc zero) h = batch_callback-last
callbacks-all (suc (suc k)) h =
    ap (callbacks (suc k)) (batch_callback-one (suc (suc k)) (omega arith))
    ∙ (ap (λ m. callbacks (suc k) (record { frames_pending = m; is_free = false })) (omega arith)
        ∙ callbacks-all (suc k) (omega arith))

-- Of a buffer in use the ring took `i` frames, more than none and fewer than all. If the refusal is
-- counted before the callbacks of the frames taken, the last of these frees the buffer; if all
-- callbacks come first, no frame is left pending and the buffer is not free: nothing will put it
-- back.
pub refuse_at-order :
    (i n : ℕ) (b : BatchBuf)
    → 0 < i
    → i < n
    → b.is_free ≡ false
    → (callbacks i (refuse_at i n (arm n b)) ≡ record { frames_pending = 0; is_free = true })
      × (refuse_at i n (callbacks i (arm n b)) ≡ record { frames_pending = 0; is_free = false })
unfolding refuse_at arm
refuse_at-order i n b p h f =
    let some_taken : (i == 0) ≡ false = ground (arith, ==_iff i 0) in
    let left : n - (n - i) ≡ i = omega arith in
    let gone : n - i - (n - i) ≡ 0 = omega arith in
    (
      rw (f, some_taken, left) (callbacks-all i p),
      rw (f, callbacks-short i n h, some_taken, gone) refl,
    )

-- When the ring takes all frames of a buffer in use, at least one, the last callback and none before
-- it frees the buffer.
pub callbacks-free :
    (k n : ℕ) (b : BatchBuf)
    → 0 < n
    → k ≤ n
    → b.is_free ≡ false
    → (k < n → (callbacks k (arm n b)).is_free ≡ false)
      × (k ≡ n → callbacks k (arm n b) ≡ record { frames_pending = 0; is_free = true })
unfolding arm
callbacks-free k n b p h f =
    ((λ l. rw (f, callbacks-short k n l) refl), (λ e. rw (f, e) (callbacks-all n p)))
