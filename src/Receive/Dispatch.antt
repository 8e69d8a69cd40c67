-- ===== src/Receive/Dispatch.antt =====
-- What `odl_tb5_rx_callback` does with a frame: the counters, the slot, and the stream it is for.
use odin_link_five.Prelude.{
  ℕ, ◌+◌, ◌≡◌, refl, ap, ◌∙◌, Bool, true, not, ◌&&◌, if◌then◌else◌, ◌==◌, List, [], arith, dec,
}
use odin_link_five.FramePool.{FramePool}
use odin_link_five.FramePool
use odin_link_five.FramePool.Balance.{IsBalanced, is_taken, put-IsBalanced, bit, put_bits}
use odin_link_five.Stream.{Alloc}
use odin_link_five.Receive.{
  Device, Completion, rx_control, rx_data, recycle, rx_callback, rx_as, Verdict, verdict,
  was_canceled, bad_crc, overran, control, stream_data,
}
use odin_link_five.Receive.Repost.{counters, times, rx_repost-Reposts}

-- Which of the four counters a completion is for, by what the hardware reports of it.
abbrev pub count_of : Completion → ℕ × ℕ × ℕ × ℕ
count_of c = (
  bit c.canceled,
  bit (not c.canceled && c.crc_error),
  bit (not c.canceled && not c.crc_error && c.overrun),
  bit (not c.canceled && not c.crc_error && not c.overrun),
)

-- The slot of the frame is given back, those that are posted are taken, and no others; one counter
-- goes up, the one for this completion.
pub record Accounts (c : Completion) (d : Device) (posted : List ℕ) (t : Device) : Type 0 where
  pub balanced : IsBalanced t.pool
  pub slots :
      (j : ℕ)
      → bit (is_taken d.pool j) + times j posted
        ≡ bit (is_taken t.pool j) + (if c.slot == j then 1 else 0)
  pub canceled : t.rx_canceled ≡ d.rx_canceled + (count_of c).0
  pub crc : t.rx_err_crc ≡ d.rx_err_crc + (count_of c).1
  pub overrun : t.rx_err_overrun ≡ d.rx_err_overrun + (count_of c).2
  pub good : t.rx_frames_ok ≡ d.rx_frames_ok + (count_of c).3

-- The counters go up by what a verdict says.
abbrev counted_as : Verdict → ℕ × ℕ × ℕ × ℕ
counted_as was_canceled = (1, 0, 0, 0)
counted_as bad_crc = (0, 1, 0, 0)
counted_as overran = (0, 0, 1, 0)
counted_as control = (0, 0, 0, 1)
counted_as stream_data = (0, 0, 0, 1)

verdict_counts : (c : Completion) → counted_as (verdict c) ≡ count_of c
unfolding verdict
verdict_counts c = ground arith

-- What is done after the counting.
pub record Recycles (c : Completion) (d : Device) (n : ℕ × ℕ × ℕ × ℕ) (posted : List ℕ) (t : Device)
    : Type 0 where
  pub balanced : IsBalanced t.pool
  pub slots :
      (j : ℕ)
      → bit (is_taken d.pool j) + times j posted
        ≡ bit (is_taken t.pool j) + (if c.slot == j then 1 else 0)
  pub counts :
      counters t
      ≡ (d.rx_canceled + n.0, d.rx_err_crc + n.1, d.rx_err_overrun + n.2, d.rx_frames_ok + n.3)

recycle-Recycles :
    (accepts : ℕ → Bool) (c : Completion) (d e : Device)
    → e.pool ≡ d.pool
    → counters e ≡ (d.rx_canceled + 0, d.rx_err_crc + 0, d.rx_err_overrun + 0, d.rx_frames_ok + 1)
    → is_taken d.pool c.slot ≡ true
    → IsBalanced d.pool
    → Recycles c d (0, 0, 0, 1) (recycle accepts c e).0 (recycle accepts c e).1
unfolding recycle
recycle-Recycles accepts c d e p k t v =
    let same = ap (λ q. FramePool.put q c.slot) p in
    let b = put-IsBalanced e.pool c.slot (rw p t) (rw p v) in
    let r = rx_repost-Reposts accepts (record e { pool = FramePool.put e.pool c.slot }) b.0 in
    record {
      balanced = r.balanced;
      slots = λ j.
          omega (arith, put_bits d.pool c.slot t v j, ap (λ q. bit (is_taken q j)) same, r.slots j);
      counts = r.same ∙ k;
    }

freed-Recycles :
    (c : Completion) (d e : Device) (n : ℕ × ℕ × ℕ × ℕ)
    → e.pool ≡ FramePool.put d.pool c.slot
    → counters e
      ≡ (d.rx_canceled + n.0, d.rx_err_crc + n.1, d.rx_err_overrun + n.2, d.rx_frames_ok + n.3)
    → is_taken d.pool c.slot ≡ true
    → IsBalanced d.pool
    → Recycles c d n [] e
freed-Recycles c d e n p k t v =
    let b = put-IsBalanced d.pool c.slot t v in
    record {
      balanced = rw p b.0;
      slots = λ j. omega (arith, put_bits d.pool c.slot t v j, ap (λ q. bit (is_taken q j)) p);
      counts = k;
    }

-- The device with one more accepted frame.
abbrev ok_more : Device → Device
ok_more d = record d { rx_frames_ok = d.rx_frames_ok + 1 }

control-counters : (c : Completion) (d : Device) → counters (rx_control c d) ≡ counters d
unfolding rx_control
control-counters c d = ground arith

data-counters : (a : Alloc) (c : Completion) (d : Device) → counters (rx_data a c d) ≡ counters d
unfolding rx_data
data-counters a c d = ground arith

control-pool : (c : Completion) (d : Device) → (rx_control c d).pool ≡ d.pool
unfolding rx_control
control-pool c d = ground arith

data-pool : (a : Alloc) (c : Completion) (d : Device) → (rx_data a c d).pool ≡ d.pool
unfolding rx_data
data-pool a c d = ground arith

rx_as-Recycles :
    (w : Verdict) (accepts : ℕ → Bool) (a : Alloc) (c : Completion) (d : Device)
    → is_taken d.pool c.slot ≡ true
    → IsBalanced d.pool
    → Recycles c d (counted_as w) (rx_as w accepts a c d).0 (rx_as w accepts a c d).1
unfolding rx_as
rx_as-Recycles was_canceled accepts a c d t v =
    freed-Recycles c d _ (1, 0, 0, 0) refl (ground arith) t v
rx_as-Recycles bad_crc accepts a c d t v = freed-Recycles c d _ (0, 1, 0, 0) refl (ground arith) t v
rx_as-Recycles overran accepts a c d t v = freed-Recycles c d _ (0, 0, 1, 0) refl (ground arith) t v
rx_as-Recycles control accepts a c d t v =
    recycle-Recycles accepts c d _ (control-pool c _)
      (control-counters c (ok_more d) ∙ ground arith) t v
rx_as-Recycles stream_data accepts a c d t v =
    recycle-Recycles accepts c d _ (data-pool a c _) (data-counters a c (ok_more d) ∙ ground arith)
      t v

-- Every frame of the pool that completes is counted in exactly one of the four counters, the one for
-- a canceled frame, a CRC error, an overrun or a good frame, and the other three stay, on every
-- branch of the callback. Its slot goes back to the pool and the slots posted in its stead are taken,
-- slot by slot: what was taken and what was posted is what is taken now and that slot. The pool stays
-- balanced. The pool is balanced before, and the frame's slot is taken.
pub rx_callback-Accounts :
    (accepts : ℕ → Bool) (a : Alloc) (c : Completion) (d : Device)
    → is_taken d.pool c.slot ≡ true
    → IsBalanced d.pool
    → Accounts c d (rx_callback accepts a c d).0 (rx_callback accepts a c d).1
unfolding rx_callback
rx_callback-Accounts accepts a c d t v =
    let r = rx_as-Recycles (verdict c) accepts a c (record d { rx_posted = dec d.rx_posted }) t v in
    let n = verdict_counts c in
    record {
      balanced = r.balanced;
      slots = r.slots;
      canceled = ap (λ x. x.0) r.counts ∙ ap (λ x. d.rx_canceled + x.0) n;
      crc = ap (λ x. x.1) r.counts ∙ ap (λ x. d.rx_err_crc + x.1) n;
      overrun = ap (λ x. x.2) r.counts ∙ ap (λ x. d.rx_err_overrun + x.2) n;
      good = ap (λ x. x.3) r.counts ∙ ap (λ x. d.rx_frames_ok + x.3) n;
    }
