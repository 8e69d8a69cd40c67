-- ===== src/TxMode/Hysteresis.antt =====
-- The hysteresis of `odl_tb5_evaluate_tx_mode` in driver/odl_tb5_ring_dma.c.
use odin_link_five.Prelude.{ℕ, ◌+◌, ◌≤◌, ◌<◌, ◌≡◌, ap, ◌∙◌, true, List, [], ◌∷◌, arith, length}
use odin_link_five.TxMode.{
  latency, throughput, TxAdaptive, Load, throughput_thresh, mode_hysteresis, update_tx_watermarks,
  step_up, step_down, step_from, evaluate_tx_mode,
}

-- For every ring depth from 64 to 16384, the low watermark is above 0 and below the high one.
pub update_tx_watermarks-band :
    (ring_size : ℕ) (t : TxAdaptive)
    → 64 ≤ ring_size
    → ring_size ≤ 16384
    → (0 < (update_tx_watermarks ring_size t).low_watermark)
      × ((update_tx_watermarks ring_size t).low_watermark
          < (update_tx_watermarks ring_size t).high_watermark)
unfolding update_tx_watermarks
update_tx_watermarks-band n t lo hi = omega arith

-- The sends in order; the last state.
unfoldable pub evaluate_all : List Load → TxAdaptive → TxAdaptive
evaluate_all [] t = t
evaluate_all (l ∷ ls) t = evaluate_all ls (evaluate_tx_mode l t).1

-- A send that counts towards the step down.
abbrev pub IsLow : ℕ → Load → Type 0
IsLow low l = (l.has_batches ≡ true) × (l.msg_len ≤ throughput_thresh) × (l.pool_used < low)

abbrev pub AllLow : ℕ → List Load → Type 0
AllLow low [] = Unit {0}
AllLow low (l ∷ ls) = IsLow low l × AllLow low ls

low_step :
    (l : Load) (t : TxAdaptive)
    → IsLow t.low_watermark l
    → t.mode ≡ throughput
    → t.consecutive_low + 1 < 4
    → (evaluate_tx_mode l t).1 ≡ record t { consecutive_low = t.consecutive_low + 1 }
unfolding evaluate_tx_mode step_from step_down
low_step l t h m k = ground arith

last_step :
    (l : Load) (t : TxAdaptive)
    → IsLow t.low_watermark l
    → t.mode ≡ throughput
    → t.consecutive_low + 1 ≡ 4
    → (evaluate_tx_mode l t).1 ≡ record t { mode = latency; consecutive_low = 0 }
unfolding evaluate_tx_mode step_from step_down
last_step l t h m k = ground arith

-- In the throughput mode, a row of at least one small send at low load, with the batch pool there,
-- leaves it for the latency mode when it makes the count four; if it makes the count less, all are
-- counted and the mode stays.
pub evaluate_all-low :
    (l : Load) (ls : List Load) (t : TxAdaptive)
    → AllLow t.low_watermark (l ∷ ls)
    → t.mode ≡ throughput
    → (t.consecutive_low + length (l ∷ ls) < mode_hysteresis
        → evaluate_all (l ∷ ls) t
          ≡ record t { consecutive_low = t.consecutive_low + length (l ∷ ls) })
      × (t.consecutive_low + length (l ∷ ls) ≡ mode_hysteresis
          → evaluate_all (l ∷ ls) t ≡ record t { mode = latency; consecutive_low = 0 })
unfolding evaluate_all
evaluate_all-low l [] t h m =
    ((λ k. low_step l t h.0 m (omega arith)), (λ k. last_step l t h.0 m (omega arith)))
evaluate_all-low l (e ∷ ls) t h m =
    let u = record t { consecutive_low = t.consecutive_low + 1 } in
    let ih = evaluate_all-low e ls u h.1 m in
    (
      (λ k.
          rw (low_step l t h.0 m (omega arith))
            (ih.0 (omega arith) ∙ ap (λ n. record t { consecutive_low = n }) (omega arith))),
      (λ k. rw (low_step l t h.0 m (omega arith)) (ih.1 (omega arith))),
    )

-- From a count below four, a send leaves the count below four, and it leaves the throughput mode for
-- the latency mode only if the batch pool is there, it is small, finds the load low, and three in a
-- row were counted before it.
pub evaluate_tx_mode-down :
    (l : Load) (t : TxAdaptive)
    → t.consecutive_low < mode_hysteresis
    → ((evaluate_tx_mode l t).1.consecutive_low < mode_hysteresis)
      × (t.mode ≡ throughput
          → (evaluate_tx_mode l t).1.mode ≡ latency
          → IsLow t.low_watermark l × (t.consecutive_low ≡ 3))
unfolding evaluate_tx_mode step_from step_up step_down
evaluate_tx_mode-down l t h = ground arith
