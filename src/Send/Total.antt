-- ===== src/Send/Total.antt =====
-- When a send of driver/odl_tb5_ring_dma.c ends with 0.
use odin_link_five.Prelude.{
  ℕ, zero, suc, ◌+◌, ◌*◌, ◌-◌, ◌≤◌, ◌<◌, ◌≡◌, refl, sym, ◌∙◌, Bool, true, false, ltb, List, [], ◌∷◌,
  Option, none, some, length, set, get_or, arith, inl, inr, Bool-cases, ltb→lt, lt→ltb, le→not-ltb,
}
use odin_link_five.Errno.{Status, ok}
use odin_link_five.Wire.{stream_payload_max}
use odin_link_five.FramePool.{FramePool, Slot, tx_pool_reserve}
use odin_link_five.FramePool.Balance.{IsBalanced, Agree, is_taken, get_lem}
use odin_link_five.Send.{
  Round, Sending, Call, payload_size, own_slot, fill_slot, with_slot, send_round, after_round,
  send_loop,
}

-- A round in which nothing goes wrong: whatever the others do, the pool stays balanced, has more
-- than the reserve when the sender looks, and is not emptied before the sender takes its lock; the
-- user's memory can be read and the ring takes the frame.
pub record IsCalm (r : Round) : Type 0 where
  pub balanced : (p : FramePool) → IsBalanced p → IsBalanced (r.between (r.during p))
  pub room : (p : FramePool) → IsBalanced p → tx_pool_reserve < (r.during p).free_count
  pub left : (p : FramePool) → IsBalanced p → 0 < (r.between (r.during p)).free_count
  pub readable : r.copy_fault ≡ false
  pub accepted : r.ring_refuses ≡ false

Agree-set_taken :
    (b : List Bool) (ss : List Slot) (i : ℕ) (s : Slot)
    → s.in_use ≡ true
    → get_or b i false ≡ true
    → Agree b ss
    → Agree b (set ss i s)
Agree-set_taken [] [] i s u t a = tt
Agree-set_taken [] (x ∷ ss) i s u t a = absurd a
Agree-set_taken (x ∷ b) [] i s u t a = absurd a
Agree-set_taken (x ∷ b) (y ∷ ss) zero s u t a = (u ∙ sym t, a.1)
Agree-set_taken (x ∷ b) (y ∷ ss) (suc i) s u t a = (a.0, Agree-set_taken b ss i s u t a.1)

own_slot-IsBalanced :
    (p : FramePool) (i m : ℕ) → is_taken p i ≡ true → IsBalanced p → IsBalanced (own_slot p i m)
unfolding own_slot
own_slot-IsBalanced p i m t v = record {
  bits = v.bits;
  agree = Agree-set_taken p.bitmap p.slots i _ refl t v.agree;
  count = v.count;
}

-- A calm round sends one payload and goes on.
record Sends (c : Call) (s t : Sending) : Type 0 where
  sent : t.sent ≡ s.sent + payload_size c s
  balanced : IsBalanced t.pool

calm_round :
    (r : Round) (c : Call) (s : Sending)
    → IsCalm r
    → IsBalanced s.pool
    → ((send_round r c s).0 ≡ none) × Sends c s (send_round r c s).1
unfolding send_round with_slot fill_slot
calm_round r c s k v = elim (get_lem (r.between (r.during s.pool)) (k.balanced s.pool v)) [
  | inl (empty, _) ↦ absurd (omega (arith, empty, k.left s.pool v))
  | inr (_, (i, (q, (got, g)))) ↦
      rw (lt→ltb _ _ (k.room s.pool v), got, k.readable, k.accepted)
        (refl, record { sent = refl; balanced = own_slot-IsBalanced q i c.msg g.taken g.balanced })
]

after_round-none :
    (go : Sending → Option (Status × Sending)) (r : Option Status × Sending)
    → r.0 ≡ none
    → after_round go r ≡ go r.1
unfolding after_round
after_round-none go (none, s) e = refl
after_round-none go (some st, s) e = absurd (cc)

-- If every round is calm, a send with fuel for more rounds than its message has frames left ends with
-- 0 from a balanced pool, and the pool is balanced then.
pub send_loop-ok :
    (k fuel : ℕ) (env : ℕ → Round) (n : ℕ) (c : Call) (s : Sending)
    → ((j : ℕ) → IsCalm (env j))
    → IsBalanced s.pool
    → length c.bytes - s.sent ≤ stream_payload_max * k
    → k < fuel
    → (t : Sending) × ((send_loop fuel env n c s ≡ some (ok, t)) × IsBalanced t.pool)
unfolding send_loop
send_loop-ok k zero env n c s calm v h lt = absurd (omega arith)
send_loop-ok zero (suc fuel) env n c s calm v h lt =
    (s, (rw (le→not-ltb s.sent (length c.bytes) (omega arith), send_loop) refl, v))
send_loop-ok (suc k) (suc fuel) env n c s calm v h lt =
    elim (Bool-cases (ltb s.sent (length c.bytes))) [
      | inl more ↦
          rw
            (
              more,
              send_loop,
              after_round-none (send_loop fuel env (n + 1) c) (send_round (env n) c s) round.0,
            )
            (send_loop-ok k fuel env (n + 1) c _ calm round.1.balanced
              (omega (arith, round.1.sent, h, ltb→lt _ _ more)) (omega arith))
      | inr done ↦ (s, (rw (done, send_loop) refl, v))
    ]
  where
    round : ((send_round (env n) c s).0 ≡ none) × Sends c s (send_round (env n) c s).1
    round = calm_round (env n) c s (calm n) v
