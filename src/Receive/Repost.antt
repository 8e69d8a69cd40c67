-- ===== src/Receive/Repost.antt =====
-- `odl_tb5_rx_repost`: how far it fills the receive ring.
use odin_link_five.Prelude.{
  ℕ, zero, suc, ◌+◌, ◌-◌, ◌≤◌, ◌<◌, ◌≡◌, refl, ap, ◌∙◌, Bool, true, List, [], ◌∷◌, length, arith,
  inl, inr, ◌⊎◌, Bool-cases, false, if◌then◌else◌, ◌==◌, ltb, ℤ, pos, negsuc, inc, below,
}
use odin_link_five.FramePool.{FramePool}
use odin_link_five.FramePool
use odin_link_five.FramePool.Balance.{
  IsBalanced, is_taken, Gets, get_lem, put-IsBalanced, bit, get_bits, put_bits,
}
use odin_link_five.Receive.{Device, repost_from, note_min, rx_repost}

below-inc : (n : ℕ) (x : ℤ) → below n (inc x) ≡ below n x - 1
below-inc n (pos x) = omega arith
below-inc n (negsuc zero) = omega arith
below-inc n (negsuc (suc x)) = omega arith

-- The four counters of completions.
abbrev pub counters : Device → ℕ × ℕ × ℕ × ℕ
counters d = (d.rx_canceled, d.rx_err_crc, d.rx_err_overrun, d.rx_frames_ok)

-- How many times slot `j` is among the slots.
abbrev pub times : ℕ → List ℕ → ℕ
times j [] = 0
times j (i ∷ is) = (if i == j then 1 else 0) + times j is

-- The ring has refused one of the slots, each of the others it has taken.
abbrev pub AllTaken : (ℕ → Bool) → List ℕ → Type 0
AllTaken accepts [] = Unit {0}
AllTaken accepts (i ∷ is) = (accepts i ≡ true) × AllTaken accepts is

-- Why a repost stops: it has posted all that is missing; the pool has no slot, which is recorded; or
-- the ring refuses a slot, which is free then.
abbrev pub Full : ℕ → Device → List ℕ → Device → Type 0
Full n d is t = (length is ≡ n) × (t.rx_repost_starved ≡ d.rx_repost_starved)

abbrev pub Starved : ℕ → Device → List ℕ → Device → Type 0
Starved n d is t =
    (t.pool.free_count ≡ 0)
    × (length is < n)
    × (t.rx_repost_starved ≡ d.rx_repost_starved + 1)
    × (n - length is ≤ t.rx_repost_short)

abbrev pub Refused : (ℕ → Bool) → ℕ → Device → List ℕ → Device → Type 0
Refused accepts n d is t =
    (length is < n)
    × (t.rx_repost_starved ≡ d.rx_repost_starved)
    × ((i : ℕ) × (accepts i ≡ false) × (is_taken t.pool i ≡ false))

-- What a repost of the slots `is` does. `below target x` is how many frames are missing at `x`.
-- `slots` says that the pool has lost the slots of the list, each once, and no others.
pub record Reposts (accepts : ℕ → Bool) (n : ℕ) (d : Device) (is : List ℕ) (t : Device)
    : Type 0 where
  pub balanced : IsBalanced t.pool
  pub slots : (j : ℕ) → bit (is_taken d.pool j) + times j is ≡ bit (is_taken t.pool j)
  pub all : AllTaken accepts is
  pub ends : Full n d is t ⊎ (Starved n d is t ⊎ Refused accepts n d is t)
  pub missing : below d.rx_target t.rx_posted ≡ below d.rx_target d.rx_posted - length is
  pub bounded : length is ≤ n
  pub target : t.rx_target ≡ d.rx_target
  pub streams : t.streams ≡ d.streams
  pub same : counters t ≡ counters d

-- Why a repost with one slot more stops.
ends-cons :
    (accepts : ℕ → Bool) (n i : ℕ) (is : List ℕ) (d e t : Device)
    → e.rx_repost_starved ≡ d.rx_repost_starved
    → Full n e is t ⊎ (Starved n e is t ⊎ Refused accepts n e is t)
    → Full (suc n) d (i ∷ is) t
      ⊎ (Starved (suc n) d (i ∷ is) t ⊎ Refused accepts (suc n) d (i ∷ is) t)
ends-cons accepts n i is d e t s (inl (f, k)) = inl (omega (arith, f), k ∙ s)
ends-cons accepts n i is d e t s (inr (inl (f, l, k, h))) =
    inr (inl (f, omega arith, k ∙ ap (λ x. x + 1) s, omega (arith, h)))
ends-cons accepts n i is d e t s (inr (inr (l, k, who))) = inr (inr (omega arith, k ∙ s, who))

-- A round that posts a slot.
Reposts-cons :
    (accepts : ℕ → Bool) (n i : ℕ) (is : List ℕ) (d e t : Device)
    → ((j : ℕ) → bit (is_taken d.pool j) + (if i == j then 1 else 0) ≡ bit (is_taken e.pool j))
    → accepts i ≡ true
    → e.rx_posted ≡ inc d.rx_posted
    → e.rx_target ≡ d.rx_target
    → e.rx_repost_starved ≡ d.rx_repost_starved
    → e.streams ≡ d.streams
    → counters e ≡ counters d
    → Reposts accepts n e is t
    → Reposts accepts (suc n) d (i ∷ is) t
Reposts-cons accepts n i is d e t c ok_at p g v s u r = record {
  balanced = r.balanced;
  slots = λ j. omega (arith, c j, r.slots j);
  all = (ok_at, r.all);
  ends = ends-cons accepts n i is d e t v r.ends;
  missing =
      step d.rx_target e.rx_target e.rx_posted d.rx_posted t.rx_posted (length is) g p r.missing;
  bounded = omega (arith, r.bounded);
  target = r.target ∙ g;
  streams = r.streams ∙ s;
  same = r.same ∙ u;
}
  where
    step :
        (m m' : ℕ) (x y z : ℤ) (k : ℕ)
        → m' ≡ m
        → x ≡ inc y
        → below m' z ≡ below m' x - k
        → below m z ≡ below m y - suc k
    step m m' x y z k e f h = omega (arith, rw (e, f) at h, below-inc m y)

refused-Reposts :
    (accepts : ℕ → Bool) (n i : ℕ) (d : Device) (q : FramePool)
    → accepts i ≡ false
    → IsBalanced d.pool
    → Gets d.pool i q
    → Reposts accepts (suc n) d [] (record d { pool = FramePool.put q i })
refused-Reposts accepts n i d q refuses v g =
    let p = put-IsBalanced q i g.taken g.balanced in
    record {
      balanced = p.0;
      slots = λ j. omega (arith, get_bits v g j, put_bits q i g.taken g.balanced j);
      all = tt;
      ends = inr (inr (omega arith, refl, (i, refuses, p.2.1)));
      missing = omega arith;
      bounded = omega arith;
      target = refl;
      streams = refl;
      same = refl;
    }

-- Nothing is missing, or the pool is empty.
full-Reposts : (accepts : ℕ → Bool) (d : Device) → IsBalanced d.pool → Reposts accepts 0 d [] d
full-Reposts accepts d v = record {
  balanced = v;
  slots = λ j. omega arith;
  all = tt;
  ends = inl (refl, refl);
  missing = omega arith;
  bounded = omega arith;
  target = refl;
  streams = refl;
  same = refl;
}

starved-Reposts :
    (accepts : ℕ → Bool) (n : ℕ) (d : Device)
    → IsBalanced d.pool
    → d.pool.free_count ≡ 0
    → Reposts accepts (suc n) d [] (record d {
      rx_repost_starved = d.rx_repost_starved + 1;
      rx_repost_short = if ltb d.rx_repost_short (suc n) then suc n else d.rx_repost_short;
    })
starved-Reposts accepts n d v empty = record {
  balanced = v;
  slots = λ j. omega arith;
  all = tt;
  ends = inr (inl (empty, omega arith, refl, ground arith));
  missing = omega arith;
  bounded = omega arith;
  target = refl;
  streams = refl;
  same = refl;
}

repost_from-Reposts :
    (accepts : ℕ → Bool) (n : ℕ) (d : Device)
    → IsBalanced d.pool
    → Reposts accepts n d (repost_from accepts n d).0 (repost_from accepts n d).1
unfolding repost_from
repost_from-Reposts accepts zero d v = full-Reposts accepts d v
repost_from-Reposts accepts (suc n) d v = elim (get_lem d.pool v) [
  | inl (empty, got) ↦ rw (repost_from, got) (starved-Reposts accepts n d v empty)
  | inr (more, (i, (q, (got, g)))) ↦ elim (Bool-cases (accepts i)) [
    | inl posted ↦
        rw (repost_from, got, posted)
          (Reposts-cons accepts n i _ d (record d { pool = q; rx_posted = inc d.rx_posted }) _
            (get_bits v g) posted refl refl refl refl refl
            (repost_from-Reposts accepts n _ g.balanced))
    | inr refused ↦ rw (repost_from, got, refused) (refused-Reposts accepts n i d q refused v g)
  ]
]

note_min-Reposts :
    (accepts : ℕ → Bool) (n : ℕ) (d t : Device) (is : List ℕ)
    → Reposts accepts n d is t
    → Reposts accepts n d is (note_min t)
unfolding note_min
note_min-Reposts accepts n d t is r = ground arith

-- A repost takes from a balanced pool the slots that it posts, once each, and no others, slot by
-- slot, and only slots that the ring accepts. It posts as many as are missing from the target, unless
-- no slot can be had, which it counts, or the ring refuses one. It never posts more, leaves the
-- target, the streams and the counters of received frames alone, and keeps the balance.
pub rx_repost-Reposts :
    (accepts : ℕ → Bool) (d : Device)
    → IsBalanced d.pool
    → Reposts accepts
        (below d.rx_target d.rx_posted)
        d
        (rx_repost accepts d).0
        (rx_repost accepts d).1
unfolding rx_repost
rx_repost-Reposts accepts d v =
    note_min-Reposts accepts _ d _ _
      (repost_from-Reposts accepts (below d.rx_target d.rx_posted) d v)
