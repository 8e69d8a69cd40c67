-- ===== src/Registry/Ids.antt =====
-- Stream ids of driver/odl_tb5_ring_dma.c: each stream has its own, and none is the control stream's.
use odin_link_five.Prelude.{
  ℕ, ◌/◌, ◌≤◌, ◌<◌, ◌≡◌, ◌≢◌, refl, ap, sym, subst, ◌∙◌, Bool, true, false, List, [], ◌∷◌, none,
  ◌==◌, arith, Bool-cases, inl, inr, ==_iff,
}
use odin_link_five.Stream.{Stream}
use odin_link_five.FramePool.Balance.{IsBalanced}
use odin_link_five.Receive.{Device, stream_lookup}
use odin_link_five.Receive.Repost.{rx_repost-Reposts}
use odin_link_five.Registry.{
  IdAnswer, no_id, id, Ida, Registry, new_stream, start_repost, create_with, stream_create,
  remove_stream, remove_id, stream_destroy,
}

-- `n` is none of the ids.
abbrev pub Unused : ℕ → List ℕ → Type 0
Unused n [] = Unit {0}
Unused n (i ∷ is) = (n ≢ i) × Unused n is

-- Distinct ids from 1 to 255.
abbrev pub AreIds : List ℕ → Type 0
AreIds [] = Unit {0}
AreIds (i ∷ is) = (0 < i) × ((i ≤ 255) × (Unused i is × AreIds is))

-- What the kernel documents of `ida_alloc_range`: an id that it gives lies in the range and is unused.
abbrev pub IsIda : Ida → Type 0
IsIda ida = (is : List ℕ) (lo hi n : ℕ) → ida is lo hi ≡ id n → (lo ≤ n) × ((n ≤ hi) × Unused n is)

abbrev pub ids_of : List Stream → List ℕ
ids_of [] = []
ids_of (s ∷ ss) = s.id ∷ ids_of ss

-- The table holds one stream for each id handed out.
abbrev pub IsRegistry : Registry → Type 0
IsRegistry r = AreIds r.ids × ((ids_of r.device.streams ≡ r.ids) × IsBalanced r.device.pool)

start_repost-streams :
    (has_pool : Bool) (accepts : ℕ → Bool) (d : Device)
    → IsBalanced d.pool
    → ((start_repost has_pool accepts d).streams ≡ d.streams)
      × IsBalanced (start_repost has_pool accepts d).pool
unfolding start_repost
start_repost-streams has_pool accepts d v =
    let e = record d { rx_target = d.pool.size / 2 } in
    let r = rx_repost-Reposts accepts e v in ground (arith, r.streams, r.balanced)

create_with-IsRegistry :
    (has_pool : Bool) (accepts : ℕ → Bool) (a : IdAnswer) (r : Registry)
    → ((n : ℕ) → a ≡ id n → (0 < n) × ((n ≤ 255) × Unused n r.ids))
    → IsRegistry r
    → IsRegistry (create_with has_pool accepts a r).1
unfolding create_with
create_with-IsRegistry has_pool accepts (no_id e) r h v = v
create_with-IsRegistry has_pool accepts (id n) r h v =
    let d = record r.device { streams = new_stream n ∷ r.device.streams } in
    let p = start_repost-streams has_pool accepts d v.1.1 in
    let k = h n refl in
    ((k.0, (k.1.0, (k.1.1, v.0))), (ap ids_of p.0 ∙ ap (λ is. n ∷ is) v.1.0, p.1))

-- Creating a stream, with an 8-bit id that the caller asks for or with any, keeps a sound table
-- sound: one stream for each id handed out, the ids distinct and from 1 to 255, and the frame pool
-- balanced. The id allocator gives only ids in the range that are unused.
pub stream_create-IsRegistry :
    (served has_pool : Bool) (accepts : ℕ → Bool) (ida : Ida) (filter_id : ℕ) (r : Registry)
    → IsIda ida
    → filter_id ≤ 255
    → IsRegistry r
    → IsRegistry (stream_create served has_pool accepts ida filter_id r).1
unfolding stream_create
stream_create-IsRegistry false has_pool accepts ida filter_id r i f v = v
stream_create-IsRegistry true has_pool accepts ida filter_id r i f v =
    elim (Bool-cases (filter_id == 0)) [
      | inl h ↦ rw h (
          create_with-IsRegistry has_pool accepts (ida r.ids 20 255) r
            (λ n e. let k = i r.ids 20 255 n e in (omega (arith, k.0), (k.1.0, k.1.1))) v)
      | inr h ↦ rw h (
          create_with-IsRegistry has_pool accepts (ida r.ids filter_id filter_id) r
            (λ n e.
              let k = i r.ids filter_id filter_id n e in
              (ground (arith, k.0, ==_iff filter_id 0), (omega (arith, k.1.0), k.1.1)))
            v)
    ]

Unused-remove : (n m : ℕ) (is : List ℕ) → Unused n is → Unused n (remove_id m is)
unfolding remove_id
Unused-remove n m [] u = tt
Unused-remove n m (i ∷ is) u = elim (Bool-cases (i == m)) [
  | inl h ↦ rw h (u.1)
  | inr h ↦ rw h (u.0, Unused-remove n m is u.1)
]

AreIds-remove : (m : ℕ) (is : List ℕ) → AreIds is → AreIds (remove_id m is)
unfolding remove_id
AreIds-remove m [] u = tt
AreIds-remove m (i ∷ is) u = elim (Bool-cases (i == m)) [
  | inl h ↦ rw h (u.1.1.1)
  | inr h ↦ rw h (u.0, (u.1.0, (Unused-remove i m is u.1.1.0, AreIds-remove m is u.1.1.1)))
]

ids_of-remove : (m : ℕ) (ss : List Stream) → ids_of (remove_stream m ss) ≡ remove_id m (ids_of ss)
unfolding remove_stream remove_id
ids_of-remove m [] = refl
ids_of-remove m (s ∷ ss) = elim (Bool-cases (s.id == m)) [
  | inl h ↦ rw h refl
  | inr h ↦ rw h (ap (λ is. s.id ∷ is) (ids_of-remove m ss))
]

stream_lookup-Unused : (n : ℕ) (ss : List Stream) → Unused n (ids_of ss) → stream_lookup n ss ≡ none
unfolding stream_lookup
stream_lookup-Unused n [] u = refl
stream_lookup-Unused n (s ∷ ss) u =
    let other : (s.id == n) ≡ false = ground (arith, ==_iff s.id n, u.0) in
    rw other (stream_lookup-Unused n ss u.1)

removed :
    (n : ℕ) (ss : List Stream) → AreIds (ids_of ss) → stream_lookup n (remove_stream n ss) ≡ none
unfolding remove_stream stream_lookup
removed n [] u = refl
removed n (s ∷ ss) u = elim (Bool-cases (s.id == n)) [
  | inl h ↦
      let same : s.id ≡ n = ground (arith, ==_iff s.id n) in
      rw h (stream_lookup-Unused n ss (subst (λ k. Unused k (ids_of ss)) same u.1.1.0))
  | inr h ↦ rw (h, h) (removed n ss u.1.1.1)
]

kept :
    (n m : ℕ) (ss : List Stream) → n ≢ m → stream_lookup m (remove_stream n ss) ≡ stream_lookup m ss
unfolding remove_stream stream_lookup
kept n m [] d = refl
kept n m (s ∷ ss) d = elim (Bool-cases (s.id == n)) [
  | inl h ↦
      let other : (s.id == m) ≡ false = ground (arith, ==_iff s.id n, ==_iff s.id m) in
      rw (h, other) refl
  | inr h ↦ elim (Bool-cases (s.id == m)) [
    | inl k ↦ rw (h, k) refl
    | inr k ↦ rw (h, k) (kept n m ss d)
  ]
]

-- Destroying a stream of a sound table keeps it sound, no lookup finds the stream any more, and every
-- other stream is found as before.
pub stream_destroy-IsRegistry :
    (n : ℕ) (r : Registry)
    → IsRegistry r
    → IsRegistry (stream_destroy n r)
      × ((stream_lookup n (stream_destroy n r).device.streams ≡ none)
          × ((m : ℕ)
              → n ≢ m
              → stream_lookup m (stream_destroy n r).device.streams
                ≡ stream_lookup m r.device.streams))
unfolding stream_destroy
stream_destroy-IsRegistry n r v = (
  (AreIds-remove n r.ids v.0, (ids_of-remove n r.device.streams ∙ ap (remove_id n) v.1.0, v.1.1)),
  (removed n r.device.streams (subst AreIds (sym v.1.0) v.0), λ m d. kept n m r.device.streams d),
)
