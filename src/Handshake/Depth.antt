-- ===== src/Handshake/Depth.antt =====
-- The DMA packet-slot count: what `odl_tb5_ring_depth_ok` of driver/odl_tb5_proto.c accepts, and what
-- `odl_tb5_rings_alloc` of driver/odl_tb5_ring_dma.c makes of a request.
use Prim.Native.Nat.{bit_and}
use odin_link_five.Prelude.{
  ℕ, zero, suc, ◌*◌, ◌-◌, ◌≡◌, refl, Bool, true, false, not, ◌&&◌, ltb, leb, ◌==◌, ◌⊎◌, inl, inr,
  if◌then◌else◌,
}

abbrev pub ring_size_min : ℕ
ring_size_min = 64

abbrev pub ring_size_max : ℕ
ring_size_max = 16384

-- `is_power_of_2`.
unfoldable pub is_power_of_2 : ℕ → Bool
is_power_of_2 n = not (n == 0) && bit_and n (n - 1) == 0

unfoldable pub ring_depth_ok : ℕ → Bool
unfolding is_power_of_2
ring_depth_ok n = not (n == 0) && (is_power_of_2 n && (leb ring_size_min n && leb n ring_size_max))

-- `roundup_pow_of_two`, by doubling `p` at most `k` times.
unfoldable pub roundup_from : ℕ → ℕ → ℕ → ℕ
roundup_from zero p n = p
roundup_from (suc k) p n = let rest = roundup_from k (2 * p) n in if leb n p then p else rest

-- The clamps of `odl_tb5_rings_alloc`, and its rounding: 8 doublings lead from 64 to 16384.
unfoldable pub ring_depth : ℕ → ℕ
unfolding roundup_from
ring_depth requested =
    let low = if ltb requested ring_size_min then ring_size_min else requested in
    roundup_from 8 ring_size_min (if ltb ring_size_max low then ring_size_max else low)

-- The depths that are used.
abbrev pub IsDepth : ℕ → Type 0
IsDepth n =
    (n ≡ 64)
    ⊎ (n ≡ 128)
    ⊎ (n ≡ 256)
    ⊎ (n ≡ 512)
    ⊎ (n ≡ 1024)
    ⊎ (n ≡ 2048)
    ⊎ (n ≡ 4096)
    ⊎ (n ≡ 8192)
    ⊎ (n ≡ 16384)

IsDepth-ok : (n : ℕ) → IsDepth n → ring_depth_ok n ≡ true
unfolding ring_depth_ok
IsDepth-ok n h = elim h [
  | inl e ↦ rw e refl
  | inr (inl e) ↦ rw e refl
  | inr (inr (inl e)) ↦ rw e refl
  | inr (inr (inr (inl e))) ↦ rw e refl
  | inr (inr (inr (inr (inl e)))) ↦ rw e refl
  | inr (inr (inr (inr (inr (inl e))))) ↦ rw e refl
  | inr (inr (inr (inr (inr (inr (inl e)))))) ↦ rw e refl
  | inr (inr (inr (inr (inr (inr (inr (inl e))))))) ↦ rw e refl
  | inr (inr (inr (inr (inr (inr (inr (inr e))))))) ↦ rw e refl
]

-- A property of both branches is one of the test.
if-both : (P : ℕ → Type 0) (b : Bool) (x y : ℕ) → P x → P y → P (if b then x else y)
if-both P true x y px py = px
if-both P false x y px py = py

roundup_from-IsDepth : (n : ℕ) → IsDepth (roundup_from 8 64 n)
unfolding roundup_from
roundup_from-IsDepth n = if-both IsDepth (leb n 64) _ _ (inl refl) (
    if-both IsDepth (leb n 128) _ _ (inr (inl refl)) (
      if-both IsDepth (leb n 256) _ _ (inr (inr (inl refl))) (
        if-both IsDepth (leb n 512) _ _ (inr (inr (inr (inl refl)))) (
          if-both IsDepth (leb n 1024) _ _ (inr (inr (inr (inr (inl refl))))) (
            if-both IsDepth (leb n 2048) _ _ (inr (inr (inr (inr (inr (inl refl)))))) (
              if-both IsDepth (leb n 4096) _ _ (inr (inr (inr (inr (inr (inr (inl refl))))))) (
                if-both IsDepth (leb n 8192) _ _
                  (inr (inr (inr (inr (inr (inr (inr (inl refl))))))))
                  (inr (inr (inr (inr (inr (inr (inr (inr refl)))))))))))))))

-- Whatever depth is asked for, the one allocated is one that a peer accepts.
pub ring_depth-ok : (n : ℕ) → ring_depth_ok (ring_depth n) ≡ true
unfolding ring_depth
ring_depth-ok n =
    let low = if ltb n ring_size_min then ring_size_min else n in
    let clamped = if ltb ring_size_max low then ring_size_max else low in
    IsDepth-ok (roundup_from 8 64 clamped) (roundup_from-IsDepth clamped)
