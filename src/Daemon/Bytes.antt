-- ===== src/Daemon/Bytes.antt =====
-- Numbers and C strings as the bytes of a packed little-endian structure, as the messages of
-- daemon/src/odl_tb5_daemon_sync_proto.h lay them out.
use native.Mathlib.Nat.{pow-succ'}
use odin_link_five.Prelude.{
  ℕ, zero, suc, ◌+◌, ◌-◌, ◌*◌, ◌/◌, ◌%◌, ◌^◌, ◌<◌, ◌≡◌, refl, ap, ◌∙◌, List, [], ◌∷◌, ◌++◌,
  if◌then◌else◌, ◌==◌, ==_iff, length, take, take-all, replicate, length-replicate, length-append,
  length-take, arith,
}

-- `w` bytes, the lowest first.
unfoldable pub to_le : ℕ → ℕ → List ℕ
to_le zero n = []
to_le (suc w) n = n % 256 ∷ to_le w (n / 256)

unfoldable pub from_le : List ℕ → ℕ
from_le [] = 0
from_le (b ∷ bs) = b + 256 * from_le bs

pub length-to_le : (w n : ℕ) → length (to_le w n) ≡ w
unfolding to_le
length-to_le zero n = refl
length-to_le (suc w) n = ap suc (length-to_le w (n / 256))

-- A number of `w` bytes is read back.
pub from_le-to_le : (w n : ℕ) → n < 256 ^ w → from_le (to_le w n) ≡ n
unfolding to_le from_le
from_le-to_le zero n lt = omega (arith, lt)
from_le-to_le (suc w) n lt =
    let small : n < 256 * 256 ^ w = rw (← pow-succ' 256 w) lt in
    omega (arith, from_le-to_le w (n / 256) (omega arith))

-- The text of a C string: the bytes before the first zero.
unfoldable pub c_text : List ℕ → List ℕ
c_text [] = []
c_text (b ∷ bs) = let rest = c_text bs in if b == 0 then [] else b ∷ rest

-- A field of `n` bytes that was zeroed, with the first `n - 1` bytes of a string.
unfoldable pub to_field : ℕ → List ℕ → List ℕ
to_field n s = let t = take (n - 1) s in t ++ replicate (n - length t) 0

-- No byte of a C string is zero.
abbrev pub NoZero : List ℕ → Type 0
NoZero [] = Unit
NoZero (b ∷ bs) = (0 < b) × NoZero bs

pub length-to_field : (n : ℕ) (s : List ℕ) → length (to_field n s) ≡ n
unfolding to_field
length-to_field n s = omega (
  arith,
  length-append (take (n - 1) s) (replicate {A = ℕ} (n - length (take (n - 1) s)) 0),
  length-replicate {A = ℕ} (n - length (take (n - 1) s)) 0,
  length-take (n - 1) s,
)

c_text-append : (s : List ℕ) (k : ℕ) → NoZero s → c_text (s ++ replicate (suc k) 0) ≡ s
unfolding c_text
c_text-append [] k nz = refl
c_text-append (b ∷ bs) k (pos, nz) = ground (arith, c_text-append bs k nz, ==_iff b 0)

-- A path that fits is read back.
pub c_text-to_field : (n : ℕ) (s : List ℕ) → NoZero s → length s < n → c_text (to_field n s) ≡ s
unfolding to_field
c_text-to_field n s nz lt =
    ap (λ t. c_text (t ++ replicate (n - length t) 0)) (take-all (n - 1) s (omega arith))
    ∙ ap (λ k. c_text (s ++ replicate k 0)) {y = suc (n - length s - 1)} (omega arith)
    ∙ c_text-append s (n - length s - 1) nz
