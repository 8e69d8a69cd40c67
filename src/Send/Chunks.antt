-- ===== src/Send/Chunks.antt =====
-- The frames that a message should be cut into.
use native.Mathlib.Nat.{mul_comm}
use odin_link_five.Prelude.{
  ℕ, zero, suc, ◌+◌, ◌*◌, ◌-◌, ◌≤◌, ◌<◌, ◌≡◌, refl, ap, Bool, true, false, ◌==◌, List, [], ◌∷◌,
  ◌++◌, min, length, take, drop, arith, length-take, length-drop, take-append-drop,
}
use odin_link_five.Wire.{encode_hdr, frag_flags, stream_payload_max}
use odin_link_five.Stream.Assembly.{hdr_at, joined, AllCarried}

-- The data in pieces of `m` bytes and a shorter last one, on fuel.
unfoldable pub chunks : ℕ → ℕ → List ℕ → List (List ℕ)
chunks m zero xs = []
chunks m (suc f) [] = []
chunks m (suc f) (x ∷ xs) = take m (x ∷ xs) ∷ chunks m f (drop m (x ∷ xs))

-- The bytes of the frames of fragments `cs`, from fragment `i` on.
unfoldable pub wire_frames : ℕ → ℕ → ℕ → List (List ℕ) → List (List ℕ)
wire_frames src dst i [] = []
wire_frames src dst i (c ∷ []) = (encode_hdr (hdr_at src dst i true c) ++ c) ∷ []
wire_frames src dst i (c ∷ e ∷ cs) =
    (encode_hdr (hdr_at src dst i false c) ++ c) ∷ wire_frames src dst (i + 1) (e ∷ cs)

-- Any fuel from the length on gives the same chunks.
pub chunks_fuel :
    (m f g : ℕ) (xs : List ℕ)
    → 0 < m
    → length xs ≤ f
    → length xs ≤ g
    → chunks m f xs ≡ chunks m g xs
unfolding chunks
chunks_fuel m zero zero xs h p q = refl
chunks_fuel m zero (suc g) [] h p q = refl
chunks_fuel m zero (suc g) (x ∷ xs) h p q = absurd (omega arith)
chunks_fuel m (suc f) zero [] h p q = refl
chunks_fuel m (suc f) zero (x ∷ xs) h p q = absurd (omega arith)
chunks_fuel m (suc f) (suc g) [] h p q = refl
chunks_fuel m (suc f) (suc g) (x ∷ xs) h p q =
    ap (λ cs. take m (x ∷ xs) ∷ cs)
      (chunks_fuel m f g (drop m (x ∷ xs)) h (omega (arith, length-drop m (x ∷ xs)))
        (omega (arith, length-drop m (x ∷ xs))))

pub joined-chunks : (m f : ℕ) (xs : List ℕ) → 0 < m → length xs ≤ f → joined (chunks m f xs) ≡ xs
unfolding chunks
joined-chunks m zero [] h p = refl
joined-chunks m zero (x ∷ xs) h p = absurd (omega arith)
joined-chunks m (suc f) [] h p = refl
joined-chunks m (suc f) (x ∷ xs) h p =
    rw (joined-chunks m f (drop m (x ∷ xs)) h (omega (arith, length-drop m (x ∷ xs))))
      (take-append-drop m (x ∷ xs))

pub AllCarried-chunks : (m f : ℕ) (xs : List ℕ) → 0 < m → m < 65536 → AllCarried (chunks m f xs)
unfolding chunks
AllCarried-chunks m zero xs h k = tt
AllCarried-chunks m (suc f) [] h k = tt
AllCarried-chunks m (suc f) (x ∷ xs) h k =
    (omega (arith, length-take m (x ∷ xs)), AllCarried-chunks m f (drop m (x ∷ xs)) h k)

-- There are no more than `k` chunks of `k * m` bytes.
pub length-chunks-le :
    (k f : ℕ) (xs : List ℕ)
    → length xs ≤ stream_payload_max * k
    → length (chunks stream_payload_max f xs) ≤ k
unfolding chunks
length-chunks-le k zero xs h = omega arith
length-chunks-le k (suc f) [] h = omega arith
length-chunks-le zero (suc f) (x ∷ xs) h = absurd (omega arith)
length-chunks-le (suc k) (suc f) (x ∷ xs) h = omega (
  arith,
  length-chunks-le k f (drop stream_payload_max (x ∷ xs))
      (omega (arith, length-drop stream_payload_max (x ∷ xs))),
)

pub chunks_step :
    (m f : ℕ) (xs : List ℕ)
    → 0 < m
    → 0 < length xs
    → length xs ≤ f
    → chunks m f xs ≡ take m xs ∷ chunks m f (drop m xs)
unfolding chunks
chunks_step m zero xs h n p = absurd (omega arith)
chunks_step m (suc f) [] h n p = absurd (omega arith)
chunks_step m (suc f) (x ∷ xs) h n p =
    ap (λ cs. take m (x ∷ xs) ∷ cs)
      (chunks_fuel m f (suc f) (drop m (x ∷ xs)) h (omega (arith, length-drop m (x ∷ xs)))
        (omega (arith, length-drop m (x ∷ xs))))

abbrev pub is_nil {ℓ} : {A : Type ℓ} → List A → Bool
is_nil [] = true
is_nil (x ∷ xs) = false

pub is_nil-chunks :
    (m f : ℕ) (xs : List ℕ) → length xs ≤ f → is_nil (chunks m f xs) ≡ (length xs == 0)
unfolding chunks
is_nil-chunks m zero [] p = refl
is_nil-chunks m zero (x ∷ xs) p = absurd (omega arith)
is_nil-chunks m (suc f) [] p = refl
is_nil-chunks m (suc f) (x ∷ xs) p = ground arith

pub wire_frames-cons :
    (src dst i : ℕ) (c : List ℕ) (cs : List (List ℕ))
    → wire_frames src dst i (c ∷ cs)
      ≡ (encode_hdr (hdr_at src dst i (is_nil cs) c) ++ c) ∷ wire_frames src dst (i + 1) cs
unfolding wire_frames
wire_frames-cons src dst i c [] = refl
wire_frames-cons src dst i c (e ∷ cs) = refl

pub take-min : (m : ℕ) (xs : List ℕ) → take (min (length xs) m) xs ≡ take m xs
take-min zero [] = refl
take-min zero (x ∷ xs) = let e : min (suc (length xs)) 0 ≡ 0 = omega arith in rw e
take-min (suc m) [] = let e : min 0 (suc m) ≡ 0 = omega arith in rw e
take-min (suc m) (x ∷ xs) =
    let e : min (suc (length xs)) (suc m) ≡ suc (min (length xs) m) = omega arith in
    rw e (ap (λ ys. x ∷ ys) (take-min m xs))

pub drop-min : (m : ℕ) (xs : List ℕ) → drop (min (length xs) m) xs ≡ drop m xs
drop-min zero [] = refl
drop-min zero (x ∷ xs) = let e : min (suc (length xs)) 0 ≡ 0 = omega arith in rw e
drop-min (suc m) [] = let e : min 0 (suc m) ≡ 0 = omega arith in rw e
drop-min (suc m) (x ∷ xs) =
    let e : min (suc (length xs)) (suc m) ≡ suc (min (length xs) m) = omega arith in
    rw e (drop-min m xs)

mul-zero_test : (m i : ℕ) → 0 < m → (m * i == 0) ≡ (i == 0)
mul-zero_test m zero h = ground arith
mul-zero_test m (suc i) h = ground (arith, mul_comm m (suc i))

-- The frame that the send loops build at `sent`, for pieces of `m` bytes, is that of the chunk
-- there.
pub built_frame :
    (m src dst i sent : ℕ) (bytes : List ℕ)
    → 0 < m
    → sent < length bytes
    → sent ≡ m * i
    → let xs = drop sent bytes in
      let n = min (length bytes - sent) m in
      encode_hdr (record {
        src_id = src;
        dst_id = dst;
        flags = frag_flags (sent == 0) (sent + n == length bytes);
        reserved = 0;
        payload_len = n;
        frag_idx = i;
      })
        ++ take n xs
      ≡ encode_hdr (hdr_at src dst i (is_nil (chunks m (length bytes) (drop m xs))) (take m xs))
        ++ take m xs
built_frame m src dst i sent bytes h lt al = rw (
  is_nil-chunks m (length bytes) (drop m (drop sent bytes)) (omega (arith, e0, e5)),
  e2,
  e4,
  e1,
  e3,
)
  where
    e0 : length (drop sent bytes) ≡ length bytes - sent
    e0 = length-drop sent bytes

    e5 : length (drop m (drop sent bytes)) ≡ length (drop sent bytes) - m
    e5 = length-drop m (drop sent bytes)

    e1 : min (length bytes - sent) m ≡ length (take m (drop sent bytes))
    e1 = omega (arith, length-take m (drop sent bytes), e0)

    e2 : take (min (length bytes - sent) m) (drop sent bytes) ≡ take m (drop sent bytes)
    e2 = rw (← e0) (take-min m (drop sent bytes))

    e3 : (sent == 0) ≡ (i == 0)
    e3 = rw al (mul-zero_test m i h)

    e4 :
        (sent + min (length bytes - sent) m == length bytes)
        ≡ (length (drop m (drop sent bytes)) == 0)
    e4 = ground (arith, e0, e5)
