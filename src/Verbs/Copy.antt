-- ===== src/Verbs/Copy.antt =====
-- `odl_wc_stream_copy` of verbs/src/odl_tb5_verbs_qp.c: a copy whose middle is read by whole cache
-- lines. A buffer is the list of its bytes; the source's address decides where a line starts.
use odin_link_five.Prelude.{
  ℕ, zero, suc, ◌+◌, ◌-◌, ◌*◌, ◌/◌, ◌%◌, ◌≤◌, ◌<◌, ◌≡◌, refl, sym, ap, ◌∙◌, List, [], ◌∷◌, ◌++◌,
  if◌then◌else◌, leb, leb→le, ◌==◌, ==_iff, length, take, drop, length-take, take-all, arith,
  Bool-cases, ◌⊎◌, inl, inr,
}

-- `memcpy` to the place `off` of a buffer. What would go past its end is not written.
unfoldable pub overwrite : ℕ → List ℕ → List ℕ → List ℕ
overwrite zero [] dst = dst
overwrite zero (b ∷ bs) [] = []
overwrite zero (b ∷ bs) (_ ∷ dst) = b ∷ overwrite zero bs dst
overwrite (suc n) bs [] = []
overwrite (suc n) bs (x ∷ dst) = x ∷ overwrite n bs dst

-- `odl_wc_stream_copy_lines` for `n` lines from `off` on.
unfoldable pub copy_lines : ℕ → ℕ → List ℕ → List ℕ → List ℕ
unfolding overwrite
copy_lines zero off src dst = dst
copy_lines (suc n) off src dst =
    copy_lines n (off + 64) src (overwrite off (take 64 (drop off src)) dst)

-- The bytes before the next line starts.
unfoldable pub prefix_of : ℕ → ℕ
prefix_of addr = let misalignment = addr % 64 in if misalignment == 0 then 0 else 64 - misalignment

-- `if (n) memcpy(...)`
unfoldable pub copy_some : ℕ → ℕ → List ℕ → List ℕ → List ℕ
unfolding overwrite
copy_some n off src dst = if n == 0 then dst else overwrite off (take n (drop off src)) dst

-- The destination, and the number of bytes read by lines; 0 of them says that nothing is written.
unfoldable pub wc_stream_copy : ℕ → List ℕ → ℕ → List ℕ → List ℕ × ℕ
unfolding prefix_of copy_lines copy_some
wc_stream_copy addr src bytes dst =
    let prefix = prefix_of addr in
    let body = (bytes - prefix) - (bytes - prefix) % 64 in
    let tail = bytes - prefix - body in
    if leb (prefix + 64) bytes
    then (
      copy_some tail (prefix + body) src
          (copy_lines (body / 64) prefix src (copy_some prefix 0 src dst)),
      body,
    )
    else (dst, 0)

overwrite-nil : (n : ℕ) (bs : List ℕ) → overwrite n bs [] ≡ []
unfolding overwrite
overwrite-nil zero [] = refl
overwrite-nil zero (b ∷ bs) = refl
overwrite-nil (suc n) bs = refl

overwrite-none : (n : ℕ) (dst : List ℕ) → overwrite n [] dst ≡ dst
unfolding overwrite
overwrite-none zero dst = refl
overwrite-none (suc n) [] = refl
overwrite-none (suc n) (x ∷ dst) = ap (λ t. x ∷ t) (overwrite-none n dst)

-- A second write that starts where the first ended.
overwrite-overwrite :
    (m : ℕ) (xs bs dst : List ℕ)
    → m ≡ length xs
    → overwrite m bs (overwrite 0 xs dst) ≡ overwrite 0 (xs ++ bs) dst
unfolding overwrite
overwrite-overwrite zero [] bs dst e = refl
overwrite-overwrite (suc m) [] bs dst e = absurd (omega arith)
overwrite-overwrite zero (a ∷ xs) bs dst e = absurd (omega arith)
overwrite-overwrite (suc m) (a ∷ xs) bs [] e = refl
overwrite-overwrite (suc m) (a ∷ xs) bs (x ∷ dst) e =
    ap (λ t. a ∷ t) (overwrite-overwrite m xs bs dst (omega arith))

take-append-take : (n m : ℕ) (xs : List ℕ) → take n xs ++ take m (drop n xs) ≡ take (n + m) xs
take-append-take zero m xs = ap (λ k. take k xs) (omega arith)
take-append-take (suc n) m [] =
    take-all m [] (omega arith) ∙ sym (take-all (suc n + m) [] (omega arith))
take-append-take (suc n) m (x ∷ xs) =
    ap (λ t. x ∷ t) (take-append-take n m xs)
    ∙ ap (λ k. take k (x ∷ xs)) {x = suc (n + m)} (omega arith)

-- One more piece after the first `n` bytes.
copy_next :
    (n m : ℕ) (src dst : List ℕ)
    → n ≤ length src
    → overwrite n (take m (drop n src)) (overwrite 0 (take n src) dst)
      ≡ overwrite 0 (take (n + m) src) dst
copy_next n m src dst le =
    overwrite-overwrite n (take n src) (take m (drop n src)) dst (omega (arith, length-take n src))
    ∙ ap (λ bs. overwrite 0 bs dst) (take-append-take n m src)

copy_lines_lem :
    (n off : ℕ) (src dst : List ℕ)
    → off + 64 * n ≤ length src
    → copy_lines n off src (overwrite 0 (take off src) dst)
      ≡ overwrite 0 (take (off + 64 * n) src) dst
unfolding copy_lines
copy_lines_lem zero off src dst le = ap (λ k. overwrite 0 (take k src) dst) (omega arith)
copy_lines_lem (suc n) off src dst le =
    ap (copy_lines n (off + 64) src) (copy_next off 64 src dst (omega arith))
    ∙ copy_lines_lem n (off + 64) src dst (omega arith)
    ∙ ap (λ k. overwrite 0 (take k src) dst) (omega arith)

copy_some_lem :
    (n off : ℕ) (src dst : List ℕ)
    → off ≤ length src
    → copy_some n off src (overwrite 0 (take off src) dst) ≡ overwrite 0 (take (off + n) src) dst
unfolding copy_some
copy_some_lem n off src dst le = elim (Bool-cases (n == 0)) [
  | inl e ↦ rw e (ap (λ k. overwrite 0 (take k src) dst) (omega (arith, (==_iff n 0).0 e)))
  | inr e ↦ rw e (copy_next off n src dst le)
]

copy_pieces :
    (p b t : ℕ) (src dst : List ℕ)
    → p + b + t ≡ length src
    → 64 * (b / 64) ≡ b
    → copy_some t (p + b) src (copy_lines (b / 64) p src (copy_some p 0 src dst))
      ≡ overwrite 0 src dst
unfolding overwrite
copy_pieces p b t src dst sum lines =
    ap (λ d. copy_some t (p + b) src (copy_lines (b / 64) p src d))
      (copy_some_lem p 0 src dst (omega arith)
        ∙ ap (λ k. overwrite 0 (take k src) dst) {y = p} (omega arith))
    ∙ ap (copy_some t (p + b) src) (
        copy_lines_lem (b / 64) p src dst (omega arith)
        ∙ ap (λ k. overwrite 0 (take k src) dst) {y = p + b} (omega arith))
    ∙ copy_some_lem t (p + b) src dst (omega arith)
    ∙ ap (λ xs. overwrite 0 xs dst) (take-all (p + b + t) src (omega arith))

-- The streaming copy either copies nothing and says so, or copies what memcpy would: the whole
-- source, with the rest of the destination kept. Then it reports a multiple of 64 above 0, and the
-- streamed part starts at a line of 64 bytes.
pub wc_stream_copy_lem :
    (addr : ℕ) (src dst : List ℕ)
    → let (dst', body) = wc_stream_copy addr src (length src) dst in
      ((body ≡ 0) × (dst' ≡ dst))
      ⊎ ((dst' ≡ overwrite 0 src dst)
          × (0 < body)
          × (body % 64 ≡ 0)
          × ((addr + prefix_of addr) % 64 ≡ 0))
unfolding wc_stream_copy
wc_stream_copy_lem addr src dst = elim (Bool-cases (leb (prefix_of addr + 64) (length src))) [
  | inl e ↦ rw e (
      inr (
        copy_pieces (prefix_of addr)
            ((length src - prefix_of addr) - (length src - prefix_of addr) % 64)
            ((length src - prefix_of addr)
              - ((length src - prefix_of addr) - (length src - prefix_of addr) % 64))
            src dst (omega (arith, leb→le _ _ e)) (omega arith),
        omega (arith, leb→le _ _ e),
        omega (arith, leb→le _ _ e),
        aligned,
      ))
  | inr e ↦ rw e (inl (refl, refl))
]
  where
    aligned : (addr + prefix_of addr) % 64 ≡ 0
    aligned = ground arith

pub length-overwrite : (n : ℕ) (bs dst : List ℕ) → length (overwrite n bs dst) ≡ length dst
unfolding overwrite
length-overwrite zero [] dst = refl
length-overwrite zero (b ∷ bs) [] = refl
length-overwrite zero (b ∷ bs) (x ∷ dst) = ap suc (length-overwrite zero bs dst)
length-overwrite (suc n) bs [] = refl
length-overwrite (suc n) bs (x ∷ dst) = ap suc (length-overwrite n bs dst)

-- What was written is read back.
pub take-overwrite :
    (bs dst : List ℕ) → length bs ≤ length dst → take (length bs) (overwrite 0 bs dst) ≡ bs
unfolding overwrite
take-overwrite [] dst le = refl
take-overwrite (b ∷ bs) [] le = absurd (omega arith)
take-overwrite (b ∷ bs) (x ∷ dst) le = ap (λ t. b ∷ t) (take-overwrite bs dst (omega arith))
