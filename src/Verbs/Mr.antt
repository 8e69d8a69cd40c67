-- ===== src/Verbs/Mr.antt =====
-- Memory regions: verbs/src/odl_tb5_verbs_mr.c, and `odl_lookup_dmabuf` of
-- verbs/src/odl_tb5_verbs_qp.c. A region has the address that `calloc` gave it, so the addresses of
-- the regions of a context are distinct. The addresses, and the descriptor that `fcntl` answers for
-- the duplicate, are arguments.
use odin_link_five.Prelude.{
  ℕ, ◌+◌, ◌%◌, ◌^◌, ◌≤◌, ◌<◌, ◌≡◌, refl, ◌∙◌, Bool, true, false, ◌&&◌, List, [], ◌∷◌, ◌++◌, Option,
  none, some, if◌then◌else◌, ltb, ◌==◌, ==_iff, arith, ◌⊎◌,
}
use odin_link_five.Verbs.Handles
use odin_link_five.Verbs.Handles.{add, tally, tally-remove, tally-append}

-- `struct odl_verbs_mr`; `ptr` is its own address.
pub record Mr : Type 0 where
  pub ptr : ℕ
  pub lkey : ℕ
  pub is_dmabuf : Bool
  pub host_addr : ℕ
  pub length : ℕ
  pub dmabuf_fd : Option ℕ
  pub dmabuf_offset : ℕ
  pub iova : ℕ
  pub access_flags : ℕ

abbrev pub max_mrs : ℕ
max_mrs = 512

abbrev no_mr : Mr
no_mr = record {
  ptr = 0;
  lkey = 0;
  is_dmabuf = false;
  host_addr = 0;
  length = 0;
  dmabuf_fd = none;
  dmabuf_offset = 0;
  iova = 0;
  access_flags = 0;
}

-- `hca_va ? hca_va : addr`. The null answer is `none`; `allocated` is `calloc`'s.
unfoldable pub host_mr : ℕ → ℕ → ℕ → ℕ → ℕ → Mr
host_mr ptr addr length hca_va access = record no_mr {
  ptr = ptr;
  host_addr = addr;
  length = length;
  access_flags = access;
  iova = if hca_va == 0 then addr else hca_va;
}

unfoldable pub reg_mr : Option ℕ → ℕ → ℕ → ℕ → ℕ → List Mr → Option (List Mr)
unfolding host_mr add
reg_mr none addr length hca_va access mrs = none
reg_mr (some ptr) addr length hca_va access mrs =
    add max_mrs (host_mr ptr addr length hca_va access) mrs

-- "Use a unique handle for lookup": the low 32 bits of the region's address.
unfoldable pub dmabuf_mr : ℕ → ℕ → ℕ → ℕ → ℕ → ℕ → Mr
dmabuf_mr ptr fd offset length iova access = record no_mr {
  ptr = ptr;
  is_dmabuf = true;
  length = length;
  dmabuf_fd = some fd;
  dmabuf_offset = offset;
  iova = iova;
  access_flags = access;
  lkey = ptr % 2 ^ 32;
}

-- The answers of `calloc` and of `fcntl(fd, F_DUPFD_CLOEXEC, 3)`.
unfoldable pub reg_dmabuf_mr : Option ℕ → Option ℕ → ℕ → ℕ → ℕ → ℕ → List Mr → Option (List Mr)
unfolding dmabuf_mr add
reg_dmabuf_mr none dup offset length iova access mrs = none
reg_dmabuf_mr (some ptr) none offset length iova access mrs = none
reg_dmabuf_mr (some ptr) (some fd) offset length iova access mrs =
    add max_mrs (dmabuf_mr ptr fd offset length iova access) mrs

abbrev pub at_ptr : ℕ → Mr → Bool
at_ptr ptr mr = mr.ptr == ptr

unfoldable pub dereg_mr : ℕ → List Mr → List Mr
unfolding Handles.remove
dereg_mr ptr mrs = Handles.remove (at_ptr ptr) mrs no_mr

-- The test of the loop.
abbrev pub has_key : ℕ → Mr → Bool
has_key lkey mr = mr.lkey == lkey && mr.is_dmabuf

unfoldable pub lookup_in : ℕ → List Mr → Option ℕ
lookup_in lkey [] = none
lookup_in lkey (mr ∷ mrs) = if has_key lkey mr then mr.dmabuf_fd else lookup_in lkey mrs

-- The descriptor, or `none` for -1.
unfoldable pub lookup_dmabuf : ℕ → List Mr → Option ℕ
unfolding lookup_in
lookup_dmabuf lkey mrs = if lkey == 0 then none else lookup_in lkey mrs

lookup_in-none :
    (lkey : ℕ) (mrs : List Mr) → tally (has_key lkey) mrs ≡ 0 → lookup_in lkey mrs ≡ none
unfolding lookup_in
lookup_in-none lkey [] e = refl
lookup_in-none lkey (mr ∷ mrs) e = ground (arith, lookup_in-none lkey mrs)

lookup_in-append :
    (lkey : ℕ) (mrs : List Mr) (mr : Mr)
    → lookup_in lkey (mrs ++ (mr ∷ []))
      ≡ (if ltb 0 (tally (has_key lkey) mrs) then lookup_in lkey mrs else lookup_in lkey (mr ∷ []))
unfolding lookup_in
lookup_in-append lkey [] mr = refl
lookup_in-append lkey (m ∷ mrs) mr = ground (arith, lookup_in-append lkey mrs mr)

module _ (ptr fd offset size iova access : ℕ) (mrs : List Mr) where
  abbrev key : ℕ
  key = ptr % 2 ^ 32

  -- A buffer that is registered is found under its key, unless the key is 0 or another region has it.
  pub lookup-reg_dmabuf_mr :
      {mrs' : List Mr}
      → reg_dmabuf_mr (some ptr) (some fd) offset size iova access mrs ≡ some mrs'
      → 0 < key
      → tally (has_key key) mrs ≡ 0
      → lookup_dmabuf key mrs' ≡ some fd
  unfolding reg_dmabuf_mr add dmabuf_mr lookup_dmabuf lookup_in
  lookup-reg_dmabuf_mr h pos alone =
      ground
        (arith, lookup_in-append key mrs (dmabuf_mr ptr fd offset size iova access), ==_iff key key)

  -- A dma-buf region that was registered is not found by its key if the low 32 bits of its address
  -- are 0 or are the key of a dma-buf region that was there before: the lookup goes on as if it were
  -- not there.
  pub lookup-collides :
      {mrs' : List Mr}
      → reg_dmabuf_mr (some ptr) (some fd) offset size iova access mrs ≡ some mrs'
      → (key ≡ 0) ⊎ (0 < tally (has_key key) mrs)
      → lookup_dmabuf key mrs' ≡ lookup_dmabuf key mrs
  unfolding reg_dmabuf_mr add dmabuf_mr lookup_dmabuf lookup_in
  lookup-collides h pos =
      ground
        (arith, lookup_in-append key mrs (dmabuf_mr ptr fd offset size iova access), ==_iff key key)

both : ℕ → ℕ → Mr → Bool
both ptr lkey mr = at_ptr ptr mr && has_key lkey mr

tally-both : (ptr lkey : ℕ) (mrs : List Mr) → tally (both ptr lkey) mrs ≤ tally (at_ptr ptr) mrs
unfolding both
tally-both ptr lkey [] = omega arith
tally-both ptr lkey (mr ∷ mrs) = ground (arith, tally-both ptr lkey mrs)

-- After the region that has a key is gone, the key is not found.
pub lookup-dereg_mr :
    (ptr lkey : ℕ) (mrs : List Mr)
    → tally (at_ptr ptr) mrs ≡ 1
    → tally (has_key lkey) mrs ≡ 1
    → tally (λ mr. at_ptr ptr mr && has_key lkey mr) mrs ≡ 1
    → lookup_dmabuf lkey (dereg_mr ptr mrs) ≡ none
unfolding lookup_dmabuf dereg_mr both
lookup-dereg_mr ptr lkey mrs one once same =
    let (x, here, left) = tally-remove (at_ptr ptr) mrs no_mr (omega arith) in
    let rest = Handles.remove (at_ptr ptr) mrs no_mr in
    let a : tally (at_ptr ptr) rest + (if at_ptr ptr x then 1 else 0) ≡ 1 =
      left (at_ptr ptr) ∙ one in
    let b : tally (has_key lkey) rest + (if has_key lkey x then 1 else 0) ≡ 1 =
      left (has_key lkey) ∙ once in
    let c : tally (both ptr lkey) rest + (if both ptr lkey x then 1 else 0) ≡ 1 =
      left (both ptr lkey) ∙ same in
    let gone : tally (has_key lkey) rest ≡ 0 = ground (arith, tally-both ptr lkey rest) in
    ground (arith, lookup_in-none lkey rest gone)
