-- ===== src/Verbs/Sq/Fill.antt =====
-- What a slot of the send queue holds once `odl_post_send` has filled it: the request, with the bytes
-- that the application's buffer had at that time.
use odin_link_five.Prelude.{
  ℕ, zero, suc, ◌+◌, ◌≤◌, ◌<◌, ◌≡◌, refl, sym, ap, ◌∙◌, subst, Bool, true, false, List, ◌++◌, none,
  some, if◌then◌else◌, ltb, not-ltb→le, length, take, replicate, length-take, length-append,
  length-replicate, arith, Bool-cases, ◌⊎◌, inl, inr,
}
use odin_link_five.Verbs.Copy.{
  overwrite, wc_stream_copy, wc_stream_copy_lem, length-overwrite, take-overwrite,
}
use odin_link_five.Verbs.Sq.{
  SendWr, Address, in_bounce, in_app, SendEntry, CopyStats, PostEnv, read, resize, copies, copy_in,
  grow, bounced, with_bounce, fill,
}

-- What is to be sent: bytes that were copied, or what will be at an address.
pub data Data : Type 0 where
  bytes : List ℕ → Data
  in_place : ℕ → Data

pub record Request : Type 0 where
  pub wr_id : ℕ
  pub num_sge : ℕ
  pub len : ℕ
  pub lkey : ℕ
  pub payload : Data

abbrev pub data_of : Address → ℕ → List ℕ → Data
data_of in_bounce len storage = bytes (take len storage)
data_of (in_app a) len storage = in_place a

-- The request in a slot.
abbrev pub view : SendEntry → Request
view e = record {
  wr_id = e.wr_id;
  num_sge = e.num_sge;
  len = e.len;
  lkey = e.lkey;
  payload = data_of e.addr e.len e.bounce_storage;
}

-- The request that the application makes.
abbrev pub request : PostEnv → SendWr → Request
request env wr = record {
  wr_id = wr.wr_id;
  num_sge = wr.num_sge;
  len = if ltb 0 wr.num_sge then wr.length else 0;
  lkey = if ltb 0 wr.num_sge then wr.lkey else 0;
  payload =
      if ltb 0 wr.num_sge
      then (if copies env wr then bytes (read env.mem wr.addr wr.length) else in_place wr.addr)
      else in_place 0;
}

-- The bounce buffer is as large as its `bounce_cap` says.
pub record IsSized (e : SendEntry) : Type 0 where
  pub size : length e.bounce_storage ≡ e.bounce_cap

length-read : (mem : ℕ → ℕ) (addr n : ℕ) → length (read mem addr n) ≡ n
unfolding read
length-read mem addr zero = refl
length-read mem addr (suc n) = ap suc (length-read mem (addr + 1) n)

length-resize : (n : ℕ) (xs : List ℕ) → length (resize n xs) ≡ n
length-resize n xs = omega (
  arith,
  length-take n (xs ++ replicate n 0),
  length-append xs (replicate n 0),
  length-replicate {A = ℕ} n 0,
)

module _ (env : PostEnv) (wr : SendWr) where
  src : List ℕ
  src = read env.mem wr.addr wr.length

  Copied : ℕ → List ℕ → Type 0
  Copied n storage =
      let (dst', body) = wc_stream_copy wr.addr src n storage in
      ((body ≡ 0) × (dst' ≡ storage)) ⊎ ((dst' ≡ overwrite 0 src storage) × (0 < body))

  Copied-all : (storage : List ℕ) → Copied (length src) storage
  unfolding Copied
  Copied-all storage = elim (wc_stream_copy_lem wr.addr src storage) [
    | inl (none_of, same) ↦ inl (none_of, same)
    | inr (all, some_of, _, _) ↦ inr (all, some_of)
  ]

  by_lines : (storage : List ℕ) → Copied wr.length storage
  unfolding src
  by_lines storage =
      subst (λ n. Copied n storage) (length-read env.mem wr.addr wr.length) (Copied-all storage)

  -- With either copy, the buffer starts with the source's bytes.
  copy_in_lem :
      (storage : List ℕ) (st : CopyStats) → (copy_in env wr storage st).0 ≡ overwrite 0 src storage
  unfolding copy_in src Copied
  copy_in_lem storage st = ground (arith, by_lines storage)

  bounced_lem :
      (e : SendEntry) (st : CopyStats)
      → IsSized e
      → wr.length ≤ e.bounce_cap
      → let e' = (bounced env wr e st).0 in IsSized e' × (take e'.len e'.bounce_storage ≡ src)
  unfolding bounced src
  bounced_lem e st v le =
      let same = copy_in_lem e.bounce_storage st in
      let n = length-read env.mem wr.addr wr.length in
      (
        record { size = ap length same ∙ length-overwrite 0 src e.bounce_storage ∙ v.size },
        ap (take wr.length) same
            ∙ subst (λ k. take k (overwrite 0 src e.bounce_storage) ≡ src) n
                (take-overwrite src e.bounce_storage (omega (arith, v.size, n))),
      )

  -- The slot as it grows keeps all but its buffer.
  grow_lem :
      (e : SendEntry)
      → IsSized e
      → (grow env wr.length e ≡ none)
        ⊎ ((e' : SendEntry) × (grow env wr.length e ≡ some e')
            × IsSized e'
            × (wr.length ≤ e'.bounce_cap)
            × (e'.wr_id ≡ e.wr_id)
            × (e'.num_sge ≡ e.num_sge))
  unfolding grow
  grow_lem e v = elim (Bool-cases (ltb e.bounce_cap wr.length)) [
    | inl small ↦ elim (Bool-cases (env.can_grow wr.length)) [
      | inl can ↦
          rw (small, can)
            (inr (
              record e {
                bounce_storage = resize wr.length e.bounce_storage;
                bounce_cap = wr.length;
              },
              refl,
              record { size = length-resize wr.length e.bounce_storage },
              omega arith,
              refl,
              refl,
            ))
      | inr cannot ↦ rw (small, cannot) (inl refl)
    ]
    | inr fits ↦
        rw fits
          (inr (e, refl, v, omega (arith, not-ltb→le e.bounce_cap wr.length fits), refl, refl))
  ]

  abbrev pub Filled : Bool × SendEntry × CopyStats → Type 0
  Filled r = IsSized r.1 × ((r.0 ≡ false) ⊎ (view r.1 ≡ request env wr))

  module _ (e : SendEntry) (st : CopyStats) (v : IsSized e) where
    named : SendEntry
    named = record e { wr_id = wr.wr_id; num_sge = wr.num_sge }

    with_bounce_lem :
        ltb 0 wr.num_sge ≡ true
        → copies env wr ≡ true
        → Filled (with_bounce env wr named st (grow env wr.length named))
    unfolding with_bounce named src
    with_bounce_lem some_sge cp = elim (grow_lem named (record { size = v.size })) [
      | inl g ↦ rw g (record { size = v.size }, inl refl)
      | inr (e', g, v', le, id, sge) ↦
          let (size, first) = bounced_lem e' st v' le in
          rw (g, some_sge, cp) (size, inr (rw (id, sge, first) refl))
    ]

    fill-copies :
        ltb 0 wr.num_sge ≡ true
        → copies env wr ≡ true
        → fill env wr e st ≡ with_bounce env wr named st (grow env wr.length named)
    unfolding fill named
    fill-copies some_sge cp = rw (some_sge, cp) refl

    -- `fill` puts the request into the slot, or says that it does not.
    pub fill_lem : Filled (fill env wr e st)
    unfolding fill
    fill_lem = elim (Bool-cases (ltb 0 wr.num_sge)) [
      | inl some_sge ↦ elim (Bool-cases (copies env wr)) [
        | inl cp ↦ subst Filled (sym (fill-copies some_sge cp)) (with_bounce_lem some_sge cp)
        | inr cp ↦ rw (some_sge, cp) (record { size = v.size }, inr refl)
      ]
      | inr none_of ↦ rw none_of (record { size = v.size }, inr refl)
    ]
