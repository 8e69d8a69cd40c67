-- ===== src/Verbs/Worker/Snapshot.antt =====
-- What `odl_qp_worker` of verbs/src/odl_tb5_verbs_qp.c sends for a request that was copied when it
-- was posted.
use odin_link_five.Prelude.{
  ℕ, ◌≡◌, refl, sym, ap, ◌∙◌, subst, true, get_or, List, [], ◌∷◌, ◌++◌, none, ltb, map, take,
}
use odin_link_five.Errno.{ok}
use odin_link_five.Verbs.Mr.{Mr, lookup_dmabuf}
use odin_link_five.Verbs.Sq.{SendWr, Address, in_bounce, in_app, SendQueue, PostEnv, read, copies}
use odin_link_five.Verbs.Sq.Fill.{Request, Data, bytes, in_place, data_of, view, request}
use odin_link_five.Verbs.Sq.Post.{waiting}
use odin_link_five.Verbs.Sq.Head.{head_entry, entries-head}
use odin_link_five.Verbs.Worker.{
  host, Peeked, peeked, trying, try_send, bytes_at, payload_of, transmit,
}
use odin_link_five.Verbs.Worker.World.{World, attempt, StageOk, IsOrdered}

abbrev copied_bytes : Data → List ℕ
copied_bytes (bytes bs) = bs
copied_bytes (in_place a) = []

bytes_of :
    (mem : ℕ → ℕ) (a : Address) (len : ℕ) (storage bs : List ℕ)
    → data_of a len storage ≡ bytes bs
    → (elim a [ in_bounce ↦ take len storage | in_app x ↦ read mem x len ]) ≡ bs
bytes_of mem in_bounce len storage bs e = ap copied_bytes e
bytes_of mem (in_app x) len storage bs e = absurd (cc)

payload_of-none :
    (mem : ℕ → ℕ) (mrs : List Mr) (q : SendQueue) (p : Peeked)
    → lookup_dmabuf p.lkey mrs ≡ none
    → payload_of mem mrs q p ≡ host (bytes_at mem q p)
payload_of-none mem mrs q p h = rw (payload_of, h) refl

head_of : (x y : Request) (xs ys : List Request) → x ∷ xs ≡ y ∷ ys → x ≡ y
head_of x y xs ys e = ap (λ l. get_or l 0 x) e

module _ (env : PostEnv) (wr : SendWr) (cp : copies env wr ≡ true)
    (some_sge : ltb 0 wr.num_sge ≡ true) where
  -- The request's parts, seen from a slot that holds it.
  payload_is :
      request env wr ≡ record (request env wr) { payload = bytes (read env.mem wr.addr wr.length) }
  payload_is = rw (some_sge, cp) refl

  key_is : (request env wr).lkey ≡ wr.lkey
  key_is = rw some_sge refl

  module _ (q : SendQueue) (e : view (head_entry q) ≡ request env wr) (mem : ℕ → ℕ) where
    bytes_at-head : bytes_at mem q (peeked q) ≡ read env.mem wr.addr wr.length
    bytes_at-head =
        let x = head_entry q in
        bytes_of mem x.addr x.len x.bounce_storage (read env.mem wr.addr wr.length)
          (ap (λ (r : Request). r.payload) (e ∙ payload_is))

    payload_of-head :
        (mrs : List Mr)
        → lookup_dmabuf wr.lkey mrs ≡ none
        → payload_of mem mrs q (peeked q) ≡ host (read env.mem wr.addr wr.length)
    payload_of-head mrs h =
        let key : (peeked q).lkey ≡ wr.lkey = ap (λ (r : Request). r.lkey) e ∙ key_is in
        payload_of-none mem mrs q (peeked q) (ap (λ k. lookup_dmabuf k mrs) key ∙ h)
        ∙ ap host bytes_at-head

    num_sge-head : ltb 0 (peeked q).num_sge ≡ true
    num_sge-head = ap (λ (r : Request). ltb 0 r.num_sge) e ∙ some_sge

  -- When the driver takes the request at the head, whose bytes were copied when it was posted, what
  -- goes out is what stood in the application's memory at that call, whatever its memory holds by
  -- now. The state is one that satisfies the ordering invariant with the worker at that request, and
  -- its key names no dma-buf.
  pub attempt-snapshot :
      (mem : ℕ → ℕ) (mrs : List Mr) (rest : List Request) (p : Peeked) {w : World}
      → IsOrdered w
      → w.stage ≡ trying p
      → waiting w.side.queue ≡ request env wr ∷ rest
      → lookup_dmabuf wr.lkey mrs ≡ none
      → (attempt mem mrs ok p w).side.wire
        ≡ w.side.wire
          ++ (record {
            src = w.side.tx_stream_id;
            dst = w.side.dest_qp;
            payload = host (read env.mem wr.addr wr.length);
          }
              ∷ [])
  unfolding try_send transmit
  attempt-snapshot mem mrs rest p {w} i here front h =
      let q = w.side.queue in
      let (_, some_wait, same) = subst (λ st. StageOk st q) here i.stage_ok in
      let first : view (head_entry q) ≡ request env wr =
        head_of _ _ _ _ (sym (ap (map view) (entries-head true q some_wait)) ∙ front) in
      let load : payload_of mem mrs q p ≡ host (read env.mem wr.addr wr.length) =
        ap (payload_of mem mrs q) same ∙ payload_of-head q first mem mrs h in
      let sge : ltb 0 p.num_sge ≡ true =
        ap (λ (x : Peeked). ltb 0 x.num_sge) same ∙ num_sge-head q first mem in
      rw (sge, load) refl
