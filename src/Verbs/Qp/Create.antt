-- ===== src/Verbs/Qp/Create.antt =====
-- What `odl_create_qp` and `odl_destroy_qp` of verbs/src/odl_tb5_verbs_qp.c leave behind.
use odin_link_five.Prelude.{
  ℕ, ◌≤◌, ◌<◌, ◌≡◌, ◌≢◌, refl, sym, ap, ◌∙◌, subst, Bool, true, false, List, [], ◌∷◌, ◌++◌, Option,
  none, some, lt→ltb, leb, le→leb, ◌&&◌, ==_iff, length, arith,
}
use odin_link_five.Errno.{enomem, eagain}
use odin_link_five.Verbs.Handles.{tally, tally-remove_added}
use odin_link_five.Verbs.Qp.{
  Qp, Context, CreateAnswers, Created, null, made, max_qps, sq_depth_min, sq_depth_max, sq_depth_of,
  close, start_workers, track, with_tx, with_rx, with_sq, with_qp, new_qp, create_qp, destroy_qp,
}

pub sq_depth_of-bounds :
    (n : ℕ)
    → (sq_depth_min ≤ sq_depth_of n)
      × (sq_depth_of n ≤ sq_depth_max)
      × (n ≤ sq_depth_max → n ≤ sq_depth_of n)
unfolding sq_depth_of
sq_depth_of-bounds n = ground arith

lt→not-leb : {m n : ℕ} → n < m → leb m n ≡ false
lt→not-leb h = ground arith

close-first : (n : ℕ) (xs : List ℕ) → close n (n ∷ xs) ≡ xs
unfolding close
close-first n xs = ground (arith, ==_iff n n)

close-second : (m n : ℕ) (xs : List ℕ) → m ≢ n → close n (m ∷ n ∷ xs) ≡ m ∷ xs
unfolding close
close-second m n xs h = ground (arith, ==_iff m n, ==_iff n n)

-- What the table, the streams and the memory hold is as it was.
abbrev pub is_null : Created → Bool
is_null (null e) = true
is_null (made qp) = false

module _ (a : CreateAnswers) (both_start : a.worker_started ≡ true)
    (rx_starts : a.rx_worker_started ≡ true) where
  track_made :
      (qp : Qp) (ctx : Context) → length ctx.qps < max_qps → is_null (track a qp ctx).0 ≡ false
  unfolding track start_workers
  track_made qp ctx lt = ground arith

  with_tx_null :
      (handle rx requested : ℕ) (tx : Option ℕ) (ctx : Context)
      → length ctx.qps < max_qps
      → is_null
          (with_tx a handle rx requested tx
            (record ctx { streams = rx ∷ ctx.streams; allocated = handle ∷ ctx.allocated })).0
        ≡ true
      → (with_tx a handle rx requested tx
          (record ctx { streams = rx ∷ ctx.streams; allocated = handle ∷ ctx.allocated })).1
        ≡ ctx
  unfolding with_tx
  with_tx_null handle rx requested none ctx lt h =
      rw (close-first rx ctx.streams, close-first handle ctx.allocated) refl
  with_tx_null handle rx requested (some tx) ctx lt h = absurd (
      ground (
        arith,
        track_made (new_qp handle rx tx requested)
            (record ctx { streams = tx ∷ rx ∷ ctx.streams; allocated = handle ∷ ctx.allocated }) lt,
      ))

  with_rx_null :
      (handle requested : ℕ) (rx : Option ℕ) (ctx : Context)
      → length ctx.qps < max_qps
      → is_null
          (with_rx a handle requested rx (record ctx { allocated = handle ∷ ctx.allocated })).0
        ≡ true
      → (with_rx a handle requested rx (record ctx { allocated = handle ∷ ctx.allocated })).1 ≡ ctx
  unfolding with_rx
  with_rx_null handle requested none ctx lt h = rw (close-first handle ctx.allocated) refl
  with_rx_null handle requested (some rx) ctx lt h =
      with_tx_null handle rx requested a.tx_stream ctx lt h

  with_sq_null :
      (handle requested : ℕ) (sq : Bool) (ctx : Context)
      → length ctx.qps < max_qps
      → is_null
          (with_sq a handle requested sq (record ctx { allocated = handle ∷ ctx.allocated })).0
        ≡ true
      → (with_sq a handle requested sq (record ctx { allocated = handle ∷ ctx.allocated })).1 ≡ ctx
  unfolding with_sq
  with_sq_null handle requested true ctx lt h = with_rx_null handle requested a.rx_stream ctx lt h
  with_sq_null handle requested false ctx lt h = rw (close-first handle ctx.allocated) refl

  with_qp_null :
      (requested : ℕ) (at_ : Option ℕ) (ctx : Context)
      → length ctx.qps < max_qps
      → is_null (with_qp a requested at_ ctx).0 ≡ true
      → (with_qp a requested at_ ctx).1 ≡ ctx
  unfolding with_qp
  with_qp_null requested none ctx lt h = refl
  with_qp_null requested (some handle) ctx lt h =
      with_sq_null handle requested a.sq_allocated ctx lt h

  pub create_qp-null :
      (is_rc : Bool) (requested : ℕ) (ctx : Context)
      → length ctx.qps < max_qps
      → is_null (create_qp a is_rc requested ctx).0 ≡ true
      → (create_qp a is_rc requested ctx).1 ≡ ctx
  unfolding create_qp
  create_qp-null true requested ctx lt h = with_qp_null requested a.qp_at ctx lt h
  create_qp-null false requested ctx lt h = refl

-- All that comes before the context's table succeeds.
module _ (a : CreateAnswers) (handle rx tx requested : ℕ) (ctx : Context)
    (answers : (a.qp_at ≡ some handle)
      × (a.sq_allocated ≡ true)
      × (a.rx_stream ≡ some rx)
      × (a.tx_stream ≡ some tx))
    (apart : tx ≢ rx) where
  opened : Context
  opened = record ctx { streams = tx ∷ rx ∷ ctx.streams; allocated = handle ∷ ctx.allocated }

  create_qp-opened : create_qp a true requested ctx ≡ track a (new_qp handle rx tx requested) opened
  unfolding create_qp with_qp with_sq with_rx with_tx opened
  create_qp-opened = let (h, sq, r, t) = answers in rw (h, sq, r, t) refl

  pub create_qp-full :
      max_qps ≤ length ctx.qps
      → create_qp a true requested ctx ≡ (null enomem, record ctx { streams = tx ∷ ctx.streams })
  unfolding track opened new_qp
  create_qp-full full =
      create_qp-opened
      ∙ rw
          (
            le→leb max_qps (length ctx.qps) full,
            close-second tx rx ctx.streams apart,
            close-first handle ctx.allocated,
          )
          refl

  -- When a worker thread does not start, creating a queue pair fails with EAGAIN, closes both streams
  -- and frees the memory, but the context goes on tracking the pointer that was freed. Memory and the
  -- two distinct streams were granted, and the context tracks fewer than 256 queue pairs.
  pub create_qp-no_thread :
      length ctx.qps < max_qps
      → (a.worker_started && a.rx_worker_started) ≡ false
      → create_qp a true requested ctx
        ≡ (null eagain, record ctx { qps = ctx.qps ++ (handle ∷ []) })
  unfolding track start_workers opened new_qp
  create_qp-no_thread room no_thread =
      create_qp-opened
      ∙ rw
          (
            lt→not-leb room,
            no_thread,
            close-first tx (rx ∷ ctx.streams),
            close-first rx ctx.streams,
            close-first handle ctx.allocated,
          )
          refl

  made_ctx : Context
  made_ctx = record opened { qps = ctx.qps ++ (handle ∷ []) }

  create_qp-made :
      length ctx.qps < max_qps
      → (a.worker_started && a.rx_worker_started) ≡ true
      → create_qp a true requested ctx ≡ (made (new_qp handle rx tx requested), made_ctx)
  unfolding track start_workers opened made_ctx new_qp
  create_qp-made room threads = create_qp-opened ∙ rw (lt→not-leb room, threads) refl

  destroy_made :
      0 < rx
      → 0 < tx
      → let ctx' = destroy_qp (new_qp handle rx tx requested) made_ctx in
        (ctx'.streams ≡ ctx.streams)
        × (ctx'.allocated ≡ ctx.allocated)
        × ((p : ℕ → Bool) → tally p ctx'.qps ≡ tally p ctx.qps)
  unfolding destroy_qp new_qp opened made_ctx
  destroy_made rx_pos tx_pos = (
    rw
        (
          lt→ltb 0 rx rx_pos,
          lt→ltb 0 tx tx_pos,
          close-first tx (rx ∷ ctx.streams),
          close-first rx ctx.streams,
        )
        refl,
    close-first handle ctx.allocated,
    tally-remove_added handle ctx.qps,
  )

  -- A queue pair that is created and then destroyed leaves the streams and the memory as they were,
  -- and the context tracks the same queue pairs, apart from their order. Memory, the two distinct
  -- streams with ids above 0, and both threads were granted, and the context tracks fewer than 256
  -- queue pairs.
  pub destroy-create :
      0 < rx
      → 0 < tx
      → length ctx.qps < max_qps
      → (a.worker_started && a.rx_worker_started) ≡ true
      → let ctx' = destroy_qp (new_qp handle rx tx requested) (create_qp a true requested ctx).1 in
        ((create_qp a true requested ctx).0 ≡ made (new_qp handle rx tx requested))
        × (ctx'.streams ≡ ctx.streams)
        × (ctx'.allocated ≡ ctx.allocated)
        × ((p : ℕ → Bool) → tally p ctx'.qps ≡ tally p ctx.qps)
  destroy-create rx_pos tx_pos room threads =
      let same : create_qp a true requested ctx ≡ (made (new_qp handle rx tx requested), made_ctx) =
        create_qp-made room threads in
      let (s_same, a_same, q_same) = destroy_made rx_pos tx_pos in
      let ctx_is = sym (ap (λ (r : Created × Context). r.1) same) in
      (
        ap (λ (r : Created × Context). r.0) same,
        subst
            (λ (x : Context). (destroy_qp (new_qp handle rx tx requested) x).streams ≡ ctx.streams)
            ctx_is s_same,
        subst
            (λ (x : Context).
              (destroy_qp (new_qp handle rx tx requested) x).allocated ≡ ctx.allocated)
            ctx_is a_same,
        λ p.
            subst
              (λ (x : Context).
                tally p (destroy_qp (new_qp handle rx tx requested) x).qps ≡ tally p ctx.qps)
              ctx_is (q_same p),
      )
