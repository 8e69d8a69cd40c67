-- ===== src/Send.antt =====
-- `odl_tb5_stream_send_latency` of driver/odl_tb5_ring_dma.c: a message is cut into frames, each in a
-- slot of the frame pool. What the other threads, the user's memory and the ring do in a round of
-- the loop is asked of a `Round`.
pub mod Chunks
pub mod Prefix
pub mod Total
use odin_link_five.Prelude.{
  ℕ, zero, suc, ◌+◌, ◌-◌, ◌%◌, min, Bool, true, false, ltb, ◌==◌, List, [], ◌∷◌, ◌++◌, Option, none,
  some, if◌then◌else◌, set, take, drop, length,
}
use odin_link_five.Errno.{Errno, Status, ok, fail, etimedout, erestartsys, efault, eio}
use odin_link_five.Wire.{StreamHdr, encode_hdr, frag_flags, stream_payload_max}
use odin_link_five.FramePool.{FramePool, tx_pool_reserve}
use odin_link_five.FramePool
use odin_link_five.TxMsg.{TxMsg}

-- The environment of one round. `during` is what others do to the pool while the sender waits, and
-- `between` what they do after its wait and before it takes the pool's lock. `completed` frames of
-- this message come back meanwhile. A wait whose condition holds returns at once; otherwise it ends
-- by a signal or by its timeout.
pub record Round : Type 0 where
  pub during : FramePool → FramePool
  pub completed : ℕ
  pub signalled : Bool
  pub between : FramePool → FramePool
  pub copy_fault : Bool
  pub ring_refuses : Bool

-- The state of the loop; `ring` holds the frames that `tb_ring_tx` took, in order.
pub record Sending : Type 0 where
  pub pool : FramePool
  pub frames_pending : ℕ
  pub sent : ℕ
  pub frag_idx : ℕ
  pub ring : List (List ℕ)

-- The parts of a call that do not change: the stream, the peer's stream, the message's name, the
-- data.
pub record Call : Type 0 where
  pub src_id : ℕ
  pub dst_id : ℕ
  pub msg : ℕ
  pub bytes : List ℕ

-- The payload of this round, and the frame that carries it.
abbrev pub payload_size : Call → Sending → ℕ
payload_size c s = min (length c.bytes - s.sent) stream_payload_max

unfoldable pub build_frame : Call → Sending → List ℕ
build_frame c s =
    encode_hdr (record {
      src_id = c.src_id;
      dst_id = c.dst_id;
      flags = frag_flags (s.sent == 0) (s.sent + payload_size c s == length c.bytes);
      reserved = 0;
      payload_len = payload_size c s;
      frag_idx = s.frag_idx;
    })
    ++ take (payload_size c s) (drop s.sent c.bytes)

unfoldable pub own_slot : FramePool → ℕ → ℕ → FramePool
own_slot p i m = record p { slots = set p.slots i (record { in_use = true; tx_msg = some m }) }

-- The round from the slot on.
unfoldable pub fill_slot : Round → Call → ℕ → Sending → Option Status × Sending
unfolding own_slot
fill_slot r c i s =
    if r.copy_fault
    then (
      some (fail efault),
      record s { pool = FramePool.put s.pool i; frag_idx = (s.frag_idx + 1) % 65536 },
    )
    else if r.ring_refuses
    then (
      some (fail eio),
      record s {
        pool = FramePool.put (own_slot s.pool i c.msg) i;
        frag_idx = (s.frag_idx + 1) % 65536;
      },
    )
    else (
      none,
      record {
        pool = own_slot s.pool i c.msg;
        frames_pending = s.frames_pending + 1;
        sent = s.sent + payload_size c s;
        frag_idx = (s.frag_idx + 1) % 65536;
        ring = s.ring ++ build_frame c s ∷ [];
      },
    )

-- `none` is `continue`: the pool was emptied by others between the wait and the lock.
unfoldable pub with_slot : Round → Call → Option ℕ → Sending → Option Status × Sending
unfolding fill_slot
with_slot r c none s = (none, s)
with_slot r c (some i) s = fill_slot r c i s

unfoldable pub send_round : Round → Call → Sending → Option Status × Sending
unfolding with_slot
send_round r c s =
    let waited = r.during s.pool in
    let got = FramePool.get (r.between waited) in
    let pending = s.frames_pending - r.completed in
    if ltb tx_pool_reserve waited.free_count
    then with_slot r c got.0 (record s { pool = got.1; frames_pending = pending })
    else (
      some (fail (if r.signalled then erestartsys else etimedout)),
      record s { pool = waited; frames_pending = pending },
    )

-- After a round: leave the loop with a status, or go on.
unfoldable pub after_round :
    (Sending → Option (Status × Sending)) → Option Status × Sending → Option (Status × Sending)
after_round go (none, s) = go s
after_round go (some status, s) = some (status, s)

-- The loop, with fuel for the rounds: `none` if it ran out.
unfoldable pub send_loop : ℕ → (ℕ → Round) → ℕ → Call → Sending → Option (Status × Sending)
unfolding after_round
send_loop zero env n c s = none
send_loop (suc fuel) env n c s = elim (ltb s.sent (length c.bytes)) [
  | true ↦ after_round (send_loop fuel env (n + 1) c) (send_round (env n) c s)
  | false ↦ some (ok, s)
]
