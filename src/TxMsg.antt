-- ===== src/TxMsg.antt =====
-- `struct odl_tb5_tx_msg` and its release, of driver/odl_tb5_ring_dma.c: the sender owns one reference
-- and the completions of all frames share another.
pub mod Race
pub mod Release
use odin_link_five.Prelude.{
  ℕ, zero, suc, ◌+◌, ◌-◌, Bool, true, false, not, ◌&&◌, ◌||◌, ◌==◌, if◌then◌else◌,
}

-- `live` turns false at `kfree`. `completion_ref` is 1 or 0.
pub record TxMsg : Type 0 where
  pub frames_pending : ℕ
  pub refs : ℕ
  pub completion_ref : Bool
  pub done : Bool
  pub failed : Bool
  pub live : Bool

-- The counters of the stream that a message is sent on.
pub record StreamTx : Type 0 where
  pub tx_completed : ℕ
  pub tx_in_flight : ℕ
  pub refcount : ℕ

-- What a send sets up before its loop.
abbrev pub new_msg : TxMsg
new_msg = record {
  frames_pending = 0;
  refs = 2;
  completion_ref = true;
  done = false;
  failed = false;
  live = true;
}

unfoldable pub open_send : StreamTx → StreamTx
open_send t = record t { tx_in_flight = t.tx_in_flight + 1; refcount = t.refcount + 1 }

-- `odl_tb5_tx_msg_put`.
unfoldable pub put : TxMsg → StreamTx → TxMsg × StreamTx
put m t =
    if m.refs == 1
    then (
      record m { refs = 0; live = false },
      record {
        tx_completed = if m.failed then t.tx_completed else t.tx_completed + 1;
        tx_in_flight = t.tx_in_flight - 1;
        refcount = t.refcount - 1;
      },
    )
    else (record m { refs = m.refs - 1 }, t)

-- `odl_tb5_tx_msg_maybe_complete`.
unfoldable pub maybe_complete : TxMsg → StreamTx → TxMsg × StreamTx
unfolding put
maybe_complete m t =
    if m.done && (m.frames_pending == 0 && m.completion_ref)
    then put (record m { completion_ref = false }) t
    else (m, t)

-- What `odl_tb5_tx_callback` does to the message of its frame.
unfoldable pub frame_done : Bool → TxMsg → StreamTx → TxMsg × StreamTx
unfolding maybe_complete
frame_done canceled m t =
    let m' = record m { failed = m.failed || canceled; frames_pending = m.frames_pending - 1 } in
    if m.frames_pending == 1 then maybe_complete m' t else (m', t)

-- The end of a send, after its loop.
unfoldable pub close_send : TxMsg → StreamTx → TxMsg × StreamTx
unfolding maybe_complete put
close_send m t = let r = maybe_complete (record m { done = true }) t in put r.0 r.1

-- `n` completions of frames that were not canceled.
unfoldable pub frames_done : ℕ → TxMsg → StreamTx → TxMsg × StreamTx
frames_done zero m t = (m, t)
frames_done (suc n) m t = let r = frame_done false m t in frames_done n r.0 r.1
