-- ===== src/TxMsg/Race.antt =====
-- The sender and the completion callbacks of one message, interleaved access by access:
-- `odl_tb5_tx_callback`, `odl_tb5_tx_msg_maybe_complete`, `odl_tb5_tx_msg_put` and the loop of
-- `odl_tb5_stream_send` of driver/odl_tb5_ring_dma.c.
use odin_link_five.Prelude.{
  ℕ, ◌+◌, ◌-◌, ◌≤◌, ◌<◌, ◌≡◌, ◌≢◌, ◌==◌, if◌then◌else◌, Bool, true, false, arith,
}

-- Where the sender stands: in its loop; between `atomic_inc` and `tb_ring_tx`; at the read of
-- `frames_pending` behind the store to `done`; at `atomic_xchg`; at the put of the reference that it
-- won; at the put of its own; or gone.
pub data Sender : Type 0 where
  looping counted reading swapping dropping leaving left : Sender

-- The message, its frames in the ring, and how many callbacks stand at each of the accesses that
-- follow a decrement to zero: the read of `done`, that of `frames_pending`, the `atomic_xchg` and the
-- put. `frees` counts `kfree`.
pub record Race : Type 0 where
  pub pending : ℕ
  pub refs : ℕ
  pub completion_ref : ℕ
  pub done : Bool
  pub frees : ℕ
  pub sender : Sender
  pub in_ring : ℕ
  pub at_done : ℕ
  pub at_pending : ℕ
  pub at_swap : ℕ
  pub at_put : ℕ

abbrev pub opened : Race
opened = record {
  pending = 0;
  refs = 2;
  completion_ref = 1;
  done = false;
  frees = 0;
  sender = looping;
  in_ring = 0;
  at_done = 0;
  at_pending = 0;
  at_swap = 0;
  at_put = 0;
}

-- `refcount_dec_and_test`, and `kfree` at zero.
abbrev pub drop_ref : Race → Race
drop_ref s = record s { refs = s.refs - 1; frees = if s.refs == 1 then s.frees + 1 else s.frees }

pub data Access : Race → Race → Type 0 where
  -- the sender
  counts :
      (s : Race)
      → s.sender ≡ looping
      → Access s (record s { sender = counted; pending = s.pending + 1 })
  posts :
      (s : Race)
      → s.sender ≡ counted
      → Access s (record s { sender = looping; in_ring = s.in_ring + 1 })
  takes_back :
      (s : Race)
      → s.sender ≡ counted
      → Access s (record s { sender = looping; pending = s.pending - 1 })
  closes : (s : Race) → s.sender ≡ looping → Access s (record s { sender = reading; done = true })
  sees_none :
      (s : Race) → s.sender ≡ reading → s.pending ≡ 0 → Access s (record s { sender = swapping })
  sees_some :
      (s : Race) → s.sender ≡ reading → s.pending ≢ 0 → Access s (record s { sender = leaving })
  wins :
      (s : Race)
      → s.sender ≡ swapping
      → s.completion_ref ≡ 1
      → Access s (record s { sender = dropping; completion_ref = 0 })
  loses :
      (s : Race)
      → s.sender ≡ swapping
      → s.completion_ref ≢ 1
      → Access s (record s { sender = leaving; completion_ref = 0 })
  drops : (s : Race) → s.sender ≡ dropping → Access s (record (drop_ref s) { sender = leaving })
  leaves : (s : Race) → s.sender ≡ leaving → Access s (record (drop_ref s) { sender = left })
  -- a callback
  done_frame :
      (s : Race)
      → 0 < s.in_ring
      → s.pending ≢ 1
      → Access s (record s { in_ring = s.in_ring - 1; pending = s.pending - 1 })
  last_frame :
      (s : Race)
      → 0 < s.in_ring
      → s.pending ≡ 1
      → Access s (record s { in_ring = s.in_ring - 1; pending = 0; at_done = s.at_done + 1 })
  reads_done :
      (s : Race)
      → 0 < s.at_done
      → s.done ≡ true
      → Access s (record s { at_done = s.at_done - 1; at_pending = s.at_pending + 1 })
  reads_open :
      (s : Race) → 0 < s.at_done → s.done ≡ false → Access s (record s { at_done = s.at_done - 1 })
  reads_none :
      (s : Race)
      → 0 < s.at_pending
      → s.pending ≡ 0
      → Access s (record s { at_pending = s.at_pending - 1; at_swap = s.at_swap + 1 })
  reads_some :
      (s : Race)
      → 0 < s.at_pending
      → s.pending ≢ 0
      → Access s (record s { at_pending = s.at_pending - 1 })
  swaps :
      (s : Race)
      → 0 < s.at_swap
      → s.completion_ref ≡ 1
      → Access s (record s { at_swap = s.at_swap - 1; at_put = s.at_put + 1; completion_ref = 0 })
  finds_zero :
      (s : Race)
      → 0 < s.at_swap
      → s.completion_ref ≢ 1
      → Access s (record s { at_swap = s.at_swap - 1; completion_ref = 0 })
  puts : (s : Race) → 0 < s.at_put → Access s (record (drop_ref s) { at_put = s.at_put - 1 })

pub data Accesses : Race → Race → Type 0 where
  start : (s : Race) → Accesses s s
  access : (a b c : Race) → Accesses a b → Access b c → Accesses a c

-- The sender's own reference, its share of the other one, and the frame it counted but did not post.
abbrev pub own : Sender → ℕ
own left = 0
own looping = 1
own counted = 1
own reading = 1
own swapping = 1
own dropping = 1
own leaving = 1

abbrev pub won : Sender → ℕ
won dropping = 1
won looping = 0
won counted = 0
won reading = 0
won swapping = 0
won leaving = 0
won left = 0

abbrev pub unposted : Sender → ℕ
unposted counted = 1
unposted looping = 0
unposted reading = 0
unposted swapping = 0
unposted dropping = 0
unposted leaving = 0
unposted left = 0

-- Past its test, the sender leaves the release to the callbacks.
abbrev pub past : Sender → Bool
past leaving = true
past left = true
past looping = false
past counted = false
past reading = false
past swapping = false
past dropping = false

abbrev pub is_open : Sender → Bool
is_open looping = true
is_open counted = true
is_open reading = false
is_open swapping = false
is_open dropping = false
is_open leaving = false
is_open left = false

-- References are held by exactly those who will put them; the second is handed on once; the message
-- is freed when none is left; frames pending are those in the ring and the one to be posted; `done`
-- is set when the loop is left; and what the sender leaves to the callbacks, one of them will do.
abbrev pub IsCounted : Race → Type 0
IsCounted s =
    (s.refs ≡ own s.sender + s.completion_ref + s.at_put + won s.sender)
    × (s.completion_ref + s.at_put + won s.sender ≤ 1)
    × (s.refs ≢ 0 → s.frees ≡ 0)
    × (s.refs ≡ 0 → s.frees ≡ 1)
    × (s.pending ≡ s.in_ring + unposted s.sender)
    × (is_open s.sender ≡ false → s.done ≡ true)
    × (past s.sender ≡ true
        → s.completion_ref ≡ 1
        → 0 < s.pending + s.at_done + s.at_pending + s.at_swap)

pub Access-IsCounted : (a b : Race) → Access a b → IsCounted a → IsCounted b
Access-IsCounted _ _ (counts s p) h = ground arith
Access-IsCounted _ _ (posts s p) h = ground arith
Access-IsCounted _ _ (takes_back s p) h = ground arith
Access-IsCounted _ _ (closes s p) h = ground arith
Access-IsCounted _ _ (sees_none s p q) h = ground arith
Access-IsCounted _ _ (sees_some s p q) h = ground arith
Access-IsCounted _ _ (wins s p q) h = ground arith
Access-IsCounted _ _ (loses s p q) h = ground arith
Access-IsCounted _ _ (drops s p) h = ground arith
Access-IsCounted _ _ (leaves s p) h = ground arith
Access-IsCounted _ _ (done_frame s p q) h = ground arith
Access-IsCounted _ _ (last_frame s p q) h = ground arith
Access-IsCounted _ _ (reads_done s p q) h = ground arith
Access-IsCounted _ _ (reads_open s p q) h = ground arith
Access-IsCounted _ _ (reads_none s p q) h = ground arith
Access-IsCounted _ _ (reads_some s p q) h = ground arith
Access-IsCounted _ _ (swaps s p q) h = ground arith
Access-IsCounted _ _ (finds_zero s p q) h = ground arith
Access-IsCounted _ _ (puts s p) h = ground arith
