-- ===== src/Daemon/Message/Accept.antt =====
-- `odl_sync_recv_msg` of daemon/src/odl_tb5_daemon_sync_proto.c, which looks at a message's header.
use odin_link_five.Prelude.{
  ℕ, ◌+◌, ◌≤◌, ◌≡◌, ◌↔◌, List, if◌then◌else◌, not, ltb, ◌==◌, ==_iff, take, drop, arith,
}
use odin_link_five.Errno.{Errno, Status, ok, fail, eproto}
use odin_link_five.Daemon.Bytes.{from_le}
use odin_link_five.Daemon.Message.{sync_magic, sync_version}

abbrev pub header_size : ℕ
header_size = 24

-- The field of 32 bits at a place of the buffer.
abbrev pub word_at : ℕ → List ℕ → ℕ
word_at off buf = from_le (take 4 (drop off buf))

-- An error, or 0 with the type of the message.
pub data Received : Type 0 where
  refused : Errno → Received
  accepted : ℕ → Received

module _ (hmac : List ℕ → List ℕ) where
  -- The tag that the header should have.
  abbrev pub expected_tag : List ℕ → ℕ
  expected_tag buf = from_le (take 4 (hmac (take 20 buf)))

  -- The checks, in the code's order, on the message of `actual_len` bytes at the front of the buffer.
  unfoldable pub check_header : List ℕ → ℕ → Received
  check_header buf actual_len =
      if ltb actual_len header_size
      then refused eproto
      else if not (word_at 0 buf == sync_magic)
      then refused eproto
      else if not (word_at 4 buf == sync_version)
      then refused eproto
      else if not (word_at 20 buf == expected_tag buf)
      then refused eproto
      else if ltb actual_len (header_size + word_at 12 buf)
      then refused eproto
      else accepted (word_at 8 buf)

  -- `waited` and `got` are the answers of `odl_tb5_stream_wait_rx` and `odl_tb5_stream_recv`.
  unfoldable pub recv_msg : Status → Status → List ℕ → ℕ → Received
  unfolding check_header
  recv_msg (fail e) got buf actual_len = refused e
  recv_msg ok (fail e) buf actual_len = refused e
  recv_msg ok ok buf actual_len = check_header buf actual_len

  -- What a message must be to be accepted.
  pub record IsAuthentic (buf : List ℕ) (actual_len : ℕ) : Type 0 where
    pub long : header_size + word_at 12 buf ≤ actual_len
    pub magic : word_at 0 buf ≡ sync_magic
    pub version : word_at 4 buf ≡ sync_version
    pub tag : word_at 20 buf ≡ expected_tag buf

  -- A message is accepted if and only if its header is in order, and then with its type.
  pub recv_msg-accepts :
      (buf : List ℕ) (actual_len t : ℕ)
      → (recv_msg ok ok buf actual_len ≡ accepted t)
        ↔ (IsAuthentic buf actual_len × (word_at 8 buf ≡ t))
  unfolding recv_msg check_header
  recv_msg-accepts buf actual_len t = ground (
    arith,
    ==_iff (word_at 0 buf) sync_magic,
    ==_iff (word_at 4 buf) sync_version,
    ==_iff (word_at 20 buf) (expected_tag buf),
  )
