-- ===== src/Daemon/Receiver.antt =====
-- `sync_receiver_loop` of daemon/src/odl_tb5_daemon_sync.c: what a round of the receiver thread does
-- with what it has received.
use odin_link_five.Prelude.{
  ℕ, ◌≤◌, ◌≡◌, ◌≢◌, Bool, true, false, List, if◌then◌else◌, ltb, ◌==◌, ==_iff, arith,
}
use odin_link_five.Errno.{Errno, Status, ok, fail, eagain, eintr, etimedout, eproto}
use odin_link_five.Daemon.Message.{sync_magic}
use odin_link_five.Daemon.Message.Accept.{
  header_size, word_at, refused, expected_tag, recv_msg, check_header,
}

-- `ODL_CLI_MAGIC`, and the size of `struct odl_cli_header`.
abbrev pub cli_magic : ℕ
cli_magic = 0x4F444C43

abbrev pub cli_header_size : ℕ
cli_header_size = 24

-- A round ends the thread, goes on with nothing, or hands the message to a handler: the one for its
-- type, or the one for the messages of the command line.
pub data Round : Type 0 where
  stop : Round
  skip : Round
  dispatch : ℕ → Round
  cli : ℕ → Round

-- The errors after which the loop goes on.
abbrev pub retries : Errno → Bool
retries eagain = true
retries eintr = true
retries etimedout = true
retries _ = false

abbrev pub after_error : Bool → Errno → Round
after_error running e = if running then (if retries e then skip else stop) else stop

-- A message of `actual_len` bytes at the front of the buffer.
unfoldable pub sort_message : List ℕ → ℕ → Round
sort_message buf actual_len =
    if ltb actual_len 4
    then skip
    else if word_at 0 buf == sync_magic
    then (if ltb actual_len header_size then skip else dispatch (word_at 8 buf))
    else if word_at 0 buf == cli_magic
    then (if ltb actual_len cli_header_size then skip else cli (word_at 4 buf))
    else skip

-- `running` is `recv_running`; `waited` and `got` are the answers of `odl_tb5_stream_wait_rx` and
-- `odl_tb5_stream_recv`.
unfoldable pub receive_round : Bool → Status → Status → List ℕ → ℕ → Round
unfolding sort_message
receive_round running (fail e) got buf actual_len = after_error running e
receive_round running ok (fail e) buf actual_len = after_error running e
receive_round running ok ok buf actual_len = sort_message buf actual_len

-- A message with the protocol's magic whose tag is not the one that the key gives is refused by
-- odl_sync_recv_msg with EPROTO, but the receiver thread hands it to the handler for its type.
pub receive_round-unchecked :
    (hmac : List ℕ → List ℕ) (running : Bool) (buf : List ℕ) (actual_len : ℕ)
    → word_at 0 buf ≡ sync_magic
    → header_size ≤ actual_len
    → word_at 20 buf ≢ expected_tag hmac buf
    → (recv_msg hmac ok ok buf actual_len ≡ refused eproto)
      × (receive_round running ok ok buf actual_len ≡ dispatch (word_at 8 buf))
unfolding receive_round sort_message recv_msg check_header
receive_round-unchecked hmac running buf actual_len magic long wrong =
    ground
      (arith, ==_iff (word_at 0 buf) sync_magic, ==_iff (word_at 20 buf) (expected_tag hmac buf))
