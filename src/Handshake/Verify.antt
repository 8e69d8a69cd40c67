-- ===== src/Handshake/Verify.antt =====
-- `odl_tb5_verify_work_fn` and `odl_tb5_ctrl_reply_work_fn` of driver/odl_tb5_proto.c.
use odin_link_five.Prelude.{
  ℕ, zero, suc, ◌+◌, ◌≡◌, refl, ap, Bool, true, false, not, ◌&&◌, ◌||◌, if◌then◌else◌,
}
use odin_link_five.Handshake.{Device, ready, connected, disconnected, handshake, error, ConnState}

-- How `wait_event_interruptible_timeout` ends.
pub data Wait : Type 0 where
  woken timed_out interrupted : Wait

-- What one attempt meets: whether the state is still CONNECTED, whether the reply worker answered a
-- ping by then, whether the own ping goes out, and the end of the wait.
pub record Attempt : Type 0 where
  pub linked : Bool
  pub answered : Bool
  pub ping_sent : Bool
  pub wait : Wait

-- How the attempts end: with a `break`, with `goto out_reset`, or after the last one. With it, the
-- pings that went out.
pub data Verified : Type 0 where
  broke gone exhausted : (pings : ℕ) → Verified

abbrev pub verify_attempts : ℕ
verify_attempts = 300

unfoldable pub after_wait : Wait → ℕ → Verified → Verified
after_wait woken pings rest = broke (pings + 1)
after_wait timed_out pings rest = rest
after_wait interrupted pings rest = gone (pings + 1)

-- The loop from attempt `i`, with `k` attempts left.
unfoldable pub verify_from : (ℕ → Attempt) → Bool → ℕ → ℕ → ℕ → Verified
unfolding after_wait
verify_from attempts kept zero i pings = exhausted pings
verify_from attempts kept (suc k) i pings =
    let rest = verify_from attempts kept k (i + 1) (pings + 1) in
    let a = attempts i in
    if not a.linked
    then gone pings
    else if kept || a.answered
    then broke pings
    else if not a.ping_sent
    then gone pings
    else after_wait a.wait pings rest

abbrev pub pings_of : Verified → ℕ
pings_of (broke n) = n
pings_of (gone n) = n
pings_of (exhausted n) = n

abbrev pub is_connected : ConnState → Bool
is_connected connected = true
is_connected disconnected = false
is_connected handshake = false
is_connected error = false
is_connected ready = false

-- What follows the attempts. `late` is the test of both flags behind the loop. The device is the one
-- that the worker finds then.
unfoldable pub verified : Bool → Bool → Verified → Device → Device
verified removing late (broke n) d = record d { state = ready }
verified removing late (gone n) d = record d {
  restart_work = (not removing && is_connected d.state) || d.restart_work;
}
verified removing late (exhausted n) d =
    if late
    then record d { state = ready }
    else record d { restart_work = (not removing && is_connected d.state) || d.restart_work }

-- The worker: the pings it sends, and the device. `posted` says that receive frames could be posted.
unfoldable pub verify_work_fn : Bool → Bool → Bool → (ℕ → Attempt) → Device → ℕ × Device
unfolding verify_from verified
verify_work_fn removing late posted attempts d0 =
    let d = record d0 { pong_received = false; verify_work = false } in
    let end =
      if posted then verify_from attempts d.peer_ping_answered verify_attempts 0 0 else gone 0 in
    (pings_of end, verified removing late end d)

-- `odl_tb5_ctrl_reply_work_fn` for a ping. `sent` says that the pong goes out.
unfoldable pub ctrl_reply_work_fn : Bool → Device → Device
ctrl_reply_work_fn sent d =
    if sent then record d { peer_ping_answered = true; pong_received = true } else d

verify_from-kept :
    (attempts : ℕ → Attempt) (kept : Bool) (k i pings : ℕ)
    → kept ≡ true
    → (attempts i).linked ≡ true
    → verify_from attempts kept (suc k) i pings ≡ broke pings
unfolding verify_from
verify_from-kept attempts kept k i pings h linked = rw (h, linked) refl

-- Once a ping was answered, the worker declares the link ready and sends no ping of its own.
pub verify_work_fn-answered :
    (removing late : Bool) (attempts : ℕ → Attempt) (d : Device)
    → d.peer_ping_answered ≡ true
    → (attempts 0).linked ≡ true
    → verify_work_fn removing late true attempts d
      ≡ (0, record d { pong_received = false; verify_work = false; state = ready })
unfolding verify_work_fn verified
verify_work_fn-answered removing late attempts d kept linked =
    ap
      (λ end. (
        pings_of end,
        verified removing late end (record d { pong_received = false; verify_work = false }),
      ))
      (verify_from-kept attempts d.peer_ping_answered 299 0 0 kept linked)
