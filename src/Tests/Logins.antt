-- ===== src/Tests/Logins.antt =====
-- The theorems on the handshake, applied to one device.
use odin_link_five.Prelude.{ℕ, ◌≡◌, refl, true, false, some, arith}
use odin_link_five.Errno.{ok, fail, eagain, etimedout}
use odin_link_five.Handshake.{
  Device, handshake, ready, LoginMsg, handle_login, handle_logout, unanswered, send_login,
  login_work_fn, restart_work_fn,
}
use odin_link_five.Handshake.Rings.{RingAlloc, given}
use odin_link_five.Handshake.Depth.{ring_depth_ok}
use odin_link_five.Handshake.Connect.{go, begin_connect, finish_connect}
use odin_link_five.Handshake.Verify.{Attempt, woken, verify_work_fn}
use odin_link_five.Handshake.Stretch.{Run, between, restart_work_fn-Run}
use odin_link_five.Handshake.Agreement.{IsConsistent}
use odin_link_five.Handshake.Answered.{verify-outlives}
use odin_link_five.Handshake.Stale.{Meets, nothing, accepts, finish_connect-stale}
use odin_link_five.Handshake.Stale
use odin_link_five.Handshake.Connect.{Core, connect_rest}
use odin_link_five.Handshake.Forgotten.{login_forgotten}
use odin_link_five.Handshake.{answer, accepted, LoginResponse}

abbrev device : Device
device = record {
  state = handshake;
  login_sent = true;
  login_received = true;
  connecting = false;
  login_generation = 2;
  login_retries = 0;
  ring_size = 1024;
  peer_ring_size = 1024;
  started = false;
  local_tx_hopid = 8;
  remote_tx_hopid = 9;
  stale_remote_tx_hopid = 0;
  in_hopid_valid = false;
  in_hopid = 0;
  pong_received = false;
  peer_ping_answered = false;
  login_work = false;
  connect_work = true;
  restart_work = false;
  verify_work = false;
}

abbrev login : LoginMsg
login = record { size = 48; proto_version = 3; transmit_path = 11; packet_slots = 1024 }

once_failed : (login_work_fn false 20 (unanswered etimedout) device).0 ≡ some 1000
unfolding login_work_fn send_login
once_failed = refl

-- Rings are always to be had, with output hop 8.
abbrev always : ℕ → RingAlloc
always n = given 8

went : (begin_connect false always device).0 ≡ go 9 2
unfolding begin_connect ring_depth_ok
went = refl

sound : IsConsistent device
unfolding ring_depth_ok
sound = (refl, (λ e. refl), refl, refl, (λ e. e))

abbrev connecting_device : Device
connecting_device = record device { connect_work = false; connecting = true }

finish_connect-stale_example : finish_connect 2 (handle_logout connecting_device) ≡ (
  fail eagain,
  record (handle_logout connecting_device) { started = false; in_hopid_valid = false },
)
finish_connect-stale_example =
    finish_connect-stale 1 connecting_device (handle_logout connecting_device)
      (Stale.peer_logout connecting_device (nothing connecting_device)) (omega arith) (omega arith)
      (omega arith)

-- A link that was up once, and was restarted.
abbrev answered : Device
answered = record device { state = ready; peer_ping_answered = true; restart_work = true }

restarted :
    Run
      (record { device = answered; attempt = between })
      (record { device = restart_work_fn answered; attempt = between })
restarted = restart_work_fn-Run answered refl

abbrev attempts : ℕ → Attempt
attempts n = record { linked = true; answered = false; ping_sent = true; wait = woken }

verify-outlives_example : verify_work_fn false false true attempts (restart_work_fn answered) ≡ (
  0,
  record (restart_work_fn answered) { pong_received = false; verify_work = false; state = ready },
)
verify-outlives_example =
    verify-outlives (record { device = answered; attempt = between })
      (record { device = restart_work_fn answered; attempt = between }) false attempts refl
      restarted refl

abbrev willing : Core
willing = record { alloc_hopid = ok; prime = ok; enable = λ i. ok }

abbrev yes_answer : LoginResponse
yes_answer = record { status = accepted; transmit_path = 11; packet_slots = 1024 }

abbrev Forgotten : Type 0
Forgotten =
    let b = (handle_login false true login connecting_device).1 in
    let c = restart_work_fn (connect_rest willing 9 2 b) in
    let e = (login_work_fn false 20 (answer true true yes_answer) c).1 in
    (accepts (handle_login false true login connecting_device).0 ≡ true)
    × (b.login_received ≡ true)
    × (e.login_sent ≡ true)
    × (e.login_received ≡ false)
    × (e.login_work ≡ false)
    × (e.connect_work ≡ false)
    × (e.restart_work ≡ false)
    × (e.verify_work ≡ false)

login_forgotten_example : Forgotten
unfolding ring_depth_ok
login_forgotten_example =
    login_forgotten willing 9 20 login yes_answer connecting_device refl (omega arith) refl refl
      refl
