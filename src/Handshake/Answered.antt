-- ===== src/Handshake/Answered.antt =====
-- How `peer_ping_answered` of driver/odl_tb5_proto.c outlives the connection it was set on.
use odin_link_five.Prelude.{
  ℕ, ◌≡◌, refl, ap, ◌∙◌, Bool, true, false, if◌then◌else◌, arith, min, ltb,
}
use odin_link_five.Errno.{Status, ok, fail}
use odin_link_five.Handshake.{
  ready, Device, LoginMsg, handle_login, handle_logout, note_login, Reply, unanswered, answer,
  login_ok, send_login, after_login, login_work_fn,
}
use odin_link_five.Handshake.Rings.{RingAlloc, rings_start, rings_stop, rings_resize}
use odin_link_five.Handshake.Connect.{
  begin_connect, finish_connect, after_resize, after_agreement, after_connect,
}
use odin_link_five.Handshake.Verify.{
  Attempt, Verified, broke, gone, exhausted, verified, verify_work_fn, verify_from, verify_attempts,
  ctrl_reply_work_fn,
}
use odin_link_five.Handshake.Agreement.{rings_resize-rest}
use odin_link_five.Handshake.Verify.{verify_work_fn-answered}
use odin_link_five.Handshake.Stretch.{
  Conf, Step, Stretch, Connects, refuses, holds_hop, runs_rings, stops_rings, releases, connects,
  gives_up, peer_login, peer_logout, logs_in, begins, goes_on, restarts, Restarts, cancels, stops,
  rests, lets_go, again, replies, verifies, Run, start, step,
}

after_resize-answered :
    (r : Status × Device) → (after_resize r).1.peer_ping_answered ≡ r.1.peer_ping_answered
unfolding after_resize after_agreement
after_resize-answered (ok, d) = refl
after_resize-answered (fail e, d) = refl

after_agreement-answered :
    (b : Bool) (d : Device) → (after_agreement b d).1.peer_ping_answered ≡ d.peer_ping_answered
unfolding after_agreement
after_agreement-answered true d = refl
after_agreement-answered false d = refl

begin_connect-answered :
    (alloc : ℕ → RingAlloc) (d : Device)
    → (begin_connect false alloc d).1.peer_ping_answered ≡ d.peer_ping_answered
unfolding begin_connect
begin_connect-answered alloc d0 =
    let d = record d0 { connect_work = false } in
    let agreed = min d.ring_size d.peer_ring_size in
    ground (
      arith,
      after_resize-answered (rings_resize alloc agreed d),
      ap (λ x. x.peer_ping_answered) (rings_resize-rest alloc agreed d),
      after_agreement-answered (ltb agreed d.peer_ring_size) d,
      after_agreement-answered false d,
    )

handle_login-answered :
    (sent : Bool) (m : LoginMsg) (d : Device)
    → (handle_login false sent m d).1.peer_ping_answered ≡ d.peer_ping_answered
unfolding handle_login note_login
handle_login-answered sent m d = ground arith

send_login-answered :
    (r : Reply) (d : Device) → (send_login false r d).1.peer_ping_answered ≡ d.peer_ping_answered
unfolding send_login login_ok
send_login-answered (unanswered e) d = refl
send_login-answered (answer u t r) d = ground arith

login_work_fn-answered :
    (n : ℕ) (r : Reply) (d : Device)
    → (login_work_fn false n r d).1.peer_ping_answered ≡ d.peer_ping_answered
unfolding login_work_fn after_login
login_work_fn-answered n r d =
    ground (arith, send_login-answered r (record d { login_work = false }))

Connects-answered :
    (a b : Stretch) (d d' : Device)
    → Connects a d b d'
    → d'.peer_ping_answered ≡ d.peer_ping_answered
unfolding rings_start rings_stop finish_connect after_connect
Connects-answered _ _ _ _ (refuses path generation d) = refl
Connects-answered _ _ _ _ (holds_hop path generation d) = refl
Connects-answered _ _ _ _ (runs_rings path generation d) = refl
Connects-answered _ _ _ _ (stops_rings path generation d) = refl
Connects-answered _ _ _ _ (releases d) = refl
Connects-answered _ _ _ _ (connects path generation d fresh) = rw fresh refl
Connects-answered _ _ _ _ (gives_up e d) = refl

Restarts-answered :
    (a b : Stretch) (d d' : Device)
    → Restarts a d b d'
    → d'.peer_ping_answered ≡ d.peer_ping_answered
unfolding rings_stop
Restarts-answered _ _ _ _ (cancels d w) = refl
Restarts-answered _ _ _ _ (stops d w) = refl
Restarts-answered _ _ _ _ (rests d w) = refl
Restarts-answered _ _ _ _ (lets_go d) = refl
Restarts-answered _ _ _ _ (again d) = refl

verified-answered :
    (r late : Bool) (e : Verified) (d : Device)
    → (verified r late e d).peer_ping_answered ≡ d.peer_ping_answered
unfolding verified
verified-answered r late (broke n) d = refl
verified-answered r late (gone n) d = refl
verified-answered r late (exhausted n) d = ground arith

Step-answered :
    (a b : Conf)
    → Step a b
    → a.device.peer_ping_answered ≡ true
    → b.device.peer_ping_answered ≡ true
unfolding handle_logout ctrl_reply_work_fn verify_work_fn
Step-answered _ _ (peer_login sent m d) h = handle_login-answered sent m d ∙ h
Step-answered _ _ (peer_logout d) h = h
Step-answered _ _ (logs_in n r d w) h = login_work_fn-answered n r d ∙ h
Step-answered _ _ (begins alloc d w) h = begin_connect-answered alloc d ∙ h
Step-answered _ _ (goes_on {a} {b} {d} {d'} c) h = Connects-answered a b d d' c ∙ h
Step-answered _ _ (restarts {a} {b} {d} {d'} c) h = Restarts-answered a b d d' c ∙ h
Step-answered _ _ (replies sent d) h = ground arith
Step-answered _ _ (verifies late posted attempts d w) h =
    verified-answered false late
      (if posted then verify_from attempts d.peer_ping_answered verify_attempts 0 0 else gone 0)
      (record d { pong_received = false; verify_work = false })
    ∙ h

Run-answered :
    (a b : Conf) → Run a b → a.device.peer_ping_answered ≡ true → b.device.peer_ping_answered ≡ true
Run-answered _ _ (start c) h = h
Run-answered _ _ (step a b c r s) h = Step-answered b c s (Run-answered a b r h)

-- After one ping of the peer was answered, every later verification, whatever logins, logouts,
-- restarts and connections lie between, declares the link ready without sending a ping: given that
-- its receive frames are posted and the state is CONNECTED at its first attempt, for every outcome of
-- the attempts.
pub verify-outlives :
    (a c : Conf) (late : Bool) (attempts : ℕ → Attempt)
    → a.device.peer_ping_answered ≡ true
    → Run a c
    → (attempts 0).linked ≡ true
    → verify_work_fn false late true attempts c.device
      ≡ (0, record c.device { pong_received = false; verify_work = false; state = ready })
verify-outlives a c late attempts answered run linked =
    verify_work_fn-answered false late attempts c.device (Run-answered a c run answered) linked
