-- ===== src/Handshake/Steps.antt =====
-- What holds in every state that the handshake of driver/odl_tb5_proto.c reaches in its native mode.
use odin_link_five.Prelude.{ℕ, ◌≡◌, refl, Bool, true, false, if◌then◌else◌, arith}
use odin_link_five.Handshake.{
  is_handshake, Device, LoginMsg, handle_login, handle_logout, note_login, Reply, unanswered,
  answer, login_ok, send_login, after_login, login_work_fn, proto_init,
}
use odin_link_five.Handshake.Rings.{RingAlloc, rings_start, rings_stop}
use odin_link_five.Handshake.Connect.{
  Begin, go, idle, disabled, renegotiate, begin_connect, finish_connect, after_resize,
  after_agreement, after_connect,
}
use odin_link_five.Handshake.Verify.{
  Attempt, Verified, broke, gone, exhausted, verified, verify_work_fn, verify_from, verify_attempts,
  ctrl_reply_work_fn,
}
use odin_link_five.Handshake.Stretch.{
  Stretch, between, begun, holding, running, stopped, given_up, cancelled, still, loose, Conf,
  attempt_of, Connects, refuses, holds_hop, runs_rings, stops_rings, releases, connects, gives_up,
  Restarts, cancels, stops, rests, lets_go, again, Step, peer_login, peer_logout, logs_in, begins,
  goes_on, restarts, replies, verifies, Run, start, step,
}
use odin_link_five.Handshake.Agreement.{
  is_up, is_handshake-down, IsHeld, IsConsistent, handle_login-IsHeld, handle_logout-IsHeld,
  begin_connect-IsConsistent, login_work_fn-IsHeld,
}

-- Whether the rings run, and whether a hop is held, when the link is up or not.
abbrev pub has_rings : Stretch → Bool → Bool
has_rings between up = up
has_rings (begun path generation) up = false
has_rings (holding path generation) up = false
has_rings (running path generation) up = true
has_rings stopped up = false
has_rings given_up up = false
has_rings cancelled up = up
has_rings still up = false
has_rings loose up = false

abbrev pub has_hop : Stretch → Bool → Bool
has_hop between up = up
has_hop (begun path generation) up = false
has_hop (holding path generation) up = true
has_hop (running path generation) up = true
has_hop stopped up = true
has_hop given_up up = false
has_hop cancelled up = up
has_hop still up = up
has_hop loose up = false

-- Whether a verification may wait then.
abbrev pub may_verify : Stretch → Bool → Bool
may_verify between up = up
may_verify (begun path generation) up = false
may_verify (holding path generation) up = false
may_verify (running path generation) up = false
may_verify stopped up = false
may_verify given_up up = false
may_verify cancelled up = false
may_verify still up = false
may_verify loose up = false

-- Whether a connection attempt is under way.
abbrev pub is_connecting : Stretch → Bool
is_connecting between = false
is_connecting (begun path generation) = true
is_connecting (holding path generation) = true
is_connecting (running path generation) = true
is_connecting stopped = true
is_connecting given_up = true
is_connecting cancelled = false
is_connecting still = false
is_connecting loose = false

-- A device whose rings and hop are those of its state and of the attempt or restart, and which is in
-- its handshake for as long as an attempt is under way.
abbrev pub IsSteady : Conf → Type 0
IsSteady c =
    let up = is_up c.device.state in
    IsHeld (has_rings c.attempt up) (has_hop c.attempt up) (may_verify c.attempt up) c.device
    × (is_connecting c.attempt ≡ true → is_handshake c.device.state ≡ true)

Connects-IsSteady :
    (a b : Stretch) (d d' : Device)
    → Connects a d b d'
    → IsSteady (record { device = d; attempt = a })
    → IsSteady (record { device = d'; attempt = b })
unfolding rings_start rings_stop finish_connect after_connect
Connects-IsSteady _ _ _ _ (refuses path generation d) h = ground arith
Connects-IsSteady _ _ _ _ (holds_hop path generation d) h = ground arith
Connects-IsSteady _ _ _ _ (runs_rings path generation d) h = ground arith
Connects-IsSteady _ _ _ _ (stops_rings path generation d) h = ground arith
Connects-IsSteady _ _ _ _ (releases d) h = ground arith
Connects-IsSteady _ _ _ _ (connects path generation d fresh) h = rw fresh (ground arith)
Connects-IsSteady _ _ _ _ (gives_up e d) (h, s) = ground (arith, is_handshake-down d.state (s refl))

Restarts-IsSteady :
    (a b : Stretch) (d d' : Device)
    → Restarts a d b d'
    → IsSteady (record { device = d; attempt = a })
    → IsSteady (record { device = d'; attempt = b })
unfolding rings_stop
Restarts-IsSteady _ _ _ _ (cancels d w) h = ground arith
Restarts-IsSteady _ _ _ _ (stops d w) h = ground arith
Restarts-IsSteady _ _ _ _ (rests d w) h = ground arith
Restarts-IsSteady _ _ _ _ (lets_go d) h = ground arith
Restarts-IsSteady _ _ _ _ (again d) h = ground arith

verified-IsConsistent :
    (r late : Bool) (e : Verified) (d : Device)
    → IsConsistent d
    → is_up d.state ≡ true
    → IsConsistent (verified r late e d)
unfolding verified
verified-IsConsistent r late (broke n) d h s = ground arith
verified-IsConsistent r late (gone n) d h s = ground arith
verified-IsConsistent r late (exhausted n) d h s = ground arith

verify_work_fn-IsConsistent :
    (late posted : Bool) (attempts : ℕ → Attempt) (d : Device)
    → IsConsistent d
    → d.verify_work ≡ true
    → IsConsistent (verify_work_fn false late posted attempts d).1
unfolding verify_work_fn
verify_work_fn-IsConsistent late posted attempts d h w =
    verified-IsConsistent false late
      (if posted then verify_from attempts d.peer_ping_answered verify_attempts 0 0 else gone 0)
      (record d { pong_received = false; verify_work = false }) (ground arith) (ground arith)

handle_login-state :
    (sent : Bool) (m : LoginMsg) (d : Device) → (handle_login false sent m d).1.state ≡ d.state
unfolding handle_login note_login
handle_login-state sent m d = ground arith

send_login-state : (r : Reply) (d : Device) → (send_login false r d).1.state ≡ d.state
unfolding send_login login_ok
send_login-state (unanswered e) d = refl
send_login-state (answer u t r) d = ground arith

login_work_fn-state :
    (n : ℕ) (r : Reply) (d : Device) → (login_work_fn false n r d).1.state ≡ d.state
unfolding login_work_fn after_login
login_work_fn-state n r d = ground (arith, send_login-state r (record d { login_work = false }))

-- A first stretch that goes on leaves the state at HANDSHAKE.
begin_connect-attempt :
    (alloc : ℕ → RingAlloc) (d : Device)
    → is_connecting (attempt_of (begin_connect false alloc d).0) ≡ true
    → is_handshake (begin_connect false alloc d).1.state ≡ true
unfolding begin_connect after_agreement after_resize
begin_connect-attempt alloc d w = ground arith

attempt_of-IsHeld :
    (b : Begin) (d : Device)
    → IsConsistent d
    → (is_connecting (attempt_of b) ≡ true → is_handshake d.state ≡ true)
    → IsSteady (record { device = d; attempt = attempt_of b })
attempt_of-IsHeld (go path generation) d h s = ground (arith, is_handshake-down d.state (s refl))
attempt_of-IsHeld idle d h s = (h, s)
attempt_of-IsHeld disabled d h s = (h, s)
attempt_of-IsHeld renegotiate d h s = (h, s)

Step-IsSteady : (a b : Conf) → Step a b → IsSteady a → IsSteady b
unfolding handle_logout ctrl_reply_work_fn
Step-IsSteady _ _ (peer_login sent m d) (h, s) =
    rw (handle_login-state sent m d) (handle_login-IsHeld _ _ _ sent m d h, s)
Step-IsSteady _ _ (peer_logout d) (h, s) = (handle_logout-IsHeld _ _ _ d h, s)
Step-IsSteady _ _ (logs_in n r d w) (h, s) =
    rw (login_work_fn-state n r d) (login_work_fn-IsHeld _ _ _ n r d h, s)
Step-IsSteady _ _ (begins alloc d w) (h, s) =
    attempt_of-IsHeld (begin_connect false alloc d).0 (begin_connect false alloc d).1
      (begin_connect-IsConsistent alloc d h) (begin_connect-attempt alloc d)
Step-IsSteady _ _ (goes_on {a} {b} {d} {d'} c) h = Connects-IsSteady a b d d' c h
Step-IsSteady _ _ (restarts {a} {b} {d} {d'} c) h = Restarts-IsSteady a b d d' c h
Step-IsSteady _ _ (replies sent d) (h, s) = ground arith
Step-IsSteady _ _ (verifies late posted attempts d w) (h, s) =
    (verify_work_fn-IsConsistent late posted attempts d h w, λ e. absurd (ground arith))

pub Run-IsSteady : (a b : Conf) → Run a b → IsSteady a → IsSteady b
Run-IsSteady _ _ (start c) h = h
Run-IsSteady _ _ (step a b c r s) h = Step-IsSteady b c s (Run-IsSteady a b r h)

-- The device as `odl_tb5_proto_init` leaves it, no attempt under way.
abbrev pub first : Device → Conf
first d = record { device = proto_init d; attempt = between }
