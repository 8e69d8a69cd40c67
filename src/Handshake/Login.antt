-- ===== src/Handshake/Login.antt =====
-- Which logins driver/odl_tb5_proto.c accepts, how it retries its own, and what the two sides have agreed
-- on when the paths are brought up.
use odin_link_five.Prelude.{
  ℕ, zero, suc, ◌+◌, ◌^◌, ◌≤◌, ◌<◌, ◌≡◌, refl, min, Bool, true, false, not, ◌&&◌, leb, ◌==◌, some,
  arith,
}
use odin_link_five.Errno.{Status, ok, fail}
use odin_link_five.Handshake.{
  Device, LoginMsg, handle_login, login_version, login_slots, is_error, protocol_ver,
  login_msg_size, Reply, unanswered, answer, send_login, login_ok, login_delay, after_login,
  login_work_fn,
}
use odin_link_five.Handshake.Rings.{RingAlloc}
use odin_link_five.Handshake.Depth.{ring_depth_ok}
use odin_link_five.Handshake.Connect.{go, begin_connect, after_agreement}
use odin_link_five.Handshake.Agreement.{IsConsistent}
use odin_link_five.Handshake.Stale.{accepts}

-- The logins that are to be accepted: a full message of this protocol version with a sound ring
-- depth, while the link is not disabled.
abbrev pub is_acceptable : LoginMsg → Device → Bool
is_acceptable m d =
    leb login_msg_size m.size
    && (m.proto_version == protocol_ver && (ring_depth_ok m.packet_slots && not (is_error d.state)))

-- In the native mode the handler accepts exactly the acceptable logins, and on any other packet
-- leaves the device as it was, whether or not the response goes out.
pub handle_login-accepts :
    (sent : Bool) (m : LoginMsg) (d : Device)
    → (accepts (handle_login false sent m d).0 ≡ is_acceptable m d)
      × (is_acceptable m d ≡ false → (handle_login false sent m d).1 ≡ d)
unfolding handle_login login_version login_slots
handle_login-accepts sent m d = ground arith

pow2-pos : (n : ℕ) → 1 ≤ 2 ^ n
pow2-pos zero = omega arith
pow2-pos (suc n) = omega (arith, pow2-pos n)

login_delay-le : (n : ℕ) → (500 ≤ login_delay n) × (login_delay n ≤ 5000)
unfolding login_delay
login_delay-le n = ground (arith, pow2-pos (min n 4))

send_login-retries :
    (r : Reply) (d : Device) → (send_login false r d).1.login_retries ≡ d.login_retries
unfolding send_login login_ok
send_login-retries (unanswered e) d = refl
send_login-retries (answer u t r) d = ground arith

after_login-backoff :
    (n delay : ℕ) (r : Status × Device)
    → (after_login n r).0 ≡ some delay
    → (500 ≤ delay)
      × (delay ≤ 5000)
      × ((after_login n r).1.login_retries ≡ r.1.login_retries + 1)
      × (0 < n → r.1.login_retries + 1 < n)
unfolding after_login
after_login-backoff n delay (ok, d) h = ground arith
after_login-backoff n delay (fail e, d) h = ground (arith, login_delay-le (d.login_retries + 1))

-- A login worker that runs again waits at least half a second and at most five seconds, counts one
-- more retry, and with a limit on the retries runs again only below the limit.
pub login_work_fn-backoff :
    (n delay : ℕ) (r : Reply) (d : Device)
    → (login_work_fn false n r d).0 ≡ some delay
    → (500 ≤ delay)
      × (delay ≤ 5000)
      × ((login_work_fn false n r d).1.login_retries ≡ d.login_retries + 1)
      × (0 < n → d.login_retries + 1 < n)
unfolding login_work_fn
login_work_fn-backoff n delay r d h =
    let sent = send_login false r (record d { login_work = false }) in
    ground (
      arith,
      after_login-backoff n delay sent h,
      send_login-retries r (record d { login_work = false }),
    )

-- When the first stretch of a connection attempt on a consistent device goes on to bring the paths
-- up, both sides have the same ring depth, the path and the generation are the device's, and all that
-- changed is that the device is connecting and the work no longer pending.
pub begin_connect-go :
    (alloc : ℕ → RingAlloc) (path generation : ℕ) (d : Device)
    → IsConsistent d
    → (begin_connect false alloc d).0 ≡ go path generation
    → (d.ring_size ≡ d.peer_ring_size)
      × (path ≡ d.remote_tx_hopid)
      × (generation ≡ d.login_generation)
      × ((begin_connect false alloc d).1 ≡ record d { connect_work = false; connecting = true })
unfolding begin_connect after_agreement
begin_connect-go alloc path generation d c h = ground arith
