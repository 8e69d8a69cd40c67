-- ===== src/Handshake.antt =====
-- The XDomain handshake of driver/odl_tb5_proto.c: login, logout, the workers that connect, restart and
-- retry, and the ring depth that both sides must share. What the Thunderbolt core answers is a
-- parameter of each operation. A stretch of code under `state_lock` is one step.
pub mod Depth
pub mod Rings
pub mod Connect
pub mod Verify
pub mod Stretch
pub mod Steps
pub mod Answered
pub mod Agreement
pub mod Stale
pub mod Login
pub mod Forgotten
use odin_link_five.Prelude.{
  ℕ, zero, suc, ◌+◌, ◌-◌, ◌*◌, ◌^◌, ◌%◌, min, Bool, true, false, not, ◌&&◌, ◌||◌, ltb, leb, ◌==◌,
  Option, none, some, if◌then◌else◌,
}
use odin_link_five.Errno.{Errno, Status, ok, fail, eproto, econnrefused, ebusy, enomem, eagain}
use Depth.{ring_depth_ok, ring_depth}

-- `enum odl_tb5_conn_state`.
pub data ConnState : Type 0 where
  disconnected handshake connected error ready : ConnState

-- `dev->state == ODL_TB5_STATE_HANDSHAKE` and `== ODL_TB5_STATE_ERROR`.
abbrev pub is_handshake : ConnState → Bool
is_handshake handshake = true
is_handshake disconnected = false
is_handshake connected = false
is_handshake error = false
is_handshake ready = false

abbrev pub is_error : ConnState → Bool
is_error error = true
is_error disconnected = false
is_error handshake = false
is_error connected = false
is_error ready = false

-- What the handshake keeps in `struct odl_tb5_device`. `ring_size` is that of both rings, and
-- `started` says that both run. A work item is pending from its scheduling to its start.
pub record Device : Type 0 where
  pub state : ConnState
  pub login_sent : Bool
  pub login_received : Bool
  pub connecting : Bool
  pub login_generation : ℕ
  pub login_retries : ℕ
  pub ring_size : ℕ
  pub peer_ring_size : ℕ
  pub started : Bool
  pub local_tx_hopid : ℕ
  pub remote_tx_hopid : ℕ
  pub stale_remote_tx_hopid : ℕ
  pub in_hopid_valid : Bool
  pub in_hopid : ℕ
  pub pong_received : Bool
  pub peer_ping_answered : Bool
  pub login_work : Bool
  pub connect_work : Bool
  pub restart_work : Bool
  pub verify_work : Bool

abbrev pub protocol_ver : ℕ
protocol_ver = 3

-- `sizeof(struct odl_tb5_xd_header)` and `sizeof(struct odl_tb5_login_msg)`.
abbrev pub xd_header_size : ℕ
xd_header_size = 32

abbrev pub login_msg_size : ℕ
login_msg_size = 48

pub data LoginStatus : Type 0 where
  accepted proto_mismatch bad_ring ring_unavailable : LoginStatus

-- A login packet: its size, and its words behind the header as far as it has them.
pub record LoginMsg : Type 0 where
  pub size : ℕ
  pub proto_version : ℕ
  pub transmit_path : ℕ
  pub packet_slots : ℕ

pub record LoginResponse : Type 0 where
  pub status : LoginStatus
  pub transmit_path : ℕ
  pub packet_slots : ℕ

-- The fields that the handler reads: all, the two of the short form, or none.
unfoldable pub login_version : LoginMsg → ℕ
login_version m = if leb (xd_header_size + 8) m.size then m.proto_version else 0

unfoldable pub login_path : LoginMsg → ℕ
login_path m = if leb (xd_header_size + 8) m.size then m.transmit_path else 0

unfoldable pub login_slots : LoginMsg → ℕ
login_slots m = if leb login_msg_size m.size then m.packet_slots else 0

abbrev pub refusal : LoginStatus → LoginResponse
refusal s = record { status = s; transmit_path = 0; packet_slots = 0 }

-- The generation is a `u32`.
abbrev pub bump : ℕ → ℕ
bump n = (n + 1) % 2 ^ 32

-- The part of the login case that runs once the response is sent.
unfoldable pub note_login : LoginMsg → Device → Device
unfolding login_path
note_login m d =
    if not (is_handshake d.state) || d.connecting
    then record d {
      login_generation = bump d.login_generation;
      stale_remote_tx_hopid = d.remote_tx_hopid;
      remote_tx_hopid = login_path m;
      login_received = true;
      restart_work = true;
    }
    else record d {
      login_generation = bump d.login_generation;
      remote_tx_hopid = login_path m;
      login_received = true;
      connect_work = d.login_sent || d.connect_work;
    }

-- The login case of `odl_tb5_proto_handle_packet`. `apple` is `odl_protocol_mode == 1`; `sent` says
-- that `tb_xdomain_response` succeeds. The response is `none` for a packet that is passed over.
unfoldable pub handle_login : Bool → Bool → LoginMsg → Device → Option LoginResponse × Device
unfolding login_version login_slots note_login
handle_login apple sent m d =
    let answered = record d { peer_ring_size = login_slots m } in
    if ltb m.size xd_header_size
    then (none, d)
    else if not apple && (leb login_msg_size m.size && not (login_version m == protocol_ver))
    then (some (refusal proto_mismatch), d)
    else if not apple && (ltb m.size login_msg_size || not (ring_depth_ok (login_slots m)))
    then (some (refusal bad_ring), d)
    else if is_error d.state
    then (some (refusal ring_unavailable), d)
    else (
      some (record {
        status = accepted;
        transmit_path = d.local_tx_hopid;
        packet_slots = d.ring_size;
      }),
      if sent then note_login m answered else answered,
    )

-- The logout case.
unfoldable pub handle_logout : Device → Device
handle_logout d = record d {
  stale_remote_tx_hopid = d.remote_tx_hopid;
  login_received = false;
  login_sent = false;
  login_generation = bump d.login_generation;
  restart_work = true;
}

-- What `tb_xdomain_request` brings back for a login.
pub data Reply : Type 0 where
  unanswered : Errno → Reply
  answer : Bool → Bool → LoginResponse → Reply

unfoldable pub login_ok : Bool → LoginResponse → Device → Device
login_ok apple r d = record d {
  login_generation = bump d.login_generation;
  remote_tx_hopid = r.transmit_path;
  peer_ring_size = if apple then 0 else r.packet_slots;
  login_sent = true;
  connect_work = (d.login_received && is_handshake d.state) || d.connect_work;
}

abbrev pub is_accepted : LoginStatus → Bool
is_accepted accepted = true
is_accepted proto_mismatch = false
is_accepted bad_ring = false
is_accepted ring_unavailable = false

-- `odl_tb5_proto_send_login`. An `answer` says whether its UUID and its type are the right ones. The
-- state is as it stands when the reply is taken up.
unfoldable pub send_login : Bool → Reply → Device → Status × Device
unfolding login_ok
send_login apple (unanswered e) d = (fail e, d)
send_login apple (answer uuid_ok type_ok r) d =
    if apple
    then (ok, login_ok apple r d)
    else if not uuid_ok
    then (fail eproto, d)
    else if not type_ok
    then (fail eproto, d)
    else if not (is_accepted r.status)
    then (fail econnrefused, d)
    else if not (ring_depth_ok r.packet_slots)
    then (fail eproto, d)
    else (ok, login_ok apple r d)

-- `odl_login_max_retries` and the delay of `odl_tb5_login_work_fn`.
unfoldable pub login_delay : ℕ → ℕ
login_delay retries = min (500 * 2 ^ min retries 4) 5000

-- What `odl_tb5_login_work_fn` does with the result: the delay after which it runs again, if it does.
unfoldable pub after_login : ℕ → Status × Device → Option ℕ × Device
unfolding login_delay
after_login max_retries (ok, d) = (none, d)
after_login max_retries (fail e, d0) =
    let d = record d0 { login_retries = d0.login_retries + 1 } in
    if ltb 0 max_retries && leb max_retries d.login_retries
    then (none, d)
    else (some (login_delay d.login_retries), record d { login_work = true })

unfoldable pub login_work_fn : Bool → ℕ → Reply → Device → Option ℕ × Device
unfolding after_login
login_work_fn apple max_retries reply d =
    after_login max_retries (send_login apple reply (record d { login_work = false }))

-- `odl_tb5_restart_work_fn`: it cancels the other workers, takes down a running link, and under the
-- lock begins again.
abbrev pub cancel_work : Device → Device
cancel_work d = record d {
  pong_received = false;
  login_work = false;
  connect_work = false;
  restart_work = false;
  verify_work = false;
}

abbrev pub begin_again : Device → Device
begin_again d = record d {
  state = handshake;
  login_sent = false;
  login_retries = 0;
  peer_ring_size = 0;
  connecting = false;
  login_work = true;
}

unfoldable pub restart_work_fn : Device → Device
restart_work_fn d =
    let e = cancel_work d in
    begin_again
      (record e { started = false; in_hopid_valid = if e.started then false else e.in_hopid_valid })

-- `odl_tb5_proto_send_logout`: the state behind it.
unfoldable pub send_logout : Device → Device
send_logout d = record d { state = disconnected }

-- `odl_tb5_proto_init`.
unfoldable pub proto_init : Device → Device
proto_init d = record d {
  login_retries = 0;
  login_sent = false;
  login_received = false;
  connecting = false;
  login_generation = 0;
  peer_ring_size = 0;
  pong_received = false;
  peer_ping_answered = false;
  state = handshake;
  login_work = true;
}
