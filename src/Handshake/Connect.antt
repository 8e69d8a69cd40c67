-- ===== src/Handshake/Connect.antt =====
-- `odl_tb5_complete_connection` and `odl_tb5_connect_work_fn` of driver/odl_tb5_proto.c, as the three
-- stretches that other work can fall between: the first under `state_lock`, the hardware work without
-- the lock, and the second under `state_lock`.
use odin_link_five.Prelude.{
  ℕ, zero, suc, ◌+◌, min, Bool, true, false, not, ◌&&◌, ◌||◌, ltb, ◌==◌, if◌then◌else◌,
}
use odin_link_five.Errno.{Status, ok, fail, eagain}
use odin_link_five.Handshake.{Device, connected, error, is_handshake}
use odin_link_five.Handshake.Rings.{RingAlloc, rings_start, rings_stop, rings_resize}
use odin_link_five.Handshake.Depth.{ring_depth_ok}

-- How the first stretch ends: nothing to do, no ring of the size agreed on, another login to send, or
-- the peer's path and the generation to go on with.
pub data Begin : Type 0 where
  idle disabled renegotiate : Begin
  go : (peer_path : ℕ) → (generation : ℕ) → Begin

-- The end of the first stretch when the sizes need, or do not need, another login.
unfoldable pub after_agreement : Bool → Device → Begin × Device
after_agreement true d = (renegotiate, record d { login_sent = false; login_work = true })
after_agreement false d = (go d.remote_tx_hopid d.login_generation, record d { connecting = true })

-- What `odl_tb5_rings_resize` answers when the own side is to shrink.
unfoldable pub after_resize : Status × Device → Begin × Device
unfolding after_agreement
after_resize (ok, d) = after_agreement true d
after_resize (fail e, d) = (disabled, record d { state = error })

-- The first stretch, run by `connect_work`. `alloc` is that of `rings_resize`.
unfoldable pub begin_connect : Bool → (ℕ → RingAlloc) → Device → Begin × Device
unfolding after_resize after_agreement
begin_connect apple alloc d0 =
    let d = record d0 { connect_work = false } in
    let agreed = min d.ring_size d.peer_ring_size in
    if not (is_handshake d.state) || (d.connecting || (not d.login_sent || not d.login_received))
    then (idle, d)
    else if not apple && ring_depth_ok d.peer_ring_size
    then if ltb agreed d.ring_size
      then after_resize (rings_resize alloc agreed d)
      else after_agreement (ltb agreed d.peer_ring_size) d
    else after_agreement false d

-- What the Thunderbolt core answers, and `odl_tb5_submit_rx` on priming.
pub record Core : Type 0 where
  pub alloc_hopid : Status
  pub prime : Status
  pub enable : ℕ → Status

abbrev pub enable_retries : ℕ
enable_retries = 5

-- The loop over `tb_xdomain_enable_paths` from attempt `i`, with `k` attempts left.
unfoldable pub enable_from : (ℕ → Status) → ℕ → ℕ → Status → Status
enable_from enable zero i last = last
enable_from enable (suc k) i last =
    let rest = enable_from enable k (i + 1) (enable i) in
    elim (enable i) [ ok ↦ ok | fail e ↦ rest ]

abbrev pub release : Device → Device
release d = record d { in_hopid_valid = false }

abbrev pub hold : ℕ → Device → Device
hold peer_path d = record d { in_hopid = peer_path; in_hopid_valid = true }

-- The hardware work: the path that is held, if any, is let go of first.
unfoldable pub bring_up : Core → ℕ → Device → Status × Device
unfolding enable_from rings_start rings_stop
bring_up core peer_path d0 =
    let d = release d0 in
    let held = hold peer_path d in
    let running = (rings_start held).1 in
    elim core.alloc_hopid [
      | fail e ↦ (fail e, d)
      | ok ↦ elim (rings_start held).0 [
        | fail e ↦ (fail e, release held)
        | ok ↦ elim core.prime [
          | fail e ↦ (fail e, release (rings_stop running))
          | ok ↦ elim (enable_from core.enable enable_retries 0 ok) [
            | fail e ↦ (fail e, release (rings_stop running))
            | ok ↦ (ok, running)
          ]
        ]
      ]
    ]

-- The test of the second stretch.
unfoldable pub is_stale : ℕ → Device → Bool
is_stale generation d =
    not (is_handshake d.state)
    || (not d.connecting
        || (not d.login_sent || (not d.login_received || not (d.login_generation == generation))))

-- The second stretch, run when the hardware work went well.
unfoldable pub finish_connect : ℕ → Device → Status × Device
unfolding is_stale rings_stop
finish_connect generation d =
    if is_stale generation d
    then (fail eagain, release (rings_stop d))
    else (ok, record d { connecting = false; state = connected; verify_work = true })

-- What `odl_tb5_connect_work_fn` does with the result.
unfoldable pub after_connect : Status × Device → Device
after_connect (ok, d) = d
after_connect (fail e, d) = record d {
  connecting = false;
  login_sent = false;
  login_received = false;
  login_work = true;
}

-- The second stretch follows hardware work that went well.
unfoldable pub resume : ℕ → Status × Device → Status × Device
unfolding finish_connect
resume generation (ok, d) = finish_connect generation d
resume generation (fail e, d) = (fail e, d)

-- The rest of `odl_tb5_connect_work_fn` after a first stretch that ended with `go`. Between the two the
-- protocol handler and the login worker run; they read and write none of what `bring_up` writes.
unfoldable pub connect_rest : Core → ℕ → ℕ → Device → Device
unfolding after_connect resume bring_up
connect_rest core peer_path generation d =
    after_connect (resume generation (bring_up core peer_path d))
