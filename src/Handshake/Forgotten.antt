-- ===== src/Handshake/Forgotten.antt =====
-- A peer's login that falls between the two locked stretches of `odl_tb5_complete_connection` in
-- driver/odl_tb5_proto.c, and what becomes of it.
use odin_link_five.Prelude.{ℕ, ◌<◌, ◌≡◌, ◌≢◌, true, false, arith, ==_iff}
use odin_link_five.Handshake.{
  Device, LoginMsg, LoginResponse, is_accepted, handle_login, note_login, login_version,
  login_slots, answer, send_login, login_ok, after_login, login_work_fn, restart_work_fn,
}
use odin_link_five.Handshake.Rings.{rings_start, rings_stop}
use odin_link_five.Handshake.Depth.{ring_depth_ok}
use odin_link_five.Handshake.Connect.{
  Core, bring_up, is_stale, finish_connect, after_connect, resume, connect_rest,
}
use odin_link_five.Handshake.Stale.{accepts}
use odin_link_five.Handshake.Login.{is_acceptable}

-- An acceptable login that arrives while connecting.
noted :
    (m : LoginMsg) (d : Device)
    → d.connecting ≡ true
    → is_acceptable m d ≡ true
    → d.login_generation < 4294967296
    → (accepts (handle_login false true m d).0 ≡ true)
      × ((handle_login false true m d).1.login_received ≡ true)
      × ((handle_login false true m d).1.login_generation ≢ d.login_generation)
unfolding handle_login note_login login_version login_slots
noted m d c a g = ground arith

-- A stale attempt is given up, whatever the hardware work came to.
given_up :
    (core : Core) (path generation : ℕ) (d : Device)
    → d.login_generation ≢ generation
    → ((connect_rest core path generation d).login_received ≡ false)
      × ((connect_rest core path generation d).connect_work ≡ d.connect_work)
unfolding connect_rest bring_up after_connect resume finish_connect is_stale rings_start rings_stop
given_up core path generation d h = ground (arith, ==_iff d.login_generation generation)

-- After a restart and an answered login of its own, a side that holds no login waits for one.
waits :
    (u : LoginResponse) (n : ℕ) (d : Device)
    → is_accepted u.status ≡ true
    → ring_depth_ok u.packet_slots ≡ true
    → d.login_received ≡ false
    → let e = (login_work_fn false n (answer true true u) (restart_work_fn d)).1 in
      (e.login_sent ≡ true)
      × (e.login_received ≡ false)
      × (e.login_work ≡ false)
      × (e.connect_work ≡ false)
      × (e.restart_work ≡ false)
      × (e.verify_work ≡ false)
unfolding login_work_fn after_login send_login login_ok restart_work_fn
waits u n d a r h = ground arith

-- A peer's acceptable login that arrives while a connection attempt is under way is answered with
-- yes, but the attempt, now stale or failed, clears it again: after the restart and an own login that
-- the peer accepts, the login is gone and no work is pending, so this side waits for another login of
-- the peer. The generation is below 2^32.
pub login_forgotten :
    (core : Core) (path n : ℕ) (m : LoginMsg) (u : LoginResponse) (d : Device)
    → d.connecting ≡ true
    → d.login_generation < 4294967296
    → is_acceptable m d ≡ true
    → is_accepted u.status ≡ true
    → ring_depth_ok u.packet_slots ≡ true
    → let b = (handle_login false true m d).1 in
      let c = restart_work_fn (connect_rest core path d.login_generation b) in
      let e = (login_work_fn false n (answer true true u) c).1 in
      (accepts (handle_login false true m d).0 ≡ true)
      × (b.login_received ≡ true)
      × (e.login_sent ≡ true)
      × (e.login_received ≡ false)
      × (e.login_work ≡ false)
      × (e.connect_work ≡ false)
      × (e.restart_work ≡ false)
      × (e.verify_work ≡ false)
login_forgotten core path n m u d c g a k r =
    let b = (handle_login false true m d).1 in
    let seen = noted m d c a g in
    let gone = given_up core path d.login_generation b seen.2 in
    let w = waits u n (connect_rest core path d.login_generation b) k r gone.0 in
    (seen.0, seen.1, w.0, w.1, w.2, w.3, w.4, w.5)
