-- ===== src/Handshake/Agreement.antt =====
-- The native mode of driver/odl_tb5_proto.c as a step relation, and what holds in every state that it
-- reaches.
use odin_link_five.Prelude.{ℕ, ◌≡◌, refl, ap, min, Bool, true, false, ltb, arith}
use odin_link_five.Errno.{Status, ok, fail}
use odin_link_five.Handshake.{
  ConnState, disconnected, handshake, connected, error, ready, is_handshake, Device, LoginMsg,
  note_login, handle_login, handle_logout, Reply, unanswered, answer, login_ok, send_login,
  after_login, login_work_fn,
}
use odin_link_five.Handshake.Rings.{
  RingAlloc, refused, unbuffered, given, rings_alloc, restored, after_shrink, rings_resize,
  no_hopid,
}
use odin_link_five.Handshake.Depth.{ring_depth, ring_depth_ok, ring_depth-ok}
use odin_link_five.Handshake.Connect.{after_agreement, after_resize, begin_connect}

-- The states in which the link is up.
abbrev pub is_up : ConnState → Bool
is_up connected = true
is_up ready = true
is_up disconnected = false
is_up handshake = false
is_up error = false

pub is_handshake-down : (s : ConnState) → is_handshake s ≡ true → is_up s ≡ false
is_handshake-down handshake h = refl
is_handshake-down disconnected h = refl
is_handshake-down connected h = ground arith
is_handshake-down error h = refl
is_handshake-down ready h = ground arith

-- The own depth is one a peer accepts, and so is the peer's once it answered a login; the rings run
-- and a hop is held as `runs` and `holds` say, and a verification waits only if `waits` allows it.
abbrev pub IsHeld : Bool → Bool → Bool → Device → Type 0
IsHeld runs holds waits d =
    (ring_depth_ok d.ring_size ≡ true)
    × (d.login_sent ≡ true → ring_depth_ok d.peer_ring_size ≡ true)
    × (d.started ≡ runs)
    × (d.in_hopid_valid ≡ holds)
    × (d.verify_work ≡ true → waits ≡ true)

-- While no attempt and no restart is under way, the rings run and a hop is held just when the link is
-- up, and only then a verification waits.
abbrev pub IsConsistent : Device → Type 0
IsConsistent d = IsHeld (is_up d.state) (is_up d.state) (is_up d.state) d

module _ (runs holds waits : Bool) where
  pub handle_login-IsHeld :
      (sent : Bool) (m : LoginMsg) (d : Device)
      → IsHeld runs holds waits d
      → IsHeld runs holds waits (handle_login false sent m d).1
  unfolding handle_login note_login
  handle_login-IsHeld sent m d h = ground arith

  pub handle_logout-IsHeld :
      (d : Device) → IsHeld runs holds waits d → IsHeld runs holds waits (handle_logout d)
  unfolding handle_logout
  handle_logout-IsHeld d h = ground arith

  send_login-IsHeld :
      (r : Reply) (d : Device)
      → IsHeld runs holds waits d
      → IsHeld runs holds waits (send_login false r d).1
  unfolding send_login login_ok
  send_login-IsHeld (unanswered e) d h = h
  send_login-IsHeld (answer u t r) d h = ground arith

  pub login_work_fn-IsHeld :
      (n : ℕ) (r : Reply) (d : Device)
      → IsHeld runs holds waits d
      → IsHeld runs holds waits (login_work_fn false n r d).1
  unfolding login_work_fn after_login
  login_work_fn-IsHeld n r d h =
      ground (arith, send_login-IsHeld r (record d { login_work = false }) h)

rings_alloc-ring_size :
    (a : RingAlloc) (n : ℕ) (d : Device) → ring_depth_ok (rings_alloc a n d).1.ring_size ≡ true
unfolding rings_alloc
rings_alloc-ring_size (refused e) n d = ring_depth-ok n
rings_alloc-ring_size (unbuffered h e) n d = ring_depth-ok n
rings_alloc-ring_size (given h) n d = ring_depth-ok n

rings_alloc-IsConsistent :
    (a : RingAlloc) (n : ℕ) (d : Device) → IsConsistent d → IsConsistent (rings_alloc a n d).1
unfolding rings_alloc
rings_alloc-IsConsistent (refused e) n d h = ground (arith, ring_depth-ok n)
rings_alloc-IsConsistent (unbuffered p e) n d h = ground (arith, ring_depth-ok n)
rings_alloc-IsConsistent (given p) n d h = ground (arith, ring_depth-ok n)

restored-IsConsistent : (r : Status × Device) → IsConsistent r.1 → IsConsistent (restored r).1
unfolding restored
restored-IsConsistent (ok, d) h = h
restored-IsConsistent (fail e, d) h = h

after_shrink-IsConsistent :
    (alloc : ℕ → RingAlloc) (old : ℕ) (r : Status × Device)
    → IsConsistent r.1
    → IsConsistent (after_shrink alloc old r).1
unfolding after_shrink
after_shrink-IsConsistent alloc old (ok, d) h = h
after_shrink-IsConsistent alloc old (fail e, d) h =
    restored-IsConsistent _ (rings_alloc-IsConsistent (alloc (ring_depth old)) old d h)

rings_resize-IsConsistent :
    (alloc : ℕ → RingAlloc) (n : ℕ) (d : Device)
    → IsConsistent d
    → IsConsistent (rings_resize alloc n d).1
unfolding rings_resize
rings_resize-IsConsistent alloc n d h = ground (
  arith,
  after_shrink-IsConsistent alloc d.ring_size (rings_alloc (alloc (ring_depth n)) n d)
      (rings_alloc-IsConsistent (alloc (ring_depth n)) n d h),
)

-- A device whose rings were allocated anew.
abbrev pub with_rings : Device → Device → Device
with_rings e d = record d { ring_size = e.ring_size; local_tx_hopid = e.local_tx_hopid }

restored-rest :
    (a : RingAlloc) (n : ℕ) (d : Device)
    → (restored (rings_alloc a n d)).1 ≡ with_rings (restored (rings_alloc a n d)).1 d
unfolding restored rings_alloc
restored-rest (refused e) n d = refl
restored-rest (unbuffered h e) n d = refl
restored-rest (given h) n d = refl

after_shrink-rest :
    (a : RingAlloc) (alloc : ℕ → RingAlloc) (old n : ℕ) (d : Device)
    → (after_shrink alloc old (rings_alloc a n d)).1
      ≡ with_rings (after_shrink alloc old (rings_alloc a n d)).1 d
unfolding after_shrink rings_alloc
after_shrink-rest (given h) alloc old n d = refl
after_shrink-rest (refused e) alloc old n d =
    restored-rest (alloc (ring_depth old)) old
      (record d { ring_size = ring_depth n; local_tx_hopid = no_hopid })
after_shrink-rest (unbuffered h e) alloc old n d =
    restored-rest (alloc (ring_depth old)) old
      (record d { ring_size = ring_depth n; local_tx_hopid = h })

-- A resize changes the depth and the output hop, and nothing else of the device.
pub rings_resize-rest :
    (alloc : ℕ → RingAlloc) (n : ℕ) (d : Device)
    → (rings_resize alloc n d).1 ≡ with_rings (rings_resize alloc n d).1 d
unfolding rings_resize
rings_resize-rest alloc n d =
    ground (arith, after_shrink-rest (alloc (ring_depth n)) alloc d.ring_size n d)

after_resize-IsConsistent :
    (r : Status × Device)
    → IsConsistent r.1
    → is_handshake r.1.state ≡ true
    → IsConsistent (after_resize r).1
unfolding after_resize after_agreement
after_resize-IsConsistent (ok, d) h s = ground arith
after_resize-IsConsistent (fail e, d) h s = ground (arith, is_handshake-down d.state s)

after_agreement-IsConsistent :
    (b : Bool) (d : Device) → IsConsistent d → IsConsistent (after_agreement b d).1
unfolding after_agreement
after_agreement-IsConsistent true d h = ground arith
after_agreement-IsConsistent false d h = h

-- With the agreement on, `agreed` is the smaller depth.
pub begin_connect-IsConsistent :
    (alloc : ℕ → RingAlloc) (d : Device)
    → IsConsistent d
    → IsConsistent (begin_connect false alloc d).1
unfolding begin_connect
begin_connect-IsConsistent alloc d0 h =
    let d = record d0 { connect_work = false } in
    let agreed = min d.ring_size d.peer_ring_size in
    ground (
      arith,
      after_resize-IsConsistent (rings_resize alloc agreed d)
          (rings_resize-IsConsistent alloc agreed d h),
      ap (λ x. x.state) (rings_resize-rest alloc agreed d),
      after_agreement-IsConsistent (ltb agreed d.peer_ring_size) d h,
      after_agreement-IsConsistent false d h,
    )
