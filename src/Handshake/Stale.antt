-- ===== src/Handshake/Stale.antt =====
-- The login generation of driver/odl_tb5_proto.c: a login or a logout that falls between the two
-- stretches of `odl_tb5_complete_connection`.
use odin_link_five.Prelude.{
  ℕ, suc, ◌+◌, ◌%◌, ◌<◌, ◌≡◌, refl, ap, ◌∙◌, Bool, true, false, ◌&&◌, ◌≢◌, Option, none, some,
  arith, ==_iff,
}
use odin_link_five.Errno.{ok, fail, eagain}
use odin_link_five.Handshake.{
  Device, LoginMsg, LoginResponse, handle_login, note_login, handle_logout, Reply, unanswered,
  answer, send_login, login_ok, bump, is_accepted,
}
use odin_link_five.Handshake.Rings.{rings_stop}
use odin_link_five.Handshake.Connect.{finish_connect, is_stale}

-- A response that accepts the login.
abbrev pub accepts : Option LoginResponse → Bool
accepts none = false
accepts (some r) = is_accepted r.status

-- What the protocol handler and the login worker do to a device, with the number of logins and
-- logouts that took effect: a peer's login that is answered or passed over, a peer's logout, and an
-- own login that the peer accepts.
pub data Meets : ℕ → Device → Device → Type 0 where
  nothing : (d : Device) → Meets 0 d d
  peer_login :
      {n : ℕ} {d : Device}
      → (e : Device) (m : LoginMsg) → Meets n d e
      → accepts (handle_login false true m e).0 ≡ true
      → Meets (suc n) d (handle_login false true m e).1
  passed_over :
      {n : ℕ} {d : Device}
      → (sent : Bool) (e : Device) (m : LoginMsg) → Meets n d e
      → (sent && accepts (handle_login false sent m e).0) ≡ false
      → Meets n d (handle_login false sent m e).1
  peer_logout :
      {n : ℕ} {d : Device} → (e : Device) → Meets n d e → Meets (suc n) d (handle_logout e)
  own_login :
      {n : ℕ} {d : Device}
      → (e : Device) (r : Reply) → Meets n d e
      → (send_login false r e).0 ≡ ok
      → Meets (suc n) d (send_login false r e).1

wrap_suc : (g n : ℕ) → bump ((g + n) % 4294967296) ≡ (g + suc n) % 4294967296
wrap_suc g n = omega arith

handle_login-bump :
    (m : LoginMsg) (e : Device)
    → accepts (handle_login false true m e).0 ≡ true
    → (handle_login false true m e).1.login_generation ≡ bump e.login_generation
unfolding handle_login note_login
handle_login-bump m e h = ground arith

handle_login-same :
    (sent : Bool) (m : LoginMsg) (e : Device)
    → (sent && accepts (handle_login false sent m e).0) ≡ false
    → (handle_login false sent m e).1.login_generation ≡ e.login_generation
unfolding handle_login note_login
handle_login-same sent m e h = ground arith

send_login-bump :
    (r : Reply) (e : Device)
    → (send_login false r e).0 ≡ ok
    → (send_login false r e).1.login_generation ≡ bump e.login_generation
unfolding send_login login_ok
send_login-bump (unanswered x) e h = ground arith
send_login-bump (answer u t r) e h = ground arith

Meets-generation :
    {n : ℕ} {d e : Device}
    → Meets n d e
    → d.login_generation < 4294967296
    → e.login_generation ≡ (d.login_generation + n) % 4294967296
unfolding handle_logout
Meets-generation (nothing d) h = omega arith
Meets-generation {d = d} (peer_login {n = n} e m s a) h =
    handle_login-bump m e a ∙ ap bump (Meets-generation s h) ∙ wrap_suc d.login_generation n
Meets-generation (passed_over sent e m s a) h = handle_login-same sent m e a ∙ Meets-generation s h
Meets-generation {d = d} (peer_logout {n = n} e s) h =
    ap bump (Meets-generation s h) ∙ wrap_suc d.login_generation n
Meets-generation {d = d} (own_login {n = n} e r s a) h =
    send_login-bump r e a ∙ ap bump (Meets-generation s h) ∙ wrap_suc d.login_generation n

is_stale-generation : (g : ℕ) (e : Device) → e.login_generation ≢ g → is_stale g e ≡ true
unfolding is_stale
is_stale-generation g e h = ground (arith, ==_iff e.login_generation g)

moved : (g n x : ℕ) → x ≡ (g + n) % 4294967296 → g < 4294967296 → 0 < n → n < 4294967296 → x ≢ g
moved g n x e h p q = omega arith

-- When at least one login or logout, and fewer than 2^32 of them, takes effect between the two locked
-- stretches of a connection attempt, the second one does not connect: it stops the rings, releases
-- the hop and reports EAGAIN, however the logins are mixed with ones that are passed over. The
-- generation is below 2^32 at the start.
pub finish_connect-stale :
    (n : ℕ) (d e : Device)
    → Meets n d e
    → d.login_generation < 4294967296
    → 0 < n
    → n < 4294967296
    → finish_connect d.login_generation e
      ≡ (fail eagain, record e { started = false; in_hopid_valid = false })
unfolding finish_connect rings_stop
finish_connect-stale n d e m h p q =
    let stale =
      is_stale-generation d.login_generation e
        (moved d.login_generation n e.login_generation (Meets-generation m h) h p q) in
    rw stale refl
