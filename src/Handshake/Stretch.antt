-- ===== src/Handshake/Stretch.antt =====
-- The runs of driver/odl_tb5_proto.c in its native mode, one step per stretch of code that holds
-- `state_lock`; of the hardware work of `connect_work` and of `restart_work`, which do not hold it, one
-- step per write.
use odin_link_five.Prelude.{
  ℕ, ◌≡◌, refl, Bool, true, false, inl, inr, ap, ◌∙◌, if◌then◌else◌, ◌⊎◌, Bool-cases, subst,
}
use odin_link_five.Errno.{Errno, Status, ok, fail, eagain}
use odin_link_five.Handshake.{
  Device, LoginMsg, handle_login, handle_logout, Reply, login_work_fn, cancel_work, begin_again,
  restart_work_fn,
}
use odin_link_five.Handshake.Rings.{RingAlloc, rings_start, rings_stop}
use odin_link_five.Handshake.Connect.{
  Begin, go, idle, disabled, renegotiate, begin_connect, hold, release, is_stale, finish_connect,
  Core, bring_up, enable_from, enable_retries, resume, connect_rest, after_connect,
}
use odin_link_five.Handshake.Verify.{Attempt, verify_work_fn, ctrl_reply_work_fn}

-- How far `connect_work` is: not running, or behind the first stretch; then with the input hop held,
-- with the rings running, with the rings stopped again because something failed or the login was
-- stale, and with the hop released again; or how far `restart_work` is: the other workers cancelled,
-- the rings stopped, and the hop released.
pub data Stretch : Type 0 where
  between : Stretch
  begun holding running : (peer_path : ℕ) → (generation : ℕ) → Stretch
  stopped given_up cancelled still loose : Stretch

pub record Conf : Type 0 where
  pub device : Device
  pub attempt : Stretch

-- The attempt that a first stretch leaves.
abbrev pub attempt_of : Begin → Stretch
attempt_of (go path generation) = begun path generation
attempt_of idle = between
attempt_of disabled = between
attempt_of renegotiate = between

-- The hardware work and the second stretch of `connect_work`, one step for each write that other work
-- can see.
pub data Connects : Stretch → Device → Stretch → Device → Type 0 where
  refuses :
      (path generation : ℕ) (d : Device) → Connects (begun path generation) d given_up (release d)
  holds_hop :
      (path generation : ℕ) (d : Device)
      → Connects (begun path generation) d (holding path generation) (hold path d)
  runs_rings :
      (path generation : ℕ) (d : Device)
      → Connects (holding path generation) d (running path generation) (rings_start d).1
  stops_rings :
      (path generation : ℕ) (d : Device)
      → Connects (running path generation) d stopped (rings_stop d)
  releases : (d : Device) → Connects stopped d given_up (release d)
  connects :
      (path generation : ℕ) (d : Device)
      → is_stale generation d ≡ false
      → Connects (running path generation) d between (finish_connect generation d).1
  gives_up : (e : Errno) (d : Device) → Connects given_up d between (after_connect (fail e, d))

-- `restart_work` up to its locked stretch, and that.
pub data Restarts : Stretch → Device → Stretch → Device → Type 0 where
  cancels : (d : Device) → d.restart_work ≡ true → Restarts between d cancelled (cancel_work d)
  stops : (d : Device) → d.started ≡ true → Restarts cancelled d still (rings_stop d)
  rests : (d : Device) → d.started ≡ false → Restarts cancelled d loose d
  lets_go : (d : Device) → Restarts still d loose (release d)
  again : (d : Device) → Restarts loose d between (begin_again d)

-- `restart_work` waits for the other workers to return, so it finds no attempt; none of them begins
-- before it is through.
pub data Step : Conf → Conf → Type 0 where
  peer_login :
      {a : Stretch}
      → (sent : Bool) (m : LoginMsg) (d : Device)
      → Step
          (record { device = d; attempt = a })
          (record { device = (handle_login false sent m d).1; attempt = a })
  peer_logout :
      {a : Stretch}
      → (d : Device)
      → Step (record { device = d; attempt = a }) (record { device = handle_logout d; attempt = a })
  logs_in :
      {a : Stretch}
      → (max_retries : ℕ) (r : Reply) (d : Device) → d.login_work ≡ true
      → Step
          (record { device = d; attempt = a })
          (record { device = (login_work_fn false max_retries r d).1; attempt = a })
  begins :
      (alloc : ℕ → RingAlloc) (d : Device)
      → d.connect_work ≡ true
      → Step
          (record { device = d; attempt = between })
          (record {
            device = (begin_connect false alloc d).1;
            attempt = attempt_of (begin_connect false alloc d).0;
          })
  goes_on :
      {a b : Stretch} {d d' : Device}
      → Connects a d b d'
      → Step (record { device = d; attempt = a }) (record { device = d'; attempt = b })
  restarts :
      {a b : Stretch} {d d' : Device}
      → Restarts a d b d'
      → Step (record { device = d; attempt = a }) (record { device = d'; attempt = b })
  replies :
      {a : Stretch}
      → (sent : Bool) (d : Device)
      → Step
          (record { device = d; attempt = a })
          (record { device = ctrl_reply_work_fn sent d; attempt = a })
  verifies :
      (late posted : Bool) (attempts : ℕ → Attempt) (d : Device)
      → d.verify_work ≡ true
      → Step
          (record { device = d; attempt = between })
          (record { device = (verify_work_fn false late posted attempts d).1; attempt = between })

pub data Run : Conf → Conf → Type 0 where
  start : (c : Conf) → Run c c
  step : (a b c : Conf) → Run a b → Step b c → Run a c

Status-cases : (r : Status) → (r ≡ ok) ⊎ ((e : Errno) × (r ≡ fail e))
Status-cases ok = inl refl
Status-cases (fail e) = inr (e, refl)

abbrev at : Stretch → Device → Conf
at a d = record { device = d; attempt = a }

then_on :
    {c : Conf} {a b : Stretch} {d d' : Device}
    → Run c (at a d)
    → Connects a d b d'
    → Run c (at b d')
then_on {c} {a} {b} {d} {d'} r k = step c (at a d) (at b d') r (goes_on k)

fails_running :
    (path generation : ℕ) (e : Errno) (c : Conf) (d : Device)
    → Run c (at (running path generation) d)
    → Run c (at between (after_connect (fail e, release (rings_stop d))))
fails_running path generation e c d r =
    then_on (then_on (then_on r (stops_rings path generation d)) (releases (rings_stop d)))
      (gives_up e (release (rings_stop d)))

finishes :
    (path generation : ℕ) (c : Conf) (d : Device)
    → Run c (at (running path generation) d)
    → Run c (at between (after_connect (finish_connect generation d)))
unfolding finish_connect after_connect
finishes path generation c d r = elim (Bool-cases (is_stale generation d)) [
  | inl h ↦ rw h (fails_running path generation eagain c d r)
  | inr h ↦
      let same : (finish_connect generation d).1 ≡ after_connect (finish_connect generation d) =
        rw h refl in
      subst (λ x. Run c (at between x)) same (then_on r (connects path generation d h))
]

runs_on :
    (path generation : ℕ) (d : Device)
    → Run
        (at (begun path generation) d)
        (at (running path generation) (rings_start (hold path (release d))).1)
runs_on path generation d =
    then_on (then_on (start _) (holds_hop path generation d))
      (runs_rings path generation (hold path d))

-- The rest of an attempt that nothing falls into is one of its runs.
connect_rest-Run :
    (core : Core) (path generation : ℕ) (d : Device)
    → Run (at (begun path generation) d) (at between (connect_rest core path generation d))
unfolding connect_rest bring_up resume rings_start
connect_rest-Run core path generation d =
    let r = runs_on path generation d in
    elim (Status-cases core.alloc_hopid) [
      | inr (e, h) ↦
          rw h (then_on (then_on (start _) (refuses path generation d)) (gives_up e (release d)))
      | inl h ↦ rw h (elim (Status-cases core.prime) [
        | inr (e, g) ↦ rw g (fails_running path generation e _ _ r)
        | inl g ↦ rw g (elim (Status-cases (enable_from core.enable enable_retries 0 ok)) [
          | inr (e, k) ↦ rw k (fails_running path generation e _ _ r)
          | inl k ↦ rw k (finishes path generation _ _ r)
        ])
      ])
    ]

-- A restart that nothing falls into is one of its runs.
pub restart_work_fn-Run :
    (d : Device) → d.restart_work ≡ true → Run (at between d) (at between (restart_work_fn d))
unfolding restart_work_fn rings_stop
restart_work_fn-Run d w =
    let e = cancel_work d in
    let r : Run (at between d) (at cancelled e) = step _ _ _ (start _) (restarts (cancels d w)) in
    elim (Bool-cases d.started) [
      | inl h ↦
          let q : Run (at between d) (at still (rings_stop e)) =
            step _ _ _ r (restarts (stops e h)) in
          let p : Run (at between d) (at loose (release (rings_stop e))) =
            step _ _ _ q (restarts (lets_go (rings_stop e))) in
          let hop : false ≡ (if d.started then false else d.in_hopid_valid) = rw h refl in
          subst (λ x. Run (at between d) (at between x))
            (ap (λ b. begin_again (record e { started = false; in_hopid_valid = b })) hop)
            (step _ _ _ p (restarts (again (release (rings_stop e)))))
      | inr h ↦
          let q : Run (at between d) (at loose e) = step _ _ _ r (restarts (rests e h)) in
          let hop : d.in_hopid_valid ≡ (if d.started then false else d.in_hopid_valid) =
            rw h refl in
          subst (λ x. Run (at between d) (at between x))
            (ap (λ b. begin_again (record e { started = b })) h
              ∙ ap (λ b. begin_again (record e { started = false; in_hopid_valid = b })) hop)
            (step _ _ _ q (restarts (again e)))
    ]
