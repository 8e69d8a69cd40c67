-- ===== src/Verbs/Worker/Tries.antt =====
-- What a try of the worker of verbs/src/odl_tb5_verbs_qp.c to send changes: the wire, by what the
-- driver takes, and nothing else of the side.
use odin_link_five.Prelude.{
  ℕ, ◌≡◌, refl, sym, ap, ◌∙◌, true, false, List, [], ◌∷◌, ◌++◌, Option, none, some, append-nil, ltb,
  ◌⊎◌, inl, inr, Bool-cases,
}
use odin_link_five.Errno.{Status, ok, fail}
use odin_link_five.Verbs.Cq.{Wc, success, general_err}
use odin_link_five.Verbs.Mr.{Mr}
use odin_link_five.Verbs.Worker.{
  Payload, payload_of, Sent, SendSide, send_wc, Peeked, done, is_eagain, after_send, try_send,
  retain, transmit,
}
use odin_link_five.Verbs.Worker.World.{load_of}

-- What was taken, as it goes out on a stream.
unfoldable pub carried : ℕ → ℕ → List (Option Payload) → List Sent
carried src dst [] = []
carried src dst (none ∷ ls) = carried src dst ls
carried src dst (some p ∷ ls) = record { src = src; dst = dst; payload = p } ∷ carried src dst ls

pub carried-append :
    (src dst : ℕ) (xs ys : List (Option Payload))
    → carried src dst (xs ++ ys) ≡ carried src dst xs ++ carried src dst ys
unfolding carried
carried-append src dst [] ys = refl
carried-append src dst (none ∷ xs) ys = carried-append src dst xs ys
carried-append src dst (some p ∷ xs) ys =
    ap (λ l. record { src = src; dst = dst; payload = p } ∷ l) (carried-append src dst xs ys)

-- What a try changes.
pub record Tries (p : Peeked) (load : Option Payload) (s : SendSide) (wc : Wc) (s' : SendSide)
    : Type 0 where
  pub id : wc.wr_id ≡ p.wr_id
  pub source : s'.tx_stream_id ≡ s.tx_stream_id
  pub target : s'.dest_qp ≡ s.dest_qp
  pub sent : s'.wire ≡ s.wire ++ carried s.tx_stream_id s.dest_qp (load ∷ [])
  pub cq : s'.send_cq ≡ s.send_cq

after_send_effect :
    (ret : Status) (p : Peeked) (load : Payload) (s : SendSide)
    → ltb 0 p.num_sge ≡ true
    → (after_send ret p load s ≡ retain s)
      ⊎ ((wc : Wc) × (s' : SendSide) × (after_send ret p load s ≡ (done wc, s'))
          × Tries p (load_of ret p load) s wc s')
unfolding transmit send_wc carried
after_send_effect ok p load s h =
    inr
      (_, _, refl, record { id = refl; source = refl; target = refl; sent = rw h refl; cq = refl })
after_send_effect (fail x) p load s h = elim (Bool-cases (is_eagain x)) [
  | inl e ↦ inl (rw e refl)
  | inr e ↦ inr (
    send_wc p.wr_id general_err 0 s,
    s,
    rw e refl,
    record { id = refl; source = refl; target = refl; sent = sym (append-nil s.wire); cq = refl },
  )
]

no_load :
    (ret : Status) (p : Peeked) (load : Payload)
    → ltb 0 p.num_sge ≡ false
    → load_of ret p load ≡ none
no_load ok p load h = rw h refl
no_load (fail x) p load h = refl

pub try_send_effect :
    (mem : ℕ → ℕ) (mrs : List Mr) (ret : Status) (p : Peeked) (s : SendSide)
    → (try_send mem mrs ret p s ≡ retain s)
      ⊎ ((wc : Wc) × (s' : SendSide) × (try_send mem mrs ret p s ≡ (done wc, s'))
          × Tries p (load_of ret p (payload_of mem mrs s.queue p)) s wc s')
unfolding try_send send_wc carried
try_send_effect mem mrs ret p s =
    let load = payload_of mem mrs s.queue p in
    elim (Bool-cases (ltb 0 p.num_sge)) [
      | inl h ↦ rw h (after_send_effect ret p load s h)
      | inr h ↦
          let none_of = no_load ret p load h in
          rw h (
            inr (
              send_wc p.wr_id success 0 s,
              s,
              refl,
              record {
                id = refl;
                source = refl;
                target = refl;
                sent =
                    sym (append-nil s.wire)
                    ∙ ap (λ l. s.wire ++ carried s.tx_stream_id s.dest_qp (l ∷ [])) (sym none_of);
                cq = refl;
              },
            ))
    ]
