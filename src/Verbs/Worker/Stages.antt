-- ===== src/Verbs/Worker/Stages.antt =====
-- What a step of the callers or of the worker of verbs/src/odl_tb5_verbs_qp.c does to the waiting
-- requests, by the stage that the worker is in.
use odin_link_five.Prelude.{
  ℕ, suc, ◌-◌, ◌<◌, ◌≡◌, refl, sym, ap, ◌∙◌, true, false, List, [], ◌∷◌, ◌++◌, length, ltb, drop,
  map, arith, length-append, take-append_left, Bool-cases, ◌⊎◌, inl, inr,
}
use odin_link_five.Errno.{Status, ok, fail}
use odin_link_five.Verbs.Mr.{Mr}
use odin_link_five.Verbs.Cq.{Wc, general_err}
use odin_link_five.Verbs.Ring.{items-zero}
use odin_link_five.Verbs.Sq.{zero_entry, SendWr, SendEntry, SendQueue}
use odin_link_five.Verbs.Sq.Fill.{Request, view}
use odin_link_five.Verbs.Sq.Post.{entries, waiting}
use odin_link_five.Verbs.Sq.Head.{head_entry, with_flag, length-entries, head_entry-grown}
use odin_link_five.Verbs.Worker.{
  Payload, payload_of, SendSide, send_wc, Peeked, Stage, idle, trying, done, popped, peeked, peek,
  try_send, after_send, is_eagain, retain, transmit,
}
use odin_link_five.Verbs.Worker.World.{accepted, unsent, StageOk}

length-map : (xs : List SendEntry) → length (map view xs) ≡ length xs
length-map [] = refl
length-map (x ∷ xs) = ap suc (length-map xs)

pub length-waiting : (q : SendQueue) → length (waiting q) ≡ q.sq_count
length-waiting q = length-map (entries q) ∙ length-entries q

-- The requests that `*bad_wr` leaves over are at the end.
pub accepted_lem : (wrs xs bad : List SendWr) → wrs ≡ xs ++ bad → accepted wrs bad ≡ xs
accepted_lem wrs xs bad e =
    let n : length wrs - length bad ≡ length xs =
      omega (arith, ap length e ∙ length-append xs bad) in
    rw (n, e) (take-append_left xs bad)

pub nothing_waits : (q : SendQueue) → q.sq_count ≡ 0 → waiting q ≡ []
nothing_waits q e = ap (map view) (items-zero zero_entry q.sq_depth q.sq q.sq_head q.sq_count e)

drop_first : (xs ys : List Request) → 0 < length xs → drop 1 (xs ++ ys) ≡ drop 1 xs ++ ys
drop_first [] ys h = absurd (omega arith)
drop_first (x ∷ xs) ys h = refl

-- Requests added at the end are unsent.
pub unsent-append :
    (st : Stage) (q : SendQueue) (ys : List Request)
    → StageOk st q
    → unsent st (waiting q ++ ys) ≡ unsent st (waiting q) ++ ys
unsent-append idle q ys ok_at = refl
unsent-append (trying p) q ys ok_at = refl
unsent-append (done wc) q ys (_, h) = drop_first (waiting q) ys (omega (arith, length-waiting q))
unsent-append (popped wc) q ys ok_at = refl

same_peek :
    (q q' : SendQueue)
    → q'.sq_head ≡ q.sq_head
    → head_entry q' ≡ head_entry q
    → peeked q' ≡ peeked q
same_peek q q' h e = ap (λ n. peek_of n (head_entry q')) h ∙ ap (peek_of q.sq_head) e
  where
    peek_of : ℕ → SendEntry → Peeked
    peek_of n x = record {
      slot = n;
      wr_id = x.wr_id;
      addr = x.addr;
      len = x.len;
      lkey = x.lkey;
      num_sge = x.num_sge;
    }

-- A queue that has grown at its end is in the same stage.
pub StageOk-grown :
    (st : Stage) (q q' : SendQueue) (added : List SendEntry)
    → entries q' ≡ entries q ++ added
    → q'.sq_head ≡ q.sq_head
    → q'.tx_inflight ≡ q.tx_inflight
    → StageOk st q
    → StageOk st q'
StageOk-grown idle q q' added g h t ok_at = t ∙ ok_at
StageOk-grown (trying p) q q' added g h t (f, some_wait, e) =
    let (some_wait', same) = head_entry-grown q q' added g some_wait in
    (t ∙ f, some_wait', e ∙ sym (same_peek q q' h same))
StageOk-grown (done wc) q q' added g h t (f, some_wait) =
    (t ∙ f, (head_entry-grown q q' added g some_wait).0)
StageOk-grown (popped wc) q q' added g h t ok_at = t ∙ ok_at

pub peek_some :
    (s : SendSide)
    → ltb 0 s.queue.sq_count ≡ true
    → peek s ≡ (trying (peeked s.queue), record s { queue = with_flag true s.queue })
unfolding peek
peek_some s h = rw h refl

pub peek_none : (s : SendSide) → ltb 0 s.queue.sq_count ≡ false → peek s ≡ (idle, s)
unfolding peek
peek_none s h = rw h refl

after_send_cases :
    (ret : Status) (p : Peeked) (load : Payload) (s : SendSide)
    → (after_send ret p load s ≡ retain s)
      ⊎ ((wc : Wc) × (s' : SendSide) × (after_send ret p load s ≡ (done wc, s'))
          × (s'.queue ≡ s.queue))
unfolding transmit
after_send_cases ok p load s = inr (_, _, refl, refl)
after_send_cases (fail x) p load s = elim (Bool-cases (is_eagain x)) [
  | inl h ↦ inl (rw h refl)
  | inr h ↦ inr (send_wc p.wr_id general_err 0 s, s, rw h refl, refl)
]

-- A try ends with the request retained, or with one that has left its slot to be freed.
pub try_send_cases :
    (mem : ℕ → ℕ) (mrs : List Mr) (ret : Status) (p : Peeked) (s : SendSide)
    → (try_send mem mrs ret p s ≡ retain s)
      ⊎ ((wc : Wc) × (s' : SendSide) × (try_send mem mrs ret p s ≡ (done wc, s'))
          × (s'.queue ≡ s.queue))
unfolding try_send
try_send_cases mem mrs ret p s = elim (Bool-cases (ltb 0 p.num_sge)) [
  | inl h ↦ rw h (after_send_cases ret p (payload_of mem mrs s.queue p) s)
  | inr h ↦ rw h (inr (_, _, refl, refl))
]
