-- ===== src/Verbs/Cq/Wakeup.antt =====
-- The wakeups of a completion queue: `odl_req_notify_cq`, `odl_cq_post` and the eventfd.
use odin_link_five.Prelude.{
  ℕ, ◌+◌, ◌-◌, ◌≤◌, ◌<◌, ◌≡◌, refl, ◌∙◌, ap, Bool, true, false, List, [], ◌∷◌, length, drop-all,
  take-all, ==_iff, arith,
}
use odin_link_five.Errno.{ok, enospc}
use odin_link_five.Verbs.Fifo
use odin_link_five.Verbs.Cq.{Wc, Cq, req_notify_cq, signal, cq_post, poll_ring, poll_event, poll_cq}
use odin_link_five.Verbs.Cq.Fifo.{
  IsValid, waiting, waiting-empty, poll_ring_refines, cq_post_refines, cq_post-IsValid,
  poll_cq_refines,
}

-- The calls of `odl_cq_post`, in order.
unfoldable pub post_all : List Wc → Cq → Cq
post_all [] c = c
post_all (wc ∷ wcs) c = post_all wcs (cq_post wc c).1

event-cq_post : (wc : Wc) (c : Cq) → c.event ≤ (cq_post wc c).1.event
unfolding cq_post signal
event-cq_post wc c = ground arith

event-post_all : (wcs : List Wc) (c : Cq) → c.event ≤ (post_all wcs c).event
unfolding post_all
event-post_all [] c = omega arith
event-post_all (wc ∷ wcs) c = omega (arith, event-post_all wcs (cq_post wc c).1, event-cq_post wc c)

-- The armed post signals and disarms; the next ones do neither.
cq_post-armed :
    (wc : Wc) (c : Cq)
    → (cq_post wc (req_notify_cq c)).0 ≡ ok
    → let c' = (cq_post wc (req_notify_cq c)).1 in (c'.event ≡ c.event + 1) × (c'.armed ≡ false)
unfolding cq_post req_notify_cq signal
cq_post-armed wc c h = ground arith

cq_post-unarmed :
    (wc : Wc) (c : Cq)
    → c.armed ≡ false
    → let c' = (cq_post wc c).1 in (c'.event ≡ c.event) × (c'.armed ≡ false)
unfolding cq_post signal
cq_post-unarmed wc c h = ground arith

-- The first completion after the arming signals, and none undoes it.
pub arm-post_all :
    (wc : Wc) (wcs : List Wc) (c : Cq)
    → (cq_post wc (req_notify_cq c)).0 ≡ ok
    → 0 < (post_all (wc ∷ wcs) (req_notify_cq c)).event
unfolding post_all
arm-post_all wc wcs c h =
    omega (arith, event-post_all wcs (cq_post wc (req_notify_cq c)).1, cq_post-armed wc c h)

req_notify_cq-IsValid : (c : Cq) → IsValid c → IsValid (req_notify_cq c)
unfolding req_notify_cq
req_notify_cq-IsValid c v = record {
  room = v.room;
  head_in = v.head_in;
  tail_in = v.tail_in;
  storage = v.storage;
}

waiting-req_notify_cq : (c : Cq) → waiting (req_notify_cq c) ≡ waiting c
unfolding req_notify_cq
waiting-req_notify_cq c = refl

-- A post to an empty queue.
cq_post-empty :
    (wc : Wc) {c : Cq}
    → IsValid c
    → waiting c ≡ []
    → ((cq_post wc c).0 ≡ ok) × (waiting (cq_post wc c).1 ≡ wc ∷ [])
unfolding Fifo.put
cq_post-empty wc {c} v e =
    let r = cq_post_refines v wc in
    let q : Fifo.put enospc (c.ring_cap - 1) wc (waiting c) ≡ (ok, wc ∷ []) = rw e (ground arith) in
    (ap (λ p. p.0) (r ∙ q), ap (λ p. p.1) (r ∙ q))

poll_event-drains :
    (wcs : List Wc) (b : Bool) (c : Cq) → 0 < length wcs → b ≡ true → (poll_event wcs b c).event ≡ 0
unfolding poll_event
poll_event-drains [] b c some e = absurd (omega arith)
poll_event-drains (_ ∷ _) b c some e = rw e refl

poll_event-armed : (wcs : List Wc) (b : Bool) (c : Cq) → (poll_event wcs b c).armed ≡ c.armed
unfolding poll_event
poll_event-armed [] b c = refl
poll_event-armed (_ ∷ _) true c = refl
poll_event-armed (_ ∷ _) false c = refl

poll_cq-armed : (n : ℕ) (c : Cq) → (poll_cq n c).1.armed ≡ c.armed
unfolding poll_cq poll_ring
poll_cq-armed n c = let (wcs, drained, c') = poll_ring n c in poll_event-armed wcs drained c'

module _ (n : ℕ) (wc : Wc) {c : Cq} (v : IsValid c) (one : waiting c ≡ wc ∷ []) where
  -- A poll that takes the only completion takes the event, too.
  poll_one :
      ((poll_ring (n + 1) c).0 ≡ wc ∷ [])
      × (waiting (poll_ring (n + 1) c).2 ≡ [])
      × IsValid (poll_ring (n + 1) c).2
  poll_one =
      let (a, b, w) = poll_ring_refines (n + 1) v in
      (
        a ∙ rw one (take-all (n + 1) (wc ∷ []) (omega arith)),
        b ∙ rw one (drop-all (n + 1) (wc ∷ []) (omega arith)),
        w,
      )

  poll_one-drained : (poll_ring (n + 1) c).1 ≡ true
  unfolding poll_ring
  poll_one-drained = let (_, b, w) = poll_one in (==_iff _ c.tail).1 (waiting-empty w b)

  poll_one-event : (poll_cq (n + 1) c).1.event ≡ 0
  unfolding poll_cq
  poll_one-event =
      let (a, b, w) = poll_one in
      let (wcs, drained, c') = poll_ring (n + 1) c in
      poll_event-drains wcs drained c' (rw a (omega arith)) poll_one-drained

module _ (first later : Wc) (n : ℕ) {c : Cq} (v : IsValid c) where
  -- An empty queue is armed, one completion is posted, a poll takes it, and a later completion is
  -- posted: the later one waits, the event of the first is read away, and the queue is no longer
  -- armed, so a consumer that waits for the event without arming the queue again is not woken.
  pub poll_cq-loses-event :
      waiting c ≡ []
      → let c' = (cq_post later (poll_cq (n + 1) (cq_post first (req_notify_cq c)).1).1).1 in
        (waiting c' ≡ later ∷ []) × (c'.event ≡ 0) × (c'.armed ≡ false)
  poll_cq-loses-event empty =
      let armed_v = req_notify_cq-IsValid c v in
      let (taken, one) = cq_post-empty first armed_v (waiting-req_notify_cq c ∙ empty) in
      let v1 = cq_post-IsValid armed_v first in
      let (_, b, v2) = poll_cq_refines (n + 1) v1 in
      let none_left = b ∙ rw one (drop-all (n + 1) (first ∷ []) (omega arith)) in
      let unarmed = poll_cq-armed (n + 1) _ ∙ (cq_post-armed first c taken).1 in
      let (same, still) = cq_post-unarmed later _ unarmed in
      ((cq_post-empty later v2 none_left).1, same ∙ poll_one-event n first v1 one, still)
