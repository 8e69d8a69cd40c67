-- ===== src/Stream/Loss.antt =====
-- What the receive callback makes of a message some of whose fragments were lost.
use odin_link_five.Prelude.{
  ℕ, suc, ◌+◌, ◌≤◌, ◌<◌, ◌≡◌, ◌≢◌, refl, true, false, List, [], ◌∷◌, ◌++◌, none, length, arith,
}
use odin_link_five.Wire.{frag_flags}
use odin_link_five.Stream.{Stream, Arrival, rx_fragment, rx_fragments}
use odin_link_five.Stream.Assembly.{
  Carried, AllCarried, hdr_at, generous, Holds, SameQueue, frames_from, middle-Holds,
  middle-SameQueue, first-Holds, first-SameQueue,
}

-- After a message was dropped: the queue and its counters are those of `s`, at least one gap was
-- counted, and the assembly is as new.
pub record Dropped (s t : Stream) : Type 0 where
  pub queue : t.rx_queue ≡ s.rx_queue
  pub queue_len : t.rx_queue_len ≡ s.rx_queue_len
  pub complete : t.rx_complete ≡ s.rx_complete
  pub drops : s.rx_frag_drops ≤ t.rx_frag_drops
  pub buf : t.rx_asm_buf ≡ none
  pub good : t.rx_asm_bad ≡ false
  pub next : t.rx_asm_next_frag ≡ 0

-- Once a gap was seen, or if one is seen at this fragment, a fragment that is not the first
-- leaves the message marked and the queue as it was.
record Marked (s t : Stream) : Type 0 where
  queue : t.rx_queue ≡ s.rx_queue
  queue_len : t.rx_queue_len ≡ s.rx_queue_len
  complete : t.rx_complete ≡ s.rx_complete
  drops : s.rx_frag_drops ≤ t.rx_frag_drops
  bad : t.rx_asm_bad ≡ true

bad-Marked :
    (src dst i : ℕ) (c : List ℕ) (s : Stream)
    → Carried c
    → i ≢ 0
    → s.rx_asm_bad ≡ true
    → Marked s (rx_fragment generous (hdr_at src dst i false c) c s)
unfolding rx_fragment frag_flags
bad-Marked src dst i c s k ne b = ground arith

bad-Dropped :
    (src dst i : ℕ) (c : List ℕ) (s : Stream)
    → Carried c
    → i ≢ 0
    → s.rx_asm_bad ≡ true
    → Dropped s (rx_fragment generous (hdr_at src dst i true c) c s)
unfolding rx_fragment frag_flags
bad-Dropped src dst i c s k ne b = ground arith

gap-Marked :
    (src dst i : ℕ) (c : List ℕ) (s : Stream)
    → Carried c
    → i ≢ 0
    → i ≢ s.rx_asm_next_frag
    → let t = rx_fragment generous (hdr_at src dst i false c) c s in
      Marked s t × (s.rx_frag_drops < t.rx_frag_drops)
unfolding rx_fragment frag_flags
gap-Marked src dst i c s k ne gap = ground arith

gap-Dropped :
    (src dst i : ℕ) (c : List ℕ) (s : Stream)
    → Carried c
    → i ≢ 0
    → i ≢ s.rx_asm_next_frag
    → let t = rx_fragment generous (hdr_at src dst i true c) c s in
      Dropped s t × (s.rx_frag_drops < t.rx_frag_drops)
unfolding rx_fragment frag_flags
gap-Dropped src dst i c s k ne gap = ground arith

Marked-Dropped : (s t u : Stream) → Marked s t → Dropped t u → Dropped s u
Marked-Dropped s t u m d = ground arith

-- The rest of a marked message is dropped at its last fragment.
bad_rest-Dropped :
    (src dst i : ℕ) (c : List ℕ) (cs : List (List ℕ)) (s : Stream)
    → AllCarried (c ∷ cs)
    → i ≢ 0
    → s.rx_asm_bad ≡ true
    → Dropped s (rx_fragments (frames_from src dst i (c ∷ cs)) s)
unfolding rx_fragments frames_from
bad_rest-Dropped src dst i c [] s k ne b = bad-Dropped src dst i c s k.0 ne b
bad_rest-Dropped src dst i c (e ∷ cs) s k ne b =
    let m = bad-Marked src dst i c s k.0 ne b in
    Marked-Dropped s _ _ m (bad_rest-Dropped src dst (i + 1) e cs _ k.1 (omega arith) m.bad)

-- If the next fragment to arrive is not the one that the stream waits for, and it does not start
-- a message, then what follows of the message to its end delivers nothing, the gap is counted,
-- and the assembly is as new.
pub gap_rest-Dropped :
    (src dst i : ℕ) (c : List ℕ) (cs : List (List ℕ)) (s : Stream)
    → AllCarried (c ∷ cs)
    → i ≢ 0
    → i ≢ s.rx_asm_next_frag
    → let t = rx_fragments (frames_from src dst i (c ∷ cs)) s in
      Dropped s t × (s.rx_frag_drops < t.rx_frag_drops)
unfolding rx_fragments frames_from
gap_rest-Dropped src dst i c [] s k ne gap = gap-Dropped src dst i c s k.0 ne gap
gap_rest-Dropped src dst i c (e ∷ cs) s k ne gap =
    let m = gap-Marked src dst i c s k.0 ne gap in
    let d = bad_rest-Dropped src dst (i + 1) e cs _ k.1 (omega arith) m.0.bad in
    (Marked-Dropped s _ _ m.0 d, omega (arith, m.1, d.drops))

Holds-eq : (src : ℕ) (d : List ℕ) (s : Stream) {m n : ℕ} → m ≡ n → Holds src m d s → Holds src n d s
Holds-eq src d s p h = rw (← p) h

SameQueue-Dropped : (s t u : Stream) → SameQueue s t → Dropped t u → Dropped s u
SameQueue-Dropped s t u p d = ground arith

SameQueue-gap :
    (s t u : Stream)
    → SameQueue s t
    → Dropped t u × (t.rx_frag_drops < u.rx_frag_drops)
    → Dropped s u × (s.rx_frag_drops < u.rx_frag_drops)
SameQueue-gap s t u p d = (SameQueue-Dropped s t u p d.0, omega (arith, p.drops, d.1))

-- The fragments `cs` of a message, from fragment `i` on, none of which ends it.
unfoldable pub frames_before : ℕ → ℕ → ℕ → List (List ℕ) → List Arrival
frames_before src dst i [] = []
frames_before src dst i (c ∷ cs) =
    record { alloc = generous; hdr = hdr_at src dst i false c; payload = c }
    ∷ frames_before src dst (i + 1) cs

SameQueue-trans : (s t u : Stream) → SameQueue s t → SameQueue t u → SameQueue s u
SameQueue-trans s t u p q = ground arith

before-Holds :
    (src dst i : ℕ) (d : List ℕ) (cs : List (List ℕ)) (s : Stream)
    → AllCarried cs
    → i + length cs < 65536
    → i ≢ 0
    → Holds src i d s
    → let t = rx_fragments (frames_before src dst i cs) s in
      SameQueue s t × ((e : List ℕ) × Holds src (i + length cs) e t)
unfolding rx_fragments frames_before
before-Holds src dst i d [] s k lt ne h = (ground arith, (d, ground arith))
before-Holds src dst i d (c ∷ cs) s k lt ne h =
    let r =
      before-Holds src dst (i + 1) (d ++ c) cs _ k.1 (omega arith) (omega arith)
        (middle-Holds src dst i d c s k.0 (omega arith) ne h) in
    (
      SameQueue-trans s _ _ (middle-SameQueue src dst i false d c s refl h) r.0,
      (r.1.0, Holds-eq src r.1.0 _ (omega arith) r.1.1),
    )

-- A message of fewer than 2^16 fragments whose last fragment has not arrived is not delivered by
-- those that did: the receive queue is as it was, and the assembly holds what came.
pub lost_tail :
    (src dst : ℕ) (c : List ℕ) (cs : List (List ℕ)) (s : Stream)
    → AllCarried (c ∷ cs)
    → length (c ∷ cs) < 65536
    → let t = rx_fragments (frames_before src dst 0 (c ∷ cs)) s in
      SameQueue s t × ((e : List ℕ) × Holds src (length (c ∷ cs)) e t)
unfolding rx_fragments frames_before
lost_tail src dst c cs s k lt =
    let r =
      before-Holds src dst 1 c cs _ k.1 (omega arith) (omega arith) (first-Holds src dst c s k.0) in
    (
      SameQueue-trans s _ _ (first-SameQueue src dst c s k.0) r.0,
      (r.1.0, Holds-eq src r.1.0 _ (omega arith) r.1.1),
    )

-- A message of fewer than 2^16 fragments up to the gap, of which at least one fragment is lost after
-- the first part and before the last part, is dropped if all payloads are carried and memory is
-- served: nothing of it is delivered, the gap is counted, and the assembly is as new.
pub lost_middle :
    (src dst k : ℕ) (c : List ℕ) (cs : List (List ℕ)) (e : List ℕ) (es : List (List ℕ)) (s : Stream)
    → AllCarried (c ∷ cs)
    → AllCarried (e ∷ es)
    → length (c ∷ cs) < 65536
    → let t =
        rx_fragments
          (frames_from src dst (length (c ∷ cs) + suc k) (e ∷ es))
          (rx_fragments (frames_before src dst 0 (c ∷ cs)) s) in
      Dropped s t × (s.rx_frag_drops < t.rx_frag_drops)
lost_middle src dst k c cs e es s kc ke lt =
    let r = lost_tail src dst c cs s kc lt in
    SameQueue-gap s _ _ r.0 (
      gap_rest-Dropped src dst (length (c ∷ cs) + suc k) e es _ ke (omega arith)
        (omega (arith, r.1.1.next)))
