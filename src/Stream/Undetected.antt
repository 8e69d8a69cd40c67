-- ===== src/Stream/Undetected.antt =====
-- Losses that the receive callback of driver/odl_tb5_ring_dma.c does not notice.
use odin_link_five.Prelude.{
  ℕ, ◌+◌, ◌*◌, max, ◌<◌, ◌≡◌, ◌≢◌, refl, true, false, List, [], ◌∷◌, ◌++◌, append-nil, length,
  arith,
}
use odin_link_five.Wire.{frag_flags}
use odin_link_five.Stream.{Stream, Alloc, rx_fragment, rx_fragments}
use odin_link_five.Stream.Assembly.{
  joined, Carried, AllCarried, hdr_at, generous, Holds, SameQueue, Idle, Delivers, delivered,
  frames_from, rest-Delivers, whole-Delivers, Delivers-same, Delivers-eq,
}

-- The fragment counter is left standing after a message is delivered.
Idle-Holds :
    (src dst i : ℕ) (c : List ℕ) (s : Stream)
    → Carried c
    → i + 1 < 65536
    → i ≢ 0
    → Idle src i s
    → let t = rx_fragment generous (hdr_at src dst i false c) c s in
      SameQueue s t × Holds src (i + 1) c t
unfolding rx_fragment frag_flags
Idle-Holds src dst i c s k lt ne h = ground arith

Idle-Delivers :
    (src dst i : ℕ) (c : List ℕ) (s : Stream)
    → Carried c
    → i + 1 < 65536
    → i ≢ 0
    → s.rx_queue_len < s.rx_queue_max
    → Idle src i s
    → Delivers src (i + 1) c s (rx_fragment generous (hdr_at src dst i true c) c s)
unfolding rx_fragment frag_flags
Idle-Delivers src dst i c s k lt ne room h = ground arith

Idle-rest-Delivers :
    (src dst i : ℕ) (c : List ℕ) (cs : List (List ℕ)) (s : Stream)
    → AllCarried (c ∷ cs)
    → i + length (c ∷ cs) < 65536
    → i ≢ 0
    → s.rx_queue_len < s.rx_queue_max
    → Idle src i s
    → Delivers src
        (i + length (c ∷ cs))
        (joined (c ∷ cs))
        s
        (rx_fragments (frames_from src dst i (c ∷ cs)) s)
unfolding rx_fragments frames_from
Idle-rest-Delivers src dst i c [] s k lt ne room h =
    rw append-nil (Idle-Delivers src dst i c s k.0 lt ne room h)
Idle-rest-Delivers src dst i c (e ∷ es) s k lt ne room h =
    let p = Idle-Holds src dst i c s k.0 (omega arith) ne h in
    Delivers-same src _ _ s _ _ p.0 (
      Delivers-eq src _ _ (omega arith) refl (
        rest-Delivers src dst (i + 1) c e es _ k.1 (omega arith) (omega arith)
          (omega (arith, p.0.queue_len, p.0.queue_max, room)) p.1))

-- The fragment counter is not reset when a message is delivered. After a message of `n` fragments, a
-- message of which exactly the first `n` fragments are lost passes the check, and what is left of it
-- is delivered as if it were whole, with no gap counted. Both have carried payloads and fewer than
-- 2^16 fragments together, memory is served, and the queue has room for two.
pub lost_prefix_delivered :
    (src dst : ℕ) (c : List ℕ) (cs : List (List ℕ)) (e : List ℕ) (es : List (List ℕ)) (s : Stream)
    → AllCarried (c ∷ cs)
    → AllCarried (e ∷ es)
    → length (c ∷ cs) + length (e ∷ es) < 65536
    → s.rx_queue_len + 1 < s.rx_queue_max
    → let t =
        rx_fragments
          (frames_from src dst (length (c ∷ cs)) (e ∷ es))
          (rx_fragments (frames_from src dst 0 (c ∷ cs)) s) in
      (t.rx_queue
        ≡ (s.rx_queue ++ delivered src (joined (c ∷ cs)) ∷ [])
          ++ delivered src (joined (e ∷ es)) ∷ [])
      × (t.rx_frag_drops ≡ s.rx_frag_drops)
lost_prefix_delivered src dst c cs e es s kc ke lt room =
    let p = whole-Delivers src dst c cs s kc (omega arith) (omega arith) in
    let q =
      Idle-rest-Delivers src dst (length (c ∷ cs)) e es _ ke lt (omega arith)
        (omega (arith, p.queue_len, p.queue_max, room)) p.idle in
    (rw (q.queue, p.queue), omega (arith, p.drops, q.drops))

-- A last fragment, not the first, whose buffer the allocator refuses to enlarge is left out without a
-- mark: the message is delivered without it. The fragment is the one expected, and the queue is not
-- full.
pub refused_growth_delivered :
    (src dst i : ℕ) (d c : List ℕ) (a : Alloc) (s : Stream)
    → Carried c
    → i + 1 < 65536
    → i ≢ 0
    → s.rx_queue_len < s.rx_queue_max
    → Holds src i d s
    → s.rx_asm_cap < length d + length c
    → a.asm (max 8192 (max (s.rx_asm_cap * 2) (s.rx_asm_len + length c))) ≡ false
    → a.msg ≡ true
    → Delivers src (i + 1) d s (rx_fragment a (hdr_at src dst i true c) c s)
unfolding rx_fragment frag_flags
refused_growth_delivered src dst i d c a s k lt ne room h full refused m = ground arith
