-- ===== src/Stream/Assembly.antt =====
-- Reassembly of a fragmented message by the receive callback.
use odin_link_five.Prelude.{
  ℕ, ◌+◌, ◌≤◌, ◌<◌, ◌≡◌, ◌≢◌, refl, Bool, true, false, ◌==◌, List, [], ◌∷◌, ◌++◌, append_assoc,
  append-nil, none, some, length, length-append, take-all, arith,
}
use odin_link_five.Wire.{StreamHdr, frag_flags, msg_end}
use odin_link_five.Stream.{RxMsg, Stream, Alloc, Arrival, rx_fragment, rx_fragments}

-- The payloads of a message, joined.
abbrev pub joined : List (List ℕ) → List ℕ
joined [] = []
joined (c ∷ cs) = c ++ joined cs

-- A payload that a fragment can carry.
abbrev pub Carried : List ℕ → Type 0
Carried c = (0 < length c) × (length c < 65536)

abbrev pub AllCarried : List (List ℕ) → Type 0
AllCarried [] = Unit {0}
AllCarried (c ∷ cs) = Carried c × AllCarried cs

-- The header of fragment `i` with payload `c`.
abbrev pub hdr_at : ℕ → ℕ → ℕ → Bool → List ℕ → StreamHdr
hdr_at src dst i last c = record {
  src_id = src;
  dst_id = dst;
  flags = frag_flags (i == 0) last;
  reserved = 0;
  payload_len = length c;
  frag_idx = i;
}

abbrev pub generous : Alloc
generous = record { asm = λ n. true; msg = true }

-- The stream holds the bytes `d` of a message from `src`, and waits for fragment `i`.
pub record Holds (src i : ℕ) (d : List ℕ) (s : Stream) : Type 0 where
  pub buf : s.rx_asm_buf ≡ some d
  pub len : s.rx_asm_len ≡ length d
  pub cap : s.rx_asm_len ≤ s.rx_asm_cap
  pub src_id : s.rx_asm_src_id ≡ src
  pub next : s.rx_asm_next_frag ≡ i
  pub good : s.rx_asm_bad ≡ false

-- What the receive queue of `t` is compared with that of `s`.
pub record SameQueue (s t : Stream) : Type 0 where
  pub queue : t.rx_queue ≡ s.rx_queue
  pub queue_len : t.rx_queue_len ≡ s.rx_queue_len
  pub queue_max : t.rx_queue_max ≡ s.rx_queue_max
  pub complete : t.rx_complete ≡ s.rx_complete
  pub drops : t.rx_frag_drops ≡ s.rx_frag_drops

pub middle-Holds :
    (src dst i : ℕ) (d c : List ℕ) (s : Stream)
    → Carried c
    → i + 1 < 65536
    → i ≢ 0
    → Holds src i d s
    → Holds src (i + 1) (d ++ c) (rx_fragment generous (hdr_at src dst i false c) c s)
unfolding rx_fragment frag_flags
middle-Holds src dst i d c s k lt ne h = ground (arith, length-append d c, take-all (length d) d)

pub middle-SameQueue :
    (src dst i : ℕ) (last : Bool) (d c : List ℕ) (s : Stream)
    → last ≡ false
    → Holds src i d s
    → SameQueue s (rx_fragment generous (hdr_at src dst i last c) c s)
unfolding rx_fragment frag_flags
middle-SameQueue src dst i last d c s e h = ground arith

-- The first fragment starts afresh, whatever the stream was assembling.
pub first-Holds :
    (src dst : ℕ) (c : List ℕ) (s : Stream)
    → Carried c
    → Holds src 1 c (rx_fragment generous (hdr_at src dst 0 false c) c s)
unfolding rx_fragment frag_flags
first-Holds src dst c s k = ground arith

pub first-SameQueue :
    (src dst : ℕ) (c : List ℕ) (s : Stream)
    → Carried c
    → SameQueue s (rx_fragment generous (hdr_at src dst 0 false c) c s)
unfolding rx_fragment frag_flags
first-SameQueue src dst c s k = ground arith

abbrev pub delivered : ℕ → List ℕ → RxMsg
delivered src d = record { src_id = src; flags = msg_end; bytes = d; len = length d }

-- No bytes are held, and the fragment expected next is `i` of a message from `src`.
pub record Idle (src i : ℕ) (s : Stream) : Type 0 where
  pub buf : s.rx_asm_buf ≡ none
  pub len : s.rx_asm_len ≡ 0
  pub cap : s.rx_asm_cap ≡ 0
  pub src_id : s.rx_asm_src_id ≡ src
  pub next : s.rx_asm_next_frag ≡ i
  pub good : s.rx_asm_bad ≡ false

-- The receive queue of `t` is that of `s` with one more message, of `n` fragments, and nothing is
-- being assembled.
pub record Delivers (src n : ℕ) (d : List ℕ) (s t : Stream) : Type 0 where
  pub queue : t.rx_queue ≡ s.rx_queue ++ delivered src d ∷ []
  pub queue_len : t.rx_queue_len ≡ s.rx_queue_len + 1
  pub complete : t.rx_complete ≡ s.rx_complete + 1
  pub drops : t.rx_frag_drops ≡ s.rx_frag_drops
  pub queue_max : t.rx_queue_max ≡ s.rx_queue_max
  pub idle : Idle src n t

last-Delivers :
    (src dst i : ℕ) (d c : List ℕ) (s : Stream)
    → Carried c
    → i + 1 < 65536
    → i ≢ 0
    → s.rx_queue_len < s.rx_queue_max
    → Holds src i d s
    → Delivers src (i + 1) (d ++ c) s (rx_fragment generous (hdr_at src dst i true c) c s)
unfolding rx_fragment frag_flags
last-Delivers src dst i d c s k lt ne room h =
    ground (arith, length-append d c, take-all (length d) d)

single-Delivers :
    (src dst : ℕ) (c : List ℕ) (s : Stream)
    → Carried c
    → s.rx_queue_len < s.rx_queue_max
    → Delivers src 1 c s (rx_fragment generous (hdr_at src dst 0 true c) c s)
unfolding rx_fragment frag_flags
single-Delivers src dst c s k room = ground arith

-- The frames of the fragments `cs` of a message, from fragment `i` on: the last one ends it.
unfoldable pub frames_from : ℕ → ℕ → ℕ → List (List ℕ) → List Arrival
frames_from src dst i [] = []
frames_from src dst i (c ∷ []) =
    record { alloc = generous; hdr = hdr_at src dst i true c; payload = c } ∷ []
frames_from src dst i (c ∷ e ∷ cs) =
    record { alloc = generous; hdr = hdr_at src dst i false c; payload = c }
    ∷ frames_from src dst (i + 1) (e ∷ cs)

joined-single : (d c : List ℕ) → d ++ joined (c ∷ []) ≡ d ++ c
joined-single d c = rw append-nil

pub Delivers-same :
    (src n : ℕ) (d : List ℕ) (r s t : Stream)
    → SameQueue r s
    → Delivers src n d s t
    → Delivers src n d r t
Delivers-same src n d r s t e v = ground arith

pub Delivers-eq :
    (src : ℕ) (s t : Stream) {m n : ℕ} {d e : List ℕ}
    → m ≡ n
    → d ≡ e
    → Delivers src m d s t
    → Delivers src n e s t
Delivers-eq src s t p q v = rw (← p, ← q) v

-- The rest of a message completes what is held.
pub rest-Delivers :
    (src dst i : ℕ) (d c : List ℕ) (cs : List (List ℕ)) (s : Stream)
    → AllCarried (c ∷ cs)
    → i + length (c ∷ cs) < 65536
    → i ≢ 0
    → s.rx_queue_len < s.rx_queue_max
    → Holds src i d s
    → Delivers src
        (i + length (c ∷ cs))
        (d ++ joined (c ∷ cs))
        s
        (rx_fragments (frames_from src dst i (c ∷ cs)) s)
unfolding rx_fragments frames_from
rest-Delivers src dst i d c [] s k lt ne room h =
    rw joined-single (last-Delivers src dst i d c s k.0 lt ne room h)
rest-Delivers src dst i d c (e ∷ cs) s k lt ne room h = Delivers-same src _ _ s t _ same (
    Delivers-eq src t _ (omega arith) (append_assoc d c (joined (e ∷ cs))) (
      rest-Delivers src dst (i + 1) (d ++ c) e cs t k.1 (omega arith) (omega arith)
        (omega (arith, same.queue_len, same.queue_max)) held))
  where
    t : Stream
    t = rx_fragment generous (hdr_at src dst i false c) c s

    same : SameQueue s t
    same = middle-SameQueue src dst i false d c s refl h

    held : Holds src (i + 1) (d ++ c) t
    held = middle-Holds src dst i d c s k.0 (omega arith) ne h

-- A message of fewer than 2^16 fragments, each with a payload of 1 to 65535 bytes, that arrives whole
-- with memory served is delivered whole when the queue is not full.
pub whole-Delivers :
    (src dst : ℕ) (c : List ℕ) (cs : List (List ℕ)) (s : Stream)
    → AllCarried (c ∷ cs)
    → length (c ∷ cs) < 65536
    → s.rx_queue_len < s.rx_queue_max
    → Delivers src
        (length (c ∷ cs))
        (joined (c ∷ cs))
        s
        (rx_fragments (frames_from src dst 0 (c ∷ cs)) s)
unfolding rx_fragments frames_from
whole-Delivers src dst c [] s k lt room = rw append-nil (single-Delivers src dst c s k.0 room)
whole-Delivers src dst c (e ∷ cs) s k lt room = Delivers-same src _ _ s t _ same (
    Delivers-eq src t _ (omega arith) refl (
      rest-Delivers src dst 1 c e cs t k.1 (omega arith) (omega arith)
        (omega (arith, same.queue_len, same.queue_max)) (first-Holds src dst c s k.0)))
  where
    t : Stream
    t = rx_fragment generous (hdr_at src dst 0 false c) c s

    same : SameQueue s t
    same = first-SameQueue src dst c s k.0
