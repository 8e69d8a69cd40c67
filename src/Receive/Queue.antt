-- ===== src/Receive/Queue.antt =====
-- What the receive callback and the readers keep true of a stream, for any frames.
use odin_link_five.Prelude.{
  ℕ, ◌+◌, ◌≤◌, ◌≡◌, Bool, true, false, List, [], ◌∷◌, Option, none, some, length, length-append,
  length-take, take, min, arith, Bool-cases, inl, inr, ltb, if◌then◌else◌,
}
use odin_link_five.Errno.{ok, fail, eshutdown, eintr}
use odin_link_five.Wire.{StreamHdr}
use odin_link_five.Stream.{
  Stream, RxMsg, Alloc, rx_fragment, start_message, check_sequence, grow_buf, append_payload,
  end_message, saved, write_at, is_some, deliver,
}
use odin_link_five.Receive.{stream_recv}

-- The assembly buffer: NULL and empty, or holding `rx_asm_len` bytes of its `rx_asm_cap`.
abbrev pub BufHolds : Option (List ℕ) → ℕ → ℕ → Type 0
BufHolds none len cap = (len ≡ 0) × (cap ≡ 0)
BufHolds (some d) len cap = (length d ≡ len) × (len ≤ cap)

pub record IsSound (s : Stream) : Type 0 where
  pub buf : BufHolds s.rx_asm_buf s.rx_asm_len s.rx_asm_cap
  pub queued : s.rx_queue_len ≡ length s.rx_queue
  pub counted : s.rx_complete ≡ s.rx_queue_len
  pub bounded : s.rx_queue_len ≤ s.rx_queue_max

start_message-IsSound : (h : StreamHdr) (s : Stream) → IsSound s → IsSound (start_message h s)
unfolding start_message
start_message-IsSound h s v = ground arith

check_sequence-IsSound : (h : StreamHdr) (s : Stream) → IsSound s → IsSound (check_sequence h s)
unfolding check_sequence
check_sequence-IsSound h s v = ground arith

length-saved : (b : Option (List ℕ)) (len cap : ℕ) → BufHolds b len cap → length (saved b len) ≡ len
unfolding saved
length-saved none len cap h = omega arith
length-saved (some d) len cap h = omega (arith, length-take len d)

grow_buf-IsSound : (a : Alloc) (n : ℕ) (s : Stream) → IsSound s → IsSound (grow_buf a n s)
unfolding grow_buf
grow_buf-IsSound a n s v = ground (arith, length-saved s.rx_asm_buf s.rx_asm_len s.rx_asm_cap v.buf)

write_at-BufHolds :
    (b : Option (List ℕ)) (len cap : ℕ) (p : List ℕ)
    → is_some b ≡ true
    → len + length p ≤ cap
    → BufHolds b len cap
    → BufHolds (write_at b len p) (len + length p) cap
unfolding write_at is_some
write_at-BufHolds none len cap p e h v = absurd (cc)
write_at-BufHolds (some d) len cap p e h v =
    omega (arith, length-append (take len d) p, length-take len d)

append_payload-IsSound :
    (p : List ℕ) (s : Stream) → IsSound s → IsSound (append_payload (length p) p s)
unfolding append_payload
append_payload-IsSound p s v =
    ground (arith, write_at-BufHolds s.rx_asm_buf s.rx_asm_len s.rx_asm_cap p)

deliver-IsSound :
    (a : Alloc) (b : Option (List ℕ)) (s : Stream) → IsSound s → IsSound (deliver a b s)
unfolding deliver
deliver-IsSound a none s v = ground arith
deliver-IsSound a (some d) s v = ground (
  arith,
  length-append s.rx_queue
      (record { src_id = s.rx_asm_src_id; flags = 2; bytes = d; len = s.rx_asm_len } ∷ []),
)

end_message-IsSound :
    (a : Alloc) (h : StreamHdr) (s : Stream) → IsSound s → IsSound (end_message a h s)
unfolding end_message
end_message-IsSound a h s v = ground (arith, deliver-IsSound a s.rx_asm_buf s v)

-- Whatever frame arrives at a sound stream with the payload that its header announces, and whatever
-- the allocator answers, the bytes assembled stay within the buffer, and the queue's counters are its
-- length and within its limit.
pub rx_fragment-IsSound :
    (a : Alloc) (h : StreamHdr) (payload : List ℕ) (s : Stream)
    → length payload ≡ h.payload_len
    → IsSound s
    → IsSound (rx_fragment a h payload s)
unfolding rx_fragment
rx_fragment-IsSound a h payload s e v = elim (Bool-cases (ltb 0 h.payload_len)) [
  | inl some_data ↦
      rw (some_data, ← e)
        (end_message-IsSound a h _ (
          append_payload-IsSound payload _ (
            grow_buf-IsSound a (length payload) _
              (check_sequence-IsSound h _ (start_message-IsSound h s v)))))
  | inr no_data ↦ rw no_data v
]

-- A read leaves a sound stream sound, whether or not the reader's buffer can be written.
pub stream_recv-IsSound :
    (fault : Bool) (buf_len : ℕ) (s : Stream) → IsSound s → IsSound (stream_recv fault buf_len s).2
unfolding stream_recv
stream_recv-IsSound fault buf_len s v = ground arith

-- A sound stream hands out the message at the front of its queue and keeps the rest in order. The
-- message is cut to the reader's buffer, and what does not fit is gone with it.
pub stream_recv-queue :
    (buf_len : ℕ) (m : RxMsg) (ms : List RxMsg) (s : Stream)
    → IsSound s
    → s.rx_queue ≡ m ∷ ms
    → let r = stream_recv false buf_len s in
      (r.0 ≡ ok)
      × (r.1
          ≡ some (record {
            src_id = m.src_id;
            actual_len = min m.len buf_len;
            bytes = take (min m.len buf_len) m.bytes;
          }))
      × (r.2.rx_queue ≡ ms)
unfolding stream_recv
stream_recv-queue buf_len m ms s v e = ground arith

-- A read of an empty sound stream takes nothing: it is told whether the stream is being closed.
pub stream_recv-empty :
    (fault : Bool) (buf_len : ℕ) (s : Stream)
    → IsSound s
    → s.rx_queue ≡ []
    → stream_recv fault buf_len s ≡ (fail (if s.dying then eshutdown else eintr), none, s)
unfolding stream_recv
stream_recv-empty fault buf_len s v e = ground arith
