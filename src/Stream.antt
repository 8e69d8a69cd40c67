-- ===== src/Stream.antt =====
-- `struct odl_tb5_stream` of driver/odl_tb5_core.h, and what the receive callback of
-- driver/odl_tb5_ring_dma.c does to the stream that a data frame is addressed to. The memory
-- that `kmalloc` and `kzalloc` may refuse is asked of an `Alloc`, one for each frame.
pub mod Assembly
pub mod Loss
pub mod Undetected
use odin_link_five.Prelude.{
  ℕ, ◌+◌, ◌*◌, ◌-◌, ◌%◌, max, Bool, true, false, not, ◌&&◌, ◌||◌, ltb, leb, ◌==◌, List, [], ◌∷◌,
  ◌++◌, Option, none, some, if◌then◌else◌, take,
}
use odin_link_five.Wire.{StreamHdr, has_start, has_end, msg_end}

-- `struct odl_tb5_rx_msg`. `bytes` is what `data` points to.
pub record RxMsg : Type 0 where
  pub src_id : ℕ
  pub flags : ℕ
  pub bytes : List ℕ
  pub len : ℕ

-- The receive side of a stream. `rx_asm_buf` is `none` for NULL, and otherwise holds the bytes
-- written to the buffer so far; `rx_asm_cap` is the size that it was allocated with.
pub record Stream : Type 0 where
  pub id : ℕ
  pub rx_queue : List RxMsg
  pub rx_queue_len : ℕ
  pub rx_queue_max : ℕ
  pub rx_complete : ℕ
  pub rx_asm_buf : Option (List ℕ)
  pub rx_asm_len : ℕ
  pub rx_asm_cap : ℕ
  pub rx_asm_src_id : ℕ
  pub rx_asm_next_frag : ℕ
  pub rx_asm_bad : Bool
  pub rx_frag_drops : ℕ
  pub dying : Bool

-- Whether `kmalloc` serves a size, and whether `kzalloc` serves a `struct odl_tb5_rx_msg`.
pub record Alloc : Type 0 where
  pub asm : ℕ → Bool
  pub msg : Bool

unfoldable pub clear_buf : Stream → Stream
clear_buf s = record s { rx_asm_buf = none; rx_asm_len = 0; rx_asm_cap = 0 }

-- "Start of new message - reset assembly".
unfoldable pub start_message : StreamHdr → Stream → Stream
unfolding clear_buf
start_message h s =
    if has_start h.flags
    then record (clear_buf s) { rx_asm_src_id = h.src_id; rx_asm_next_frag = 0; rx_asm_bad = false }
    else s

-- "Fragment sequencing".
unfoldable pub check_sequence : StreamHdr → Stream → Stream
check_sequence h s =
    if h.frag_idx == s.rx_asm_next_frag
    then record s { rx_asm_next_frag = (h.frag_idx + 1) % 65536 }
    else record s {
      rx_asm_bad = true;
      rx_frag_drops = s.rx_frag_drops + 1;
      rx_asm_next_frag = (h.frag_idx + 1) % 65536;
    }

-- The bytes that `memcpy` saves when the buffer is replaced.
unfoldable pub saved : Option (List ℕ) → ℕ → List ℕ
saved none n = []
saved (some d) n = take n d

unfoldable pub grow_buf : Alloc → ℕ → Stream → Stream
unfolding saved
grow_buf a n s =
    let new_cap = max 8192 (max (s.rx_asm_cap * 2) (s.rx_asm_len + n)) in
    if ltb s.rx_asm_cap (s.rx_asm_len + n) && a.asm new_cap
    then record s { rx_asm_buf = some (saved s.rx_asm_buf s.rx_asm_len); rx_asm_cap = new_cap }
    else s

unfoldable pub write_at : Option (List ℕ) → ℕ → List ℕ → Option (List ℕ)
write_at none n payload = none
write_at (some d) n payload = some (take n d ++ payload)

unfoldable pub is_some {ℓ} : {A : Type ℓ} → Option A → Bool
is_some none = false
is_some (some x) = true

unfoldable pub append_payload : ℕ → List ℕ → Stream → Stream
unfolding write_at is_some
append_payload n payload s =
    if is_some s.rx_asm_buf && leb (s.rx_asm_len + n) s.rx_asm_cap
    then record s {
      rx_asm_buf = write_at s.rx_asm_buf s.rx_asm_len payload;
      rx_asm_len = s.rx_asm_len + n;
    }
    else s

-- "Incomplete: never deliver it".
unfoldable pub discard : Stream → Stream
unfolding clear_buf
discard s = record (clear_buf s) { rx_asm_bad = false; rx_asm_next_frag = 0 }

unfoldable pub enqueue : List ℕ → Stream → Stream
enqueue d s =
    if ltb s.rx_queue_len s.rx_queue_max
    then record s {
      rx_queue =
          s.rx_queue
          ++ (record { src_id = s.rx_asm_src_id; flags = msg_end; bytes = d; len = s.rx_asm_len }
              ∷ []);
      rx_queue_len = s.rx_queue_len + 1;
      rx_complete = s.rx_complete + 1;
    }
    else s

unfoldable pub deliver : Alloc → Option (List ℕ) → Stream → Stream
unfolding enqueue clear_buf
deliver a none s = clear_buf s
deliver a (some d) s = if a.msg then clear_buf (enqueue d s) else clear_buf s

-- "End of message - enqueue complete msg".
unfoldable pub end_message : Alloc → StreamHdr → Stream → Stream
unfolding discard deliver
end_message a h s =
    if has_end h.flags then if s.rx_asm_bad then discard s else deliver a s.rx_asm_buf s else s

-- A data frame with header `h`, once its stream is found: `payload` is what stands behind the
-- header. A frame with no payload is passed over.
unfoldable pub rx_fragment : Alloc → StreamHdr → List ℕ → Stream → Stream
unfolding start_message check_sequence grow_buf append_payload end_message
rx_fragment a h payload s =
    if ltb 0 h.payload_len
    then end_message a h (
        append_payload h.payload_len payload
          (grow_buf a h.payload_len (check_sequence h (start_message h s))))
    else s

-- A data frame as the callback reads it, with the answers of the allocator.
pub record Arrival : Type 0 where
  pub alloc : Alloc
  pub hdr : StreamHdr
  pub payload : List ℕ

unfoldable pub rx_fragments : List Arrival → Stream → Stream
rx_fragments [] s = s
rx_fragments (x ∷ xs) s = rx_fragments xs (rx_fragment x.alloc x.hdr x.payload s)
