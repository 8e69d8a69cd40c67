-- ===== src/Wire/Codec.antt =====
-- Reading back what the sender of driver/odl_tb5_ring_dma.c writes at the start of a frame.
use odin_link_five.Prelude.{
  ℕ, ◌<◌, ◌≡◌, ◌≢◌, refl, subst, Bool, true, false, List, ◌++◌, length, take, take-append_left,
  arith,
}
use odin_link_five.Wire.{
  StreamHdr, encode_hdr, decode_hdr, payload_of, frag_flags, has_start, has_end, le32_at, dma_magic,
  encode_dma,
}

-- The fields fit their widths: `u8` and `__le16`.
pub record Fits (h : StreamHdr) : Type 0 where
  pub src : h.src_id < 256
  pub dst : h.dst_id < 256
  pub flag : h.flags < 256
  pub res : h.reserved < 256
  pub len : h.payload_len < 65536
  pub frag : h.frag_idx < 65536

-- A header whose fields fit is read back as it was written, and the payload of the announced length
-- that follows it is read back whole, whatever stale bytes the slot holds behind it.
pub decode-encode :
    (h : StreamHdr) (payload stale : List ℕ)
    → Fits h
    → length payload ≡ h.payload_len
    → (decode_hdr (encode_hdr h ++ (payload ++ stale)) ≡ h)
      × (payload_of (encode_hdr h ++ (payload ++ stale)) h.payload_len ≡ payload)
unfolding encode_hdr decode_hdr payload_of
decode-encode h payload stale f e = (
  ground arith,
  subst (λ n. take n (payload ++ stale) ≡ payload) e (take-append_left payload stale),
)

pub frag_flags-start : (first last : Bool) → has_start (frag_flags first last) ≡ first
unfolding frag_flags
frag_flags-start false false = refl
frag_flags-start false true = refl
frag_flags-start true false = refl
frag_flags-start true true = refl

pub frag_flags-end : (first last : Bool) → has_end (frag_flags first last) ≡ last
unfolding frag_flags
frag_flags-end false false = refl
frag_flags-end false true = refl
frag_flags-end true false = refl
frag_flags-end true true = refl

pub frag_flags-lt : (first last : Bool) → frag_flags first last < 256
unfolding frag_flags
frag_flags-lt first last = ground arith

-- A frame whose header fits its fields and leaves the pad byte at zero never begins with the magic
-- number of a control message, so the receiver does not take a data frame for one.
pub encode_hdr-ne-dma_magic :
    (h : StreamHdr) (rest : List ℕ)
    → Fits h
    → h.reserved ≡ 0
    → le32_at (encode_hdr h ++ rest) 0 ≢ dma_magic
unfolding encode_hdr
encode_hdr-ne-dma_magic h rest f z = omega arith

-- A control message begins with the magic number, and its type, a 32-bit number, is read back.
pub decode_dma-encode :
    (type : ℕ) (rest : List ℕ)
    → type < 4294967296
    → (le32_at (encode_dma type ++ rest) 0 ≡ dma_magic)
      × (le32_at (encode_dma type ++ rest) 4 ≡ type)
unfolding encode_dma
decode_dma-encode type rest h = (refl, omega arith)
