-- ===== src/Wire.antt =====
-- The data frames on the cable: `struct odl_tb5_stream_hdr` of driver/odl_tb5_core.h, with the
-- constants of driver/uapi/odl_tb5_uapi.h. A byte is a number below 256.
pub mod Codec
use odin_link_five.Prelude.{
  ℕ, ◌+◌, ◌-◌, ◌*◌, ◌/◌, ◌%◌, ◌==◌, Bool, ◌&&◌, List, [], ◌∷◌, ◌++◌, if◌then◌else◌, get_or, take,
  drop,
}

abbrev pub frame_size : ℕ
frame_size = 4096

abbrev pub stream_hdr_size : ℕ
stream_hdr_size = 8

abbrev pub frame_tail_reserve : ℕ
frame_tail_reserve = 64

abbrev pub stream_payload_max : ℕ
stream_payload_max = frame_size - stream_hdr_size - frame_tail_reserve

abbrev pub stream_id_ctrl : ℕ
stream_id_ctrl = 0

abbrev pub msg_start : ℕ
msg_start = 1

abbrev pub msg_end : ℕ
msg_end = 2

abbrev pub single : ℕ
single = 3

-- `flags & ODL_TB5_SHDR_F_MSG_START` and `flags & ODL_TB5_SHDR_F_MSG_END`.
abbrev pub has_start : ℕ → Bool
has_start flags = flags % 2 == 1

abbrev pub has_end : ℕ → Bool
has_end flags = flags / 2 % 2 == 1

pub record StreamHdr : Type 0 where
  pub src_id : ℕ
  pub dst_id : ℕ
  pub flags : ℕ
  pub reserved : ℕ
  pub payload_len : ℕ
  pub frag_idx : ℕ

-- `cpu_to_le16` and `cpu_to_le32` in memory order.
abbrev pub le16_bytes : ℕ → List ℕ
le16_bytes n = n % 256 ∷ n / 256 % 256 ∷ []

abbrev pub le32_bytes : ℕ → List ℕ
le32_bytes n = n % 256 ∷ n / 256 % 256 ∷ n / 65536 % 256 ∷ n / 16777216 % 256 ∷ []

-- `le16_to_cpu` and `le32_to_cpu` of the bytes at an offset.
abbrev pub le16_at : List ℕ → ℕ → ℕ
le16_at b i = get_or b i 0 + 256 * get_or b (i + 1) 0

abbrev pub le32_at : List ℕ → ℕ → ℕ
le32_at b i = le16_at b i + 65536 * le16_at b (i + 2)

unfoldable pub encode_hdr : StreamHdr → List ℕ
encode_hdr h =
    h.src_id ∷ h.dst_id ∷ h.flags ∷ h.reserved ∷ le16_bytes h.payload_len ++ le16_bytes h.frag_idx

unfoldable pub decode_hdr : List ℕ → StreamHdr
decode_hdr b = record {
  src_id = get_or b 0 0;
  dst_id = get_or b 1 0;
  flags = get_or b 2 0;
  reserved = get_or b 3 0;
  payload_len = le16_at b 4;
  frag_idx = le16_at b 6;
}

-- `virt + ODL_TB5_STREAM_HDR_SIZE`, the `payload_len` bytes that follow the header.
unfoldable pub payload_of : List ℕ → ℕ → List ℕ
payload_of b payload_len = take payload_len (drop stream_hdr_size b)

-- The flags of a fragment, by whether it is the first and the last of its message.
unfoldable pub frag_flags : Bool → Bool → ℕ
frag_flags first last =
    if first && last then single else if first then msg_start else if last then msg_end else 0

-- The DMA control messages of the link check have no stream header.
abbrev pub dma_magic : ℕ
dma_magic = 0x4F444C35

abbrev pub dma_ping : ℕ
dma_ping = 1

abbrev pub dma_pong : ℕ
dma_pong = 2

abbrev pub dma_hdr_size : ℕ
dma_hdr_size = 16

unfoldable pub encode_dma : ℕ → List ℕ
encode_dma type = le32_bytes dma_magic ++ (le32_bytes type ++ (0 ∷ 0 ∷ 0 ∷ 0 ∷ 0 ∷ 0 ∷ 0 ∷ 0 ∷ []))
