-- ===== src/Daemon/Message.antt =====
-- The messages that the daemons exchange, daemon/src/odl_tb5_daemon_sync_proto.c and its header. The
-- structures have no padding. `HMAC` of the cryptographic library is a parameter: the digest of a list
-- of bytes under the key that both daemons have.
pub mod Codec
pub mod Accept
use odin_link_five.Prelude.{
  ℕ, zero, suc, ◌+◌, ◌%◌, ◌^◌, Bool, true, false, List, [], ◌∷◌, ◌++◌, Option, none, some,
  if◌then◌else◌, ltb, ◌==◌, not, length, take, drop, replicate,
}
use odin_link_five.Errno.{Errno, Status, ok, fail, enomem, eproto}
use odin_link_five.Daemon.Bytes.{to_le, from_le, to_field}

abbrev pub sync_magic : ℕ
sync_magic = 0x4F444C53

abbrev pub sync_version : ℕ
sync_version = 1

abbrev pub path_max : ℕ
path_max = 256

-- `enum odl_sync_msg_type`.
pub data MsgType : Type 0 where
  file_meta file_data file_ack file_delete dir_create dir_delete sync_req : MsgType
  listing_entry listing_end fetch_req fetch_resp remove_req remove_ack : MsgType
  file_changed file_removed : MsgType

abbrev pub code : MsgType → ℕ
code file_meta = 0x01
code file_data = 0x02
code file_ack = 0x03
code file_delete = 0x04
code dir_create = 0x05
code dir_delete = 0x06
code sync_req = 0x10
code listing_entry = 0x11
code listing_end = 0x12
code fetch_req = 0x20
code fetch_resp = 0x21
code remove_req = 0x22
code remove_ack = 0x23
code file_changed = 0x30
code file_removed = 0x31

-- The fields behind the header: a path, a number of 64 or 32 bits, a SHA-256 digest.
pub data Kind : Type 0 where
  path u64 u32 digest : Kind

pub data Value : Type 0 where
  text : List ℕ → Value
  wide : ℕ → Value
  word : ℕ → Value
  hash : List ℕ → Value

abbrev pub field_bytes : Value → List ℕ
field_bytes (text s) = to_field path_max s
field_bytes (wide n) = to_le 8 n
field_bytes (word n) = to_le 4 n
field_bytes (hash d) = d

abbrev pub fields_bytes : List Value → List ℕ
fields_bytes [] = []
fields_bytes (v ∷ vs) = field_bytes v ++ fields_bytes vs

-- A message: its fields, and the bytes of the chunk behind them.
pub record Message : Type 0 where
  pub type : MsgType
  pub fields : List Value
  pub chunk : List ℕ

-- The structures of the header file.
abbrev pub layout : MsgType → List Kind
layout file_meta = path ∷ u64 ∷ u64 ∷ u32 ∷ u32 ∷ digest ∷ []
layout file_data = u32 ∷ u32 ∷ []
layout file_ack = path ∷ u32 ∷ u32 ∷ []
layout file_delete = path ∷ u64 ∷ []
layout dir_create = path ∷ u64 ∷ u32 ∷ u32 ∷ []
layout dir_delete = path ∷ u64 ∷ u32 ∷ u32 ∷ []
layout sync_req = []
layout listing_entry = path ∷ u64 ∷ u64 ∷ u32 ∷ u32 ∷ digest ∷ []
layout listing_end = []
layout fetch_req = path ∷ []
layout fetch_resp = path ∷ u64 ∷ u64 ∷ u32 ∷ u32 ∷ u32 ∷ u32 ∷ digest ∷ []
layout remove_req = path ∷ []
layout remove_ack = path ∷ u32 ∷ u32 ∷ []
layout file_changed = path ∷ u64 ∷ u64 ∷ u32 ∷ u32 ∷ digest ∷ []
layout file_removed = path ∷ u32 ∷ u32 ∷ []

-- `if (sha256) memcpy(...)` into a structure that was zeroed.
abbrev hash_or_zero : Option (List ℕ) → Value
hash_or_zero none = hash (replicate 32 0)
hash_or_zero (some d) = hash d

abbrev flag : Bool → Value
flag b = word (if b then 1 else 0)

abbrev plain : MsgType → List Value → Message
plain t vs = record { type = t; fields = vs; chunk = [] }

-- The messages of `odl_sync_send_file_meta` and the functions after it, in their order.
unfoldable pub file_meta_msg : List ℕ → ℕ → ℕ → ℕ → ℕ → List ℕ → Message
file_meta_msg p size mtime mode chunks sha =
    plain file_meta (text p ∷ wide size ∷ wide mtime ∷ word mode ∷ word chunks ∷ hash sha ∷ [])

unfoldable pub file_data_msg : ℕ → List ℕ → Message
file_data_msg index chunk = record {
  type = file_data;
  fields = word index ∷ word (length chunk) ∷ [];
  chunk = chunk;
}

unfoldable pub file_ack_msg : List ℕ → ℕ → Message
file_ack_msg p status = plain file_ack (text p ∷ word status ∷ word 0 ∷ [])

unfoldable pub file_delete_msg : List ℕ → ℕ → Message
file_delete_msg p mtime = plain file_delete (text p ∷ wide mtime ∷ [])

unfoldable pub dir_create_msg : List ℕ → ℕ → ℕ → Message
dir_create_msg p mtime mode = plain dir_create (text p ∷ wide mtime ∷ word mode ∷ word 0 ∷ [])

unfoldable pub dir_delete_msg : List ℕ → ℕ → Message
dir_delete_msg p mtime = plain dir_delete (text p ∷ wide mtime ∷ word 0 ∷ word 0 ∷ [])

unfoldable pub sync_req_msg : Message
sync_req_msg = plain sync_req []

unfoldable pub listing_entry_msg : List ℕ → ℕ → ℕ → ℕ → Bool → Option (List ℕ) → Message
listing_entry_msg p size mtime mode is_dir sha =
    plain listing_entry
      (text p ∷ wide size ∷ wide mtime ∷ word mode ∷ flag is_dir ∷ hash_or_zero sha ∷ [])

unfoldable pub listing_end_msg : Message
listing_end_msg = plain listing_end []

unfoldable pub fetch_req_msg : List ℕ → Message
fetch_req_msg p = plain fetch_req (text p ∷ [])

unfoldable pub fetch_resp_msg : List ℕ → ℕ → ℕ → ℕ → ℕ → ℕ → Option (List ℕ) → Message
fetch_resp_msg p size mtime mode chunks status sha = plain fetch_resp (
    text p
    ∷ wide size
    ∷ wide mtime
    ∷ word mode
    ∷ word chunks
    ∷ word status
    ∷ word 0
    ∷ hash_or_zero sha
    ∷ [])

unfoldable pub remove_req_msg : List ℕ → Message
remove_req_msg p = plain remove_req (text p ∷ [])

unfoldable pub remove_ack_msg : List ℕ → ℕ → Message
remove_ack_msg p status = plain remove_ack (text p ∷ word status ∷ word 0 ∷ [])

unfoldable pub file_changed_msg : List ℕ → ℕ → ℕ → ℕ → Bool → Option (List ℕ) → Message
file_changed_msg p size mtime mode is_dir sha =
    plain file_changed
      (text p ∷ wide size ∷ wide mtime ∷ word mode ∷ flag is_dir ∷ hash_or_zero sha ∷ [])

unfoldable pub file_removed_msg : List ℕ → Bool → Message
file_removed_msg p is_dir = plain file_removed (text p ∷ flag is_dir ∷ word 0 ∷ [])

module _ (hmac : List ℕ → List ℕ) where
  -- The header's fields that the tag covers.
  abbrev pub authenticated : ℕ → ℕ → ℕ → List ℕ
  authenticated type payload_len seq =
      to_le 4 sync_magic
      ++ to_le 4 sync_version
      ++ to_le 4 type
      ++ to_le 4 payload_len
      ++ to_le 4 seq

  unfoldable pub fill_header : ℕ → ℕ → ℕ → List ℕ
  fill_header type payload_len seq =
      let a = authenticated type payload_len seq in a ++ take 4 (hmac a)

  -- `payload_len` has 32 bits.
  unfoldable pub encode : ℕ → Message → List ℕ
  unfolding fill_header
  encode seq m =
      let payload = fields_bytes m.fields ++ m.chunk in
      fill_header (code m.type) (length payload % 2 ^ 32) seq ++ payload

  -- A send function: `*seq` steps first. `allocated` is the answer of `malloc`, which only
  -- `odl_sync_send_file_data` asks for; `ret` that of `odl_tb5_stream_send`. The result, `*seq`, and
  -- what went out.
  unfoldable pub send : Bool → Status → Message → ℕ → Status × ℕ × List (List ℕ)
  unfolding encode
  send allocated ret m seq =
      let seq' = (seq + 1) % 2 ^ 32 in
      if allocated
      then (ret, seq', elim ret [ ok ↦ encode seq' m ∷ [] | fail _ ↦ [] ])
      else (fail enomem, seq', [])
