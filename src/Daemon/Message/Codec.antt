-- ===== src/Daemon/Message/Codec.antt =====
-- What the handlers of daemon/src/odl_tb5_daemon_sync.c read from a message is what was put into it.
use odin_link_five.Prelude.{
  ℕ, ◌+◌, ◌%◌, ◌^◌, ◌<◌, ◌≡◌, refl, sym, ap, ◌∙◌, List, [], ◌∷◌, ◌++◌, length, take, drop,
  take-append_left, length-take, length-append, append_assoc, arith,
}
use odin_link_five.Errno.{ok}
use odin_link_five.Daemon.Bytes.{
  to_le, from_le, c_text, NoZero, from_le-to_le, length-to_le, length-to_field, c_text-to_field,
}
use odin_link_five.Daemon.Message.{
  sync_magic, sync_version, path_max, Kind, path, u64, u32, digest, Value, text, wide, word, hash,
  field_bytes, fields_bytes, Message, MsgType, code, layout, authenticated, fill_header, encode,
}
use odin_link_five.Daemon.Message.Accept.{
  header_size, word_at, accepted, expected_tag, recv_msg, IsAuthentic, recv_msg-accepts,
}

abbrev pub size : Kind → ℕ
size path = path_max
size u64 = 8
size u32 = 4
size digest = 32

-- A field of a structure, read at the place where it stands.
abbrev pub read_field : Kind → List ℕ → Value
read_field path bs = text (c_text bs)
read_field u64 bs = wide (from_le bs)
read_field u32 bs = word (from_le bs)
read_field digest bs = hash bs

unfoldable pub read_fields : List Kind → List ℕ → List Value
read_fields [] bs = []
read_fields (k ∷ ks) bs = read_field k (take (size k) bs) ∷ read_fields ks (drop (size k) bs)

-- The size of a structure behind its header.
abbrev pub size_of : List Kind → ℕ
size_of [] = 0
size_of (k ∷ ks) = size k + size_of ks

-- A value that its field can hold.
pub data Fits : Kind → Value → Type 0 where
  text_fits : (s : List ℕ) → NoZero s → length s < path_max → Fits path (text s)
  wide_fits : (n : ℕ) → n < 256 ^ 8 → Fits u64 (wide n)
  word_fits : (n : ℕ) → n < 256 ^ 4 → Fits u32 (word n)
  hash_fits : (d : List ℕ) → length d ≡ 32 → Fits digest (hash d)

pub data AllFit : List Kind → List Value → Type 0 where
  no_more : AllFit [] []
  one_more :
      (k : Kind) (v : Value) (ks : List Kind) (vs : List Value)
      → Fits k v
      → AllFit ks vs
      → AllFit (k ∷ ks) (v ∷ vs)

size_lem : {k : Kind} {v : Value} → Fits k v → length (field_bytes v) ≡ size k
size_lem (text_fits s nz lt) = length-to_field path_max s
size_lem (wide_fits n lt) = length-to_le 8 n
size_lem (word_fits n lt) = length-to_le 4 n
size_lem (hash_fits d e) = e

read_field_lem : {k : Kind} {v : Value} → Fits k v → read_field k (field_bytes v) ≡ v
read_field_lem (text_fits s nz lt) = ap text (c_text-to_field path_max s nz lt)
read_field_lem (wide_fits n lt) = ap wide (from_le-to_le 8 n lt)
read_field_lem (word_fits n lt) = ap word (from_le-to_le 4 n lt)
read_field_lem (hash_fits d e) = refl

length-fields_bytes :
    {ks : List Kind} {vs : List Value} → AllFit ks vs → length (fields_bytes vs) ≡ size_of ks
length-fields_bytes no_more = refl
length-fields_bytes (one_more k v ks vs f h) =
    omega
      (arith, length-append (field_bytes v) (fields_bytes vs), size_lem f, length-fields_bytes h)

drop-append : (xs ys : List ℕ) → drop (length xs) (xs ++ ys) ≡ ys
drop-append [] ys = refl
drop-append (x ∷ xs) ys = drop-append xs ys

-- A field at the front is read, and the ones after it stand behind it.
first_field :
    {k : Kind} {v : Value} (rest : List ℕ)
    → Fits k v
    → (read_field k (take (size k) (field_bytes v ++ rest)) ≡ v)
      × (drop (size k) (field_bytes v ++ rest) ≡ rest)
first_field {k} {v} rest f =
    let n = size_lem f in
    (
      ap (read_field k) (
            ap (λ i. take i (field_bytes v ++ rest)) (sym n)
            ∙ take-append_left (field_bytes v) rest)
          ∙ read_field_lem f,
      ap (λ i. drop i (field_bytes v ++ rest)) (sym n) ∙ drop-append (field_bytes v) rest,
    )

-- The fields are read back, whatever follows them.
read_fields-fields_bytes :
    {ks : List Kind} {vs : List Value} (rest : List ℕ)
    → AllFit ks vs
    → read_fields ks (fields_bytes vs ++ rest) ≡ vs
unfolding read_fields
read_fields-fields_bytes rest no_more = refl
read_fields-fields_bytes rest (one_more k v ks vs f h) =
    let (one, behind) = first_field (fields_bytes vs ++ rest) f in
    let split = append_assoc (field_bytes v) (fields_bytes vs) rest in
    ap (λ bs. read_field k (take (size k) bs) ∷ read_fields ks (drop (size k) bs)) split
    ∙ rw (one, behind) (ap (λ l. v ∷ l) (read_fields-fields_bytes rest h))

code-lt : (t : MsgType) → code t < 256 ^ 4
code-lt t = ground arith

module _ (hmac : List ℕ → List ℕ) (digest_size : (bs : List ℕ) → length (hmac bs) ≡ 32) where
  module _ (seq : ℕ) (m : Message) (seq_fits : seq < 256 ^ 4)
      (short : length (fields_bytes m.fields ++ m.chunk) < 256 ^ 4) where
    payload : List ℕ
    payload = fields_bytes m.fields ++ m.chunk

    payload_len : length payload % 2 ^ 32 ≡ length payload
    unfolding payload
    payload_len = omega (arith, short)

    auth : List ℕ
    auth = authenticated hmac (code m.type) (length payload % 2 ^ 32) seq

    tag_bytes : List ℕ
    tag_bytes = take 4 (hmac auth)

    length-tag_bytes : length tag_bytes ≡ 4
    unfolding tag_bytes
    length-tag_bytes = omega (arith, length-take 4 (hmac auth), digest_size auth)

    length-encode : length (encode hmac seq m) ≡ header_size + length payload
    unfolding encode fill_header to_le payload auth tag_bytes
    length-encode = omega (arith, length-append tag_bytes payload, length-tag_bytes)

    word_at-type : word_at 8 (encode hmac seq m) ≡ code m.type
    unfolding encode fill_header to_le
    word_at-type = from_le-to_le 4 (code m.type) (code-lt m.type)

    word_at-length : word_at 12 (encode hmac seq m) ≡ length payload
    unfolding encode fill_header to_le payload
    word_at-length = from_le-to_le 4 (length payload % 2 ^ 32) (omega arith) ∙ payload_len

    word_at-sequence : word_at 16 (encode hmac seq m) ≡ seq
    unfolding encode fill_header to_le
    word_at-sequence = from_le-to_le 4 seq seq_fits

    word_at-tag : word_at 20 (encode hmac seq m) ≡ expected_tag hmac (encode hmac seq m)
    unfolding encode fill_header to_le payload auth tag_bytes
    word_at-tag = ap from_le (
        ap (λ i. take i (tag_bytes ++ payload)) (sym length-tag_bytes)
        ∙ take-append_left tag_bytes payload)

    drop-header : drop header_size (encode hmac seq m) ≡ payload
    unfolding encode fill_header to_le payload auth tag_bytes
    drop-header =
        ap (λ i. drop i (tag_bytes ++ payload)) (sym length-tag_bytes)
        ∙ drop-append tag_bytes payload

    is_authentic : IsAuthentic hmac (encode hmac seq m) (length (encode hmac seq m))
    unfolding encode fill_header to_le
    is_authentic = record {
      long = omega (arith, word_at-length, length-encode);
      magic = from_le-to_le 4 sync_magic (omega arith);
      version = from_le-to_le 4 sync_version (omega arith);
      tag = word_at-tag;
    }

    fields_read : AllFit (layout m.type) m.fields → read_fields (layout m.type) payload ≡ m.fields
    unfolding payload
    fields_read fit = read_fields-fields_bytes m.chunk fit

    chunk_read : AllFit (layout m.type) m.fields → drop (size_of (layout m.type)) payload ≡ m.chunk
    unfolding payload
    chunk_read fit =
        ap (λ i. drop i (fields_bytes m.fields ++ m.chunk)) (sym (length-fields_bytes fit))
        ∙ drop-append (fields_bytes m.fields) m.chunk

    -- What is sent as a message, with any of the 15 types, is accepted by the other side's checks,
    -- with its type and its sequence number, and each field and the chunk behind them are read back
    -- as they were put in: when the number has 32 bits, the payload is shorter than 2^32 bytes, each
    -- field fits its place in the structure, the paths hold no zero byte and are shorter than 256
    -- bytes, and the digest function gives 32 bytes.
    pub recv_msg-encode :
        AllFit (layout m.type) m.fields
        → (recv_msg hmac ok ok (encode hmac seq m) (length (encode hmac seq m))
            ≡ accepted (code m.type))
          × (word_at 16 (encode hmac seq m) ≡ seq)
          × (read_fields (layout m.type) (drop header_size (encode hmac seq m)) ≡ m.fields)
          × (drop (size_of (layout m.type)) (drop header_size (encode hmac seq m)) ≡ m.chunk)
    recv_msg-encode fit = (
      (recv_msg-accepts hmac (encode hmac seq m) (length (encode hmac seq m)) (code m.type)).1
          (is_authentic, word_at-type),
      word_at-sequence,
      ap (read_fields (layout m.type)) drop-header ∙ fields_read fit,
      ap (drop (size_of (layout m.type))) drop-header ∙ chunk_read fit,
    )
