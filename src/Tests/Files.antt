-- ===== src/Tests/Files.antt =====
-- The theorems on the daemon, applied to small files and catalogues.
use odin_link_five.Prelude.{
  ℕ, ◌≡◌, ◌≢◌, refl, true, false, List, [], ◌∷◌, none, some, replicate, length, length-replicate,
  drop, arith,
}
use odin_link_five.Errno.{ok, fail, eproto, eio}
use odin_link_five.Daemon.Bytes.{to_field, from_le}
use odin_link_five.Daemon.Message.{
  sync_magic, fetch_req, fetch_req_msg, code, layout, path, text, encode,
}
use odin_link_five.Daemon.Message.Accept.{
  accepted, refused, recv_msg, word_at, header_size, expected_tag,
}
use odin_link_five.Daemon.Message.Codec.{
  read_fields, size_of, text_fits, AllFit, no_more, one_more, recv_msg-encode,
}
use odin_link_five.Daemon.Receiver.{receive_round, dispatch, receive_round-unchecked}
use odin_link_five.Daemon.Table.{FilePath, lookup, Unique, rewritten, ◌=p◌}
use odin_link_five.Daemon.Catalog.{Entry, Catalog, everywhere, scan_found, remove_local_copy}
use odin_link_five.Daemon.Catalog.Scan.{last_for, placed, not_found, scan_found_lem}
use odin_link_five.Daemon.Catalog.Peer.{first_for}
use odin_link_five.Daemon.Catalog.Local.{removal, remove_local_copy_lem}
use odin_link_five.Daemon.Transfer.{
  Engine, Meta, served, num_chunks_of, fetch_resp, fetch_ok, chunk_size,
}
use odin_link_five.Daemon.Transfer.Assemble.{receive_all}
use odin_link_five.Daemon.Transfer.Fetch.{IsFetched, fetch_delivers}
use odin_link_five.Tests.{three_bytes}

-- A digest of 32 bytes for any bytes.
abbrev hmac : List ℕ → List ℕ
hmac bs = replicate 32 7

hmac_size : (bs : List ℕ) → length (hmac bs) ≡ 32
hmac_size bs = length-replicate {A = ℕ} 32 7

abbrev name : FilePath
name = 97 ∷ 98 ∷ []

name_fits : AllFit (layout fetch_req) (text name ∷ [])
name_fits =
    one_more path (text name) [] [] (text_fits name (omega arith, (omega arith, tt)) (omega arith))
      no_more

recv_msg-encode_example :
    let buf = encode hmac 6 (fetch_req_msg name) in
    (recv_msg hmac ok ok buf (length buf) ≡ accepted (code fetch_req))
    × (word_at 16 buf ≡ 6)
    × (read_fields (layout fetch_req) (drop header_size buf) ≡ text name ∷ [])
    × (drop (size_of (layout fetch_req)) (drop header_size buf) ≡ [])
unfolding fetch_req_msg to_field
recv_msg-encode_example =
    recv_msg-encode hmac hmac_size 6 (fetch_req_msg name) (omega arith) (omega arith) name_fits

-- A message with no tag.
abbrev forged : List ℕ
forged =
    83 ∷ 76 ∷ 68 ∷ 79 ∷ 1 ∷ 0 ∷ 0 ∷ 0 ∷ 0x22 ∷ 0 ∷ 0 ∷ 0 ∷ 0 ∷ 1 ∷ 0 ∷ 0 ∷ 0 ∷ 0 ∷ 0 ∷ 0 ∷ 0 ∷ 0 ∷ 0
    ∷ 0 ∷ []

forged_magic : word_at 0 forged ≡ sync_magic
unfolding from_le
forged_magic = refl

forged_tag : word_at 20 forged ≢ expected_tag hmac forged
unfolding from_le
forged_tag = omega arith

receive_round-unchecked_example :
    (recv_msg hmac ok ok forged 24 ≡ refused eproto)
    × (receive_round true ok ok forged 24 ≡ dispatch (word_at 8 forged))
receive_round-unchecked_example =
    receive_round-unchecked hmac true forged 24 forged_magic (omega arith) forged_tag

-- A catalogue with one file on both sides.
abbrev both_entry : Entry
both_entry = record {
  file_size = 3;
  mtime_ns = 0;
  mode = 420;
  is_dir = false;
  sha256 = [];
  location = everywhere;
}

abbrev catalog : Catalog
catalog = (name, both_entry) ∷ []

catalog-Unique : Unique catalog
unfolding lookup
catalog-Unique = (refl, tt)

in_catalog : lookup name catalog ≡ some both_entry
unfolding lookup ◌=p◌
in_catalog = refl

abbrev listing : List (FilePath × Entry)
listing = (97 ∷ [], both_entry) ∷ []

unlisted : first_for name listing ≡ none
unfolding first_for ◌=p◌
unlisted = refl

scan_found_lem_example :
    lookup name (scan_found (λ p. true) listing catalog)
    ≡ rewritten (placed true) (last_for name listing (not_found (lookup name catalog)))
scan_found_lem_example = scan_found_lem (λ p. true) name listing catalog catalog-Unique

remove_local_copy_lem_example :
    let (st, t) = remove_local_copy name ok catalog in
    ((st, lookup name t) ≡ removal (lookup name catalog) ok)
    × (((97 ∷ []) =p name) ≡ false → lookup (97 ∷ []) t ≡ lookup (97 ∷ []) catalog)
remove_local_copy_lem_example = remove_local_copy_lem name (97 ∷ []) ok catalog

-- A fetch of a file of three bytes that is waited for.
abbrev engine : Engine
engine = record {
  fetch_pending_path = name;
  fetch_result = fail eio;
  fetch_in_progress = true;
  tmp = none;
  recv_rel_path = [];
  recv_file_size = 0;
  recv_mtime_ns = 0;
  recv_mode = 0;
  recv_num_chunks = 0;
  recv_chunks_got = 0;
  recv_sha256 = [];
  cache = [];
  catalog = catalog;
}

abbrev three_bytes_meta : Meta
three_bytes_meta = record {
  rel_path = name;
  file_size = 3;
  mtime_ns = 5;
  mode = 420;
  num_chunks = 1;
  sha256 = replicate 32 1;
}

same_name : (name =p name) ≡ true
unfolding ◌=p◌
same_name = refl

one_chunk : 1 ≡ num_chunks_of chunk_size 3
unfolding num_chunks_of
one_chunk = refl

fetch_delivers_example : IsFetched three_bytes three_bytes_meta engine (
    receive_all
      (served chunk_size 3 three_bytes)
      (fetch_resp true fetch_ok three_bytes_meta engine))
fetch_delivers_example =
    fetch_delivers chunk_size three_bytes three_bytes_meta engine (omega arith) refl one_chunk refl
      same_name (omega arith) (omega arith)
