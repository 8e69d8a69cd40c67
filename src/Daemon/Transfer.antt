-- ===== src/Daemon/Transfer.antt =====
-- A file on its way from the peer: `sync_handle_fetch_req` on the side that has it, and
-- `sync_handle_fetch_resp`, `sync_handle_file_meta` and `sync_handle_file_data` on the side that gets
-- it, all of daemon/src/odl_tb5_daemon_sync.c. `fetch_lock` makes each handler one step. What the
-- file system answers is an argument. The transferred bytes' counters and the file's times are left
-- out.
pub mod Serve
pub mod Assemble
pub mod Fetch
use odin_link_five.Prelude.{
  ℕ, zero, suc, ◌+◌, ◌-◌, ◌*◌, ◌/◌, ◌%◌, ◌^◌, Bool, true, false, ◌&&◌, ◌||◌, not, List, [], ◌∷◌,
  ◌++◌, Option, none, some, if◌then◌else◌, ltb, leb, ◌==◌, length, take, drop,
}
use odin_link_five.Errno.{Errno, Status, ok, fail, enoent, eio}
use odin_link_five.Daemon.Table.{FilePath, Table, ◌=p◌, insert}
use odin_link_five.Daemon.Catalog.{Catalog, mark_cached}

abbrev pub chunk_size : ℕ
chunk_size = 512 * 1024

-- `file_size > 0 ? (file_size + CHUNK - 1) / CHUNK : 1`
unfoldable pub num_chunks_of : ℕ → ℕ → ℕ
num_chunks_of chunk file_size = if ltb 0 file_size then (file_size + chunk - 1) / chunk else 1

-- The chunks of a file of `file_size` bytes whose bytes are `content`, from the one at `bytes_sent` on,
-- `n` of them: `read` gives as many bytes as are asked for and are there.
unfoldable pub serve_chunks : ℕ → ℕ → List ℕ → ℕ → ℕ → List (List ℕ)
serve_chunks chunk file_size content zero bytes_sent = []
serve_chunks chunk file_size content (suc n) bytes_sent =
    let to_read = if ltb file_size (bytes_sent + chunk) then file_size - bytes_sent else chunk in
    let got = take to_read (drop bytes_sent content) in
    got ∷ serve_chunks chunk file_size content n (bytes_sent + length got)

unfoldable pub served : ℕ → ℕ → List ℕ → List (List ℕ)
unfolding num_chunks_of serve_chunks
served chunk file_size content =
    serve_chunks chunk file_size content (num_chunks_of chunk file_size) 0

-- The part of `struct odl_sync_engine` that receives. `tmp` is what the temporary file holds, while
-- `recv_tmp_fd` and `recv_tmp_path` are set; `cache` are the files below the cache directory.
pub record Engine : Type 0 where
  pub fetch_pending_path : FilePath
  pub fetch_result : Status
  pub fetch_in_progress : Bool
  pub tmp : Option (List ℕ)
  pub recv_rel_path : FilePath
  pub recv_file_size : ℕ
  pub recv_mtime_ns : ℕ
  pub recv_mode : ℕ
  pub recv_num_chunks : ℕ
  pub recv_chunks_got : ℕ
  pub recv_sha256 : List ℕ
  pub cache : Table (List ℕ)
  pub catalog : Catalog

-- What a `FETCH_RESP` or a `FILE_META` says of the file.
pub record Meta : Type 0 where
  pub rel_path : FilePath
  pub file_size : ℕ
  pub mtime_ns : ℕ
  pub mode : ℕ
  pub num_chunks : ℕ
  pub sha256 : List ℕ

abbrev pub fetch_ok : ℕ
fetch_ok = 0

abbrev pub fetch_not_found : ℕ
fetch_not_found = 1

-- The fetch that waits is over.
unfoldable pub end_fetch : Status → Engine → Engine
end_fetch r e = record e { fetch_result = r; fetch_in_progress = false }

unfoldable pub note_meta : Meta → Engine → Engine
note_meta m e = record e {
  recv_rel_path = m.rel_path;
  recv_file_size = m.file_size;
  recv_mtime_ns = m.mtime_ns;
  recv_mode = m.mode;
  recv_num_chunks = m.num_chunks;
  recv_chunks_got = 0;
  recv_sha256 = m.sha256;
}

-- The temporary file takes its place in the cache.
unfoldable pub install : List ℕ → Engine → Engine
unfolding insert mark_cached
install content e = record e {
  tmp = none;
  cache = insert e.recv_rel_path content e.cache;
  catalog = mark_cached e.recv_rel_path e.catalog;
}

-- `opened` is the answer of `g_mkstemp`. An empty file is complete at once; its rename is not looked
-- at, and is taken to succeed.
unfoldable pub begin_receive : Bool → Meta → Engine → Engine
unfolding end_fetch install
begin_receive opened m e =
    if not opened
    then end_fetch (fail eio) (record e { tmp = none })
    else if m.num_chunks == 0 || m.file_size == 0
    then end_fetch ok (install [] e)
    else record e { tmp = some [] }

unfoldable pub fetch_resp : Bool → ℕ → Meta → Engine → Engine
unfolding end_fetch note_meta begin_receive
fetch_resp opened status m e =
    if not e.fetch_in_progress || not (e.fetch_pending_path =p m.rel_path)
    then e
    else if not (status == fetch_ok)
    then end_fetch (if status == fetch_not_found then fail enoent else fail eio) e
    else begin_receive opened m (note_meta m e)

-- A file that the peer pushes.
unfoldable pub file_meta : Bool → Meta → Engine → Engine
unfolding note_meta
file_meta opened m e = record (note_meta m e) { tmp = if opened then some [] else none }

-- "if (eng->fetch_in_progress)": a pushed file has nobody waiting for it.
unfoldable pub finish : Bool → List ℕ → Engine → Engine
unfolding end_fetch install
finish renamed content e =
    if not renamed
    then end_fetch (fail eio) (record e { tmp = none })
    else if e.fetch_in_progress
    then end_fetch ok (install content e)
    else install content e

unfoldable pub chunk_written : Bool → List ℕ → Engine → Engine
unfolding finish
chunk_written renamed content e =
    let e' = record e { tmp = some content; recv_chunks_got = (e.recv_chunks_got + 1) % 2 ^ 32 } in
    if leb e.recv_num_chunks ((e.recv_chunks_got + 1) % 2 ^ 32)
    then finish renamed content e'
    else e'

abbrev pub write_chunk : Bool → Bool → List ℕ → Option (List ℕ) → Engine → Engine
write_chunk wrote renamed chunk none e = e
write_chunk wrote renamed chunk (some content) e =
    if ltb 0 (length chunk) && not wrote
    then end_fetch (fail eio) (record e { tmp = none })
    else chunk_written renamed (content ++ chunk) e

-- `wrote` and `renamed` are the answers of `write` and `g_rename`; `chunk` are the `chunk_len` bytes
-- behind the message's fields.
unfoldable pub file_data : Bool → Bool → List ℕ → Engine → Engine
unfolding chunk_written end_fetch
file_data wrote renamed chunk e = write_chunk wrote renamed chunk e.tmp e
