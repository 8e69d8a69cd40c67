-- ===== src/Daemon/Transfer/Fetch.antt =====
-- A fetch from request to file: `sync_handle_fetch_resp` and the chunks that follow it, of
-- daemon/src/odl_tb5_daemon_sync.c.
use odin_link_five.Prelude.{
  ℕ, zero, suc, ◌*◌, ◌<◌, ◌^◌, ◌≡◌, refl, sym, ◌∙◌, subst, true, false, List, [], ◌∷◌, some, ◌==◌,
  ==_iff, length, arith,
}
use odin_link_five.Errno.{ok}
use odin_link_five.Daemon.Table.{◌=p◌, lookup}
use odin_link_five.Daemon.Catalog.{mark_cached}
use odin_link_five.Daemon.Transfer.{
  Engine, Meta, fetch_ok, num_chunks_of, served, note_meta, begin_receive, fetch_resp,
}
use odin_link_five.Daemon.Transfer.Serve.{join, join-served, enough_chunks}
use odin_link_five.Daemon.Transfer.Assemble.{receive_all, receive_all-IsReceived}

unfoldable started : Meta → Engine → Engine
unfolding note_meta
started m e = record (note_meta m e) { tmp = some [] }

-- The answer that was waited for opens the temporary file.
fetch_resp-started :
    (m : Meta) (e : Engine)
    → e.fetch_in_progress ≡ true
    → (e.fetch_pending_path =p m.rel_path) ≡ true
    → 0 < m.num_chunks
    → 0 < m.file_size
    → fetch_resp true fetch_ok m e ≡ started m e
unfolding fetch_resp begin_receive started note_meta
fetch_resp-started m e waits this chunks bytes =
    let a : (m.num_chunks == 0) ≡ false = ground (arith, ==_iff m.num_chunks 0) in
    let b : (m.file_size == 0) ≡ false = ground (arith, ==_iff m.file_size 0) in
    rw (waits, this, a, b) refl

-- The path has the bytes, who waited is answered, and the catalogue knows of the copy.
pub record IsFetched (content : List ℕ) (m : Meta) (e e' : Engine) : Type 0 where
  pub cached : lookup m.rel_path e'.cache ≡ some content
  pub answered : e'.fetch_result ≡ ok
  pub over : e'.fetch_in_progress ≡ false
  pub marked : e'.catalog ≡ mark_cached m.rel_path e.catalog

chunks_to_file :
    (cs : List (List ℕ)) (m : Meta) (e : Engine)
    → e.fetch_in_progress ≡ true
    → length cs ≡ m.num_chunks
    → 0 < m.num_chunks
    → m.num_chunks < 2 ^ 32
    → IsFetched (join cs) m e (receive_all cs (started m e))
unfolding started note_meta
chunks_to_file [] m e waits all some_chunk small = absurd (omega arith)
chunks_to_file (c ∷ cs) m e waits all some_chunk small =
    let r = receive_all-IsReceived cs c [] (started m e) refl (omega arith) small in
    record { cached = r.installed; answered = r.answered waits; over = r.over; marked = r.marked }

-- Once as many chunks have come as were announced, what is installed and reported as fetched is what
-- they hold, one behind the other in the order of their arrival, whatever size and digest were
-- announced. The fetch is under way for that path, the size announced is above 0, the number of
-- chunks is above 0 and below 2^32, and the file system takes every call.
pub fetch_made_of_chunks :
    (cs : List (List ℕ)) (m : Meta) (e : Engine)
    → e.fetch_in_progress ≡ true
    → (e.fetch_pending_path =p m.rel_path) ≡ true
    → 0 < m.file_size
    → length cs ≡ m.num_chunks
    → 0 < m.num_chunks
    → m.num_chunks < 2 ^ 32
    → IsFetched (join cs) m e (receive_all cs (fetch_resp true fetch_ok m e))
fetch_made_of_chunks cs m e waits this bytes all some_chunk small =
    subst (λ x. IsFetched (join cs) m e (receive_all cs x))
      (sym (fetch_resp-started m e waits this some_chunk bytes))
      (chunks_to_file cs m e waits all some_chunk small)

pos_factor : (c n : ℕ) → 0 < c * n → 0 < n
pos_factor c zero h = absurd (omega arith)
pos_factor c (suc n) h = omega arith

num_chunks_of-pos : (chunk size : ℕ) → 0 < chunk → 0 < size → 0 < num_chunks_of chunk size
num_chunks_of-pos chunk size pos some_bytes =
    pos_factor chunk (num_chunks_of chunk size) (omega (arith, enough_chunks chunk size pos))

-- A file that is not empty, cut into chunks of any size above 0 and announced with its size and its
-- number of chunks, fewer than 2^32, arrives in the cache byte for byte; the path is marked as
-- cached, and the fetch that waits for it ends with 0. The fetch is under way for that path, and the
-- file systems on both sides take every call.
pub fetch_delivers :
    (chunk : ℕ) (content : List ℕ) (m : Meta) (e : Engine)
    → 0 < chunk
    → m.file_size ≡ length content
    → m.num_chunks ≡ num_chunks_of chunk (length content)
    → e.fetch_in_progress ≡ true
    → (e.fetch_pending_path =p m.rel_path) ≡ true
    → 0 < length content
    → m.num_chunks < 2 ^ 32
    → IsFetched content m e
        (receive_all (served chunk (length content) content) (fetch_resp true fetch_ok m e))
fetch_delivers chunk content m e pos size chunks waits this bytes small =
    let (whole, n) = join-served chunk content pos in
    subst
      (λ x.
        IsFetched x m e
          (receive_all (served chunk (length content) content) (fetch_resp true fetch_ok m e)))
      whole
      (fetch_made_of_chunks (served chunk (length content) content) m e waits this (omega arith)
        (n ∙ sym chunks) (omega (arith, num_chunks_of-pos chunk (length content) pos bytes)) small)
