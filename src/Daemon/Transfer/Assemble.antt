-- ===== src/Daemon/Transfer/Assemble.antt =====
-- What `sync_handle_file_data` of daemon/src/odl_tb5_daemon_sync.c makes of the chunks of a file, when
-- the file system takes them.
use odin_link_five.Prelude.{
  ℕ, ◌+◌, ◌%◌, ◌^◌, ◌<◌, ◌≡◌, refl, sym, ap, ◌∙◌, subst, Bool, true, false, List, [], ◌∷◌, ◌++◌,
  append_assoc, append-nil, none, some, ltb, leb, le→leb, length, arith, Bool-cases, inl, inr,
}
use odin_link_five.Errno.{ok}
use odin_link_five.Daemon.Table.{FilePath, ◌=p◌, =p_refl, lookup, lookup-insert}
use odin_link_five.Daemon.Catalog.{mark_cached}
use odin_link_five.Daemon.Transfer.{
  Engine, end_fetch, install, finish, chunk_written, write_chunk, file_data,
}
use odin_link_five.Daemon.Transfer.Serve.{join}

unfoldable pub receive_all : List (List ℕ) → Engine → Engine
unfolding file_data
receive_all [] e = e
receive_all (c ∷ cs) e = receive_all cs (file_data true true c e)

-- The file is in the cache and marked, the temporary file is gone, and who waited is answered.
pub record IsReceived (content : List ℕ) (e e' : Engine) : Type 0 where
  pub installed : lookup e.recv_rel_path e'.cache ≡ some content
  pub others :
      (p : FilePath) → (p =p e.recv_rel_path) ≡ false → lookup p e'.cache ≡ lookup p e.cache
  pub closed : e'.tmp ≡ none
  pub marked : e'.catalog ≡ mark_cached e.recv_rel_path e.catalog
  pub over : e'.fetch_in_progress ≡ false
  pub answered : e.fetch_in_progress ≡ true → e'.fetch_result ≡ ok

-- Before the last chunk.
unfoldable held_back : List ℕ → Engine → Engine
held_back content e = record e { tmp = some content; recv_chunks_got = e.recv_chunks_got + 1 }

write_chunk_ok :
    (c content : List ℕ) (e : Engine)
    → write_chunk true true c (some content) e ≡ chunk_written true (content ++ c) e
write_chunk_ok c content e = elim (Bool-cases (ltb 0 (length c))) [
  | inl h ↦ rw (write_chunk, h) refl
  | inr h ↦ rw (write_chunk, h) refl
]

write_some :
    (c content : List ℕ) (e : Engine)
    → e.tmp ≡ some content
    → file_data true true c e ≡ chunk_written true (content ++ c) e
unfolding file_data
write_some c content e h = ap (λ o. write_chunk true true c o e) h ∙ write_chunk_ok c content e

chunk_written-more :
    (content : List ℕ) (e : Engine)
    → e.recv_chunks_got + 1 < e.recv_num_chunks
    → e.recv_num_chunks < 2 ^ 32
    → chunk_written true content e ≡ held_back content e
unfolding chunk_written held_back
chunk_written-more content e more small =
    let g : (e.recv_chunks_got + 1) % 2 ^ 32 ≡ e.recv_chunks_got + 1 = omega arith in
    let not_all : leb e.recv_num_chunks ((e.recv_chunks_got + 1) % 2 ^ 32) ≡ false = ground arith in
    rw (not_all, g) refl

install-IsReceived :
    (content : List ℕ) (e : Engine) (b : Bool) (n : ℕ)
    → e.fetch_in_progress ≡ b
    → IsReceived content e
        (finish true content (record e { tmp = some content; recv_chunks_got = n }))
unfolding finish install end_fetch
install-IsReceived content e true n h = rw h (record {
  installed =
      lookup-insert e.recv_rel_path e.recv_rel_path content e.cache
      ∙ rw (=p_refl e.recv_rel_path) refl;
  others = λ p ne. lookup-insert p e.recv_rel_path content e.cache ∙ rw ne refl;
  closed = refl;
  marked = refl;
  over = refl;
  answered = λ _. refl;
})
install-IsReceived content e false n h = rw h (record {
  installed =
      lookup-insert e.recv_rel_path e.recv_rel_path content e.cache
      ∙ rw (=p_refl e.recv_rel_path) refl;
  others = λ p ne. lookup-insert p e.recv_rel_path content e.cache ∙ rw ne refl;
  closed = refl;
  marked = refl;
  over = refl;
  answered = λ w. absurd (cc);
})

chunk_written-last :
    (content : List ℕ) (e : Engine)
    → e.recv_chunks_got + 1 ≡ e.recv_num_chunks
    → e.recv_num_chunks < 2 ^ 32
    → IsReceived content e (chunk_written true content e)
unfolding chunk_written
chunk_written-last content e last small =
    let all : leb e.recv_num_chunks ((e.recv_chunks_got + 1) % 2 ^ 32) ≡ true =
      le→leb _ _ (omega arith) in
    rw all
      (install-IsReceived content e e.fetch_in_progress ((e.recv_chunks_got + 1) % 2 ^ 32) refl)

-- Chunks that complete the file: whatever they are, it is made of them in the order of their arrival.
pub receive_all-IsReceived :
    (cs : List (List ℕ)) (c content : List ℕ) (e : Engine)
    → e.tmp ≡ some content
    → e.recv_chunks_got + length (c ∷ cs) ≡ e.recv_num_chunks
    → e.recv_num_chunks < 2 ^ 32
    → IsReceived (content ++ join (c ∷ cs)) e (receive_all (c ∷ cs) e)
unfolding receive_all join held_back
receive_all-IsReceived [] c content e h n small =
    rw (write_some c content e h, append-nil c)
      (chunk_written-last (content ++ c) e (omega arith) small)
receive_all-IsReceived (d ∷ cs) c content e h n small =
    let one = write_some c content e h ∙ chunk_written-more (content ++ c) e (omega arith) small in
    let r =
      receive_all-IsReceived cs d (content ++ c) (held_back (content ++ c) e) refl (omega arith)
        small in
    subst (λ x. IsReceived (content ++ (c ++ join (d ∷ cs))) e (receive_all (d ∷ cs) x)) (sym one)
      (record {
        installed = r.installed ∙ ap some (append_assoc content c (join (d ∷ cs)));
        others = r.others;
        closed = r.closed;
        marked = r.marked;
        over = r.over;
        answered = r.answered;
      })
