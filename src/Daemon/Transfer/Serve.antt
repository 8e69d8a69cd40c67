-- ===== src/Daemon/Transfer/Serve.antt =====
-- The chunks that `sync_handle_fetch_req` of daemon/src/odl_tb5_daemon_sync.c sends are the file.
use odin_link_five.Prelude.{
  ℕ, zero, suc, ◌+◌, ◌-◌, ◌*◌, ◌≤◌, ◌<◌, ◌≡◌, refl, sym, ap, ◌∙◌, List, [], ◌∷◌, ◌++◌,
  if◌then◌else◌, ltb, length, take, drop, length-take, length-drop, take-append-drop, drop-add,
  drop-all, arith,
}
use native.Mathlib.Nat.{div-add-mod, mod-lt, mul-suc}
use odin_link_five.Daemon.Transfer.{num_chunks_of, serve_chunks, served}

unfoldable pub join : List (List ℕ) → List ℕ
join [] = []
join (c ∷ cs) = c ++ join cs

-- A piece and what comes behind it.
piece :
    (k sent : ℕ) (content : List ℕ)
    → sent + k ≤ length content
    → take k (drop sent content) ++ drop (sent + length (take k (drop sent content))) content
      ≡ drop sent content
piece k sent content le =
    let ds = drop sent content in
    let n : length (take k ds) ≡ k = omega (arith, length-take k ds, length-drop sent content) in
    ap (λ i. take k ds ++ drop i content) {y = k + sent} (omega arith)
    ∙ ap (λ l. take k ds ++ l) (sym (drop-add sent k content))
    ∙ take-append-drop k ds

-- What a round asks for.
abbrev to_read : ℕ → ℕ → ℕ → ℕ
to_read chunk size sent = if ltb size (sent + chunk) then size - sent else chunk

to_read_lem :
    (chunk size sent n : ℕ)
    → sent ≤ size
    → size ≤ sent + chunk * suc n
    → (sent + to_read chunk size sent ≤ size) × (size ≤ sent + to_read chunk size sent + chunk * n)
to_read_lem chunk size sent n le all =
    let m : chunk * suc n ≡ chunk * n + chunk = mul-suc chunk n in ground arith

-- Each round gives the next piece, and at most a chunk of it.
join-serve_chunks :
    (chunk : ℕ) (content : List ℕ) (n sent : ℕ)
    → sent ≤ length content
    → length content ≤ sent + chunk * n
    → join (serve_chunks chunk (length content) content n sent) ≡ drop sent content
unfolding join serve_chunks
join-serve_chunks chunk content zero sent le all = sym (drop-all sent content (omega arith))
join-serve_chunks chunk content (suc n) sent le all =
    let k = to_read chunk (length content) sent in
    let (fits, rest) = to_read_lem chunk (length content) sent n le all in
    let got = take k (drop sent content) in
    let size : length got ≡ k =
      omega (arith, length-take k (drop sent content), length-drop sent content) in
    ap (λ l. got ++ l)
      (join-serve_chunks chunk content n (sent + length got) (omega arith) (omega arith))
    ∙ piece k sent content fits

length-serve_chunks :
    (chunk size : ℕ) (content : List ℕ) (n sent : ℕ)
    → length (serve_chunks chunk size content n sent) ≡ n
unfolding serve_chunks
length-serve_chunks chunk size content zero sent = refl
length-serve_chunks chunk size content (suc n) sent =
    ap suc (length-serve_chunks chunk size content n _)

pub enough_chunks : (chunk size : ℕ) → 0 < chunk → size ≤ chunk * num_chunks_of chunk size
unfolding num_chunks_of
enough_chunks chunk size pos =
    ground (arith, div-add-mod (size + chunk - 1) chunk, mod-lt (size + chunk - 1) pos)

-- A file that does not change while it is sent goes out whole, in as many chunks as were announced.
pub join-served :
    (chunk : ℕ) (content : List ℕ)
    → 0 < chunk
    → (join (served chunk (length content) content) ≡ content)
      × (length (served chunk (length content) content) ≡ num_chunks_of chunk (length content))
unfolding served
join-served chunk content pos = (
  join-serve_chunks chunk content (num_chunks_of chunk (length content)) 0 (omega arith)
      (omega (arith, enough_chunks chunk (length content) pos)),
  length-serve_chunks chunk (length content) content (num_chunks_of chunk (length content)) 0,
)
