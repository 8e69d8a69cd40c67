-- ===== src/Verbs/Sq.antt =====
-- The send queue of a queue pair, and the loop of `odl_post_send`, of
-- verbs/src/odl_tb5_verbs_qp.c. An entry has a bounce buffer of its own, which stays with its slot.
-- The application's memory, the environment's switches and the answers of `realloc` are arguments.
pub mod Fill
pub mod Post
pub mod Head
use odin_link_five.Prelude.{
  ℕ, zero, suc, ◌+◌, ◌-◌, ◌%◌, ◌^◌, Bool, true, false, ◌&&◌, not, List, [], ◌∷◌, ◌++◌, Option, none,
  some, if◌then◌else◌, ltb, leb, ◌==◌, ℤ, inc, length, get_or, set, take, replicate,
}
use odin_link_five.Errno.{Status, ok, fail, enomem}
use odin_link_five.Verbs.Mr.{Mr, lookup_dmabuf}
use odin_link_five.Verbs.Copy.{overwrite, wc_stream_copy}

-- `struct ibv_send_wr` with its first scatter entry, which has a meaning when `num_sge > 0`.
pub record SendWr : Type 0 where
  pub wr_id : ℕ
  pub num_sge : ℕ
  pub addr : ℕ
  pub length : ℕ
  pub lkey : ℕ

-- What an entry's `addr` points to: its slot's bounce buffer, or the application's memory.
pub data Address : Type 0 where
  in_bounce : Address
  in_app : ℕ → Address

-- `bounce` is set exactly when `addr` is `in_bounce`.
pub record SendEntry : Type 0 where
  pub wr_id : ℕ
  pub addr : Address
  pub len : ℕ
  pub lkey : ℕ
  pub num_sge : ℕ
  pub bounce_storage : List ℕ
  pub bounce_cap : ℕ

-- What `calloc` leaves in a slot.
abbrev pub zero_entry : SendEntry
zero_entry = record {
  wr_id = 0;
  addr = in_app 0;
  len = 0;
  lkey = 0;
  num_sge = 0;
  bounce_storage = [];
  bounce_cap = 0;
}

-- The four `wc_stream_` counters, of 64 bits.
pub record CopyStats : Type 0 where
  pub stream_calls : ℕ
  pub stream_bytes : ℕ
  pub fallback_calls : ℕ
  pub fallback_bytes : ℕ

abbrev add_u64 : ℕ → ℕ → ℕ
add_u64 a b = (a + b) % 2 ^ 64

pub record SendQueue : Type 0 where
  pub sq : List SendEntry
  pub sq_depth : ℕ
  pub sq_head : ℕ
  pub sq_tail : ℕ
  pub sq_count : ℕ
  pub tx_inflight : Bool
  pub pending_sends : ℤ
  pub stats : CopyStats

-- `mem` is the application's memory, byte by byte; `can_grow` answers for `realloc`.
pub record PostEnv : Type 0 where
  pub mem : ℕ → ℕ
  pub mrs : List Mr
  pub direct_send : Bool
  pub wc_enabled : Bool
  pub can_grow : ℕ → Bool

unfoldable pub read : (ℕ → ℕ) → ℕ → ℕ → List ℕ
read mem addr zero = []
read mem addr (suc n) = mem addr ∷ read mem (addr + 1) n

-- A buffer after `realloc`; the C library leaves the added bytes open.
abbrev pub resize : ℕ → List ℕ → List ℕ
resize n xs = take n (xs ++ replicate n 0)

-- "Copy now": whether the request's bytes go to the bounce buffer.
unfoldable pub copies : PostEnv → SendWr → Bool
copies env wr = elim (lookup_dmabuf wr.lkey env.mrs) [
  | some _ ↦ false
  | none ↦ ltb 0 wr.length && not env.direct_send
]

-- The copy, by lines where the switch says so and there is one, and its counters.
unfoldable pub copy_in : PostEnv → SendWr → List ℕ → CopyStats → List ℕ × CopyStats
copy_in env wr storage st =
    let src = read env.mem wr.addr wr.length in
    let (copied, body) =
      if env.wc_enabled then wc_stream_copy wr.addr src wr.length storage else (storage, 0) in
    if ltb 0 body
    then (
      copied,
      record st {
        stream_calls = add_u64 st.stream_calls 1;
        stream_bytes = add_u64 st.stream_bytes body;
      },
    )
    else (
      overwrite 0 src storage,
      if env.wc_enabled
          then record st {
            fallback_calls = add_u64 st.fallback_calls 1;
            fallback_bytes = add_u64 st.fallback_bytes wr.length;
          }
          else st,
    )

-- "if (entry->bounce_cap < blen)": the slot with room for the bytes, or `none`.
unfoldable pub grow : PostEnv → ℕ → SendEntry → Option SendEntry
grow env blen e =
    if ltb e.bounce_cap blen
    then (if env.can_grow blen
        then some (record e { bounce_storage = resize blen e.bounce_storage; bounce_cap = blen })
        else none)
    else some e

unfoldable pub bounced : PostEnv → SendWr → SendEntry → CopyStats → SendEntry × CopyStats
unfolding copy_in
bounced env wr e st =
    let (storage, st') = copy_in env wr e.bounce_storage st in
    (record e { bounce_storage = storage; addr = in_bounce; len = wr.length; lkey = wr.lkey }, st')

-- A slot after the growth that it needs, or not, and whether it holds the request.
unfoldable pub with_bounce :
    PostEnv → SendWr → SendEntry → CopyStats → Option SendEntry → Bool × SendEntry × CopyStats
unfolding bounced
with_bounce env wr e st none = (false, e, st)
with_bounce env wr e st (some e') = let (e'', st') = bounced env wr e' st in (true, e'', st')

-- The slot filled from the request; the flag is false when its bounce buffer could not grow.
unfoldable pub fill : PostEnv → SendWr → SendEntry → CopyStats → Bool × SendEntry × CopyStats
unfolding copies grow with_bounce
fill env wr e st =
    let named = record e { wr_id = wr.wr_id; num_sge = wr.num_sge } in
    if ltb 0 wr.num_sge
    then (if copies env wr
        then with_bounce env wr named st (grow env wr.length named)
        else (true, record named { addr = in_app wr.addr; len = wr.length; lkey = wr.lkey }, st))
    else (true, record named { addr = in_app 0; len = 0; lkey = 0 }, st)

-- The slot at the tail is filled, and counts from now on.
unfoldable pub push : SendEntry → CopyStats → SendQueue → SendQueue
push e st q = record q {
  sq = set q.sq q.sq_tail e;
  sq_tail = (q.sq_tail + 1) % q.sq_depth;
  sq_count = q.sq_count + 1;
  pending_sends = inc q.pending_sends;
  stats = st;
}

-- The loop: what it returns, `*bad_wr` with the requests linked after it, and the queue.
unfoldable pub post_loop : PostEnv → List SendWr → SendQueue → Status × List SendWr × SendQueue
unfolding fill push
post_loop env [] q = (ok, [], q)
post_loop env (wr ∷ wrs) q =
    let (filled, e, st) = fill env wr (get_or q.sq q.sq_tail zero_entry) q.stats in
    let rest = post_loop env wrs (push e st q) in
    if leb q.sq_depth q.sq_count
    then (fail enomem, wr ∷ wrs, q)
    else if filled
    then rest
    else (fail enomem, wr ∷ wrs, record q { sq = set q.sq q.sq_tail e })
