-- ===== src/Verbs/Qp.antt =====
-- The life of a queue pair of verbs/src/odl_tb5_verbs_qp.c: `odl_create_qp`, `odl_destroy_qp`,
-- `odl_modify_qp` and `odl_query_qp`. The answers of the C library, of `odl_tb5_stream_open` and of
-- `pthread_create` are arguments; the open streams and the context's array are the state.
pub mod Create
use odin_link_five.Prelude.{
  ℕ, zero, suc, ◌+◌, ◌-◌, ◌%◌, Bool, true, false, ◌&&◌, not, List, [], ◌∷◌, ◌++◌, Option, none,
  some, if◌then◌else◌, ltb, leb, ◌==◌, length,
}
use odin_link_five.Errno.{Errno, Status, ok, fail, enomem, enodev, eopnotsupp, eagain}
use odin_link_five.Verbs.Handles

abbrev pub max_qps : ℕ
max_qps = 256

abbrev pub sq_depth_min : ℕ
sq_depth_min = 64

abbrev pub sq_depth_max : ℕ
sq_depth_max = 65535

unfoldable pub sq_depth_of : ℕ → ℕ
sq_depth_of requested =
    let capped = if ltb sq_depth_max requested then sq_depth_max else requested in
    if ltb capped sq_depth_min then sq_depth_min else capped

-- `enum ibv_qp_state`, as far as a queue pair of this provider is moved through it.
pub data QpState : Type 0 where
  reset init rtr rts sqd sqe err : QpState

-- A queue pair's own state beside its queues.
pub record Qp : Type 0 where
  pub handle : ℕ
  pub stream_id : ℕ
  pub tx_stream_id : ℕ
  pub dest_qp : ℕ
  pub qp_num : ℕ
  pub state : QpState
  pub sq_depth : ℕ

-- The context's queue pairs, the streams that are open, and the queue pairs that are allocated.
pub record Context : Type 0 where
  pub qps : List ℕ
  pub streams : List ℕ
  pub allocated : List ℕ

-- What the calls of `odl_create_qp` answer: `calloc` for the queue pair (its address) and for the send
-- queue, `odl_tb5_stream_open` twice, and `pthread_create` twice.
pub record CreateAnswers : Type 0 where
  pub qp_at : Option ℕ
  pub sq_allocated : Bool
  pub rx_stream : Option ℕ
  pub tx_stream : Option ℕ
  pub worker_started : Bool
  pub rx_worker_started : Bool

pub data Created : Type 0 where
  null : Errno → Created
  made : Qp → Created

-- A stream that is closed is open no more; an id is open once at most.
unfoldable pub close : ℕ → List ℕ → List ℕ
close n [] = []
close n (x ∷ xs) = let rest = close n xs in if x == n then xs else x ∷ rest

-- `pthread_create` twice. A queue pair whose thread does not start is freed, and its streams closed.
unfoldable pub start_workers : CreateAnswers → Qp → Context → Created × Context
unfolding close
start_workers a qp ctx = if a.worker_started && a.rx_worker_started then (made qp, ctx) else (
  null eagain,
  record ctx {
    streams = close qp.stream_id (close qp.tx_stream_id ctx.streams);
    allocated = close qp.handle ctx.allocated;
  },
)

-- "Track in context".
unfoldable pub track : CreateAnswers → Qp → Context → Created × Context
unfolding close start_workers
track a qp ctx =
    if leb max_qps (length ctx.qps)
    then (
      null enomem,
      record ctx {
        streams = close qp.stream_id ctx.streams;
        allocated = close qp.handle ctx.allocated;
      },
    )
    else start_workers a qp (record ctx { qps = ctx.qps ++ (qp.handle ∷ []) })

unfoldable pub new_qp : ℕ → ℕ → ℕ → ℕ → Qp
new_qp handle rx tx requested = record {
  handle = handle;
  stream_id = rx;
  tx_stream_id = tx;
  dest_qp = 0;
  qp_num = rx;
  state = reset;
  sq_depth = sq_depth_of requested;
}

-- From the second stream on.
unfoldable pub with_tx : CreateAnswers → ℕ → ℕ → ℕ → Option ℕ → Context → Created × Context
unfolding close new_qp track
with_tx a handle rx requested none ctx = (
  null enomem,
  record ctx { streams = close rx ctx.streams; allocated = close handle ctx.allocated },
)
with_tx a handle rx requested (some tx) ctx =
    track a (new_qp handle rx tx requested) (record ctx { streams = tx ∷ ctx.streams })

unfoldable pub with_rx : CreateAnswers → ℕ → ℕ → Option ℕ → Context → Created × Context
unfolding close with_tx
with_rx a handle requested none ctx =
    (null enodev, record ctx { allocated = close handle ctx.allocated })
with_rx a handle requested (some rx) ctx =
    with_tx a handle rx requested a.tx_stream (record ctx { streams = rx ∷ ctx.streams })

unfoldable pub with_sq : CreateAnswers → ℕ → ℕ → Bool → Context → Created × Context
unfolding close with_rx
with_sq a handle requested true ctx = with_rx a handle requested a.rx_stream ctx
with_sq a handle requested false ctx =
    (null enomem, record ctx { allocated = close handle ctx.allocated })

unfoldable pub with_qp : CreateAnswers → ℕ → Option ℕ → Context → Created × Context
unfolding with_sq
with_qp a requested none ctx = (null enomem, ctx)
with_qp a requested (some handle) ctx =
    with_sq a handle requested a.sq_allocated (record ctx { allocated = handle ∷ ctx.allocated })

-- `is_rc` says that the type asked for is `IBV_QPT_RC`.
unfoldable pub create_qp : CreateAnswers → Bool → ℕ → Context → Created × Context
unfolding with_qp
create_qp a is_rc requested ctx =
    if is_rc then with_qp a requested a.qp_at ctx else (null eopnotsupp, ctx)

-- `if (id > 0) odl_tb5_stream_close(...)`
abbrev pub close_some : ℕ → List ℕ → List ℕ
close_some n xs = if ltb 0 n then close n xs else xs

-- The threads have been joined before; what the send queue held is dropped with it.
unfoldable pub destroy_qp : Qp → Context → Context
unfolding close Handles.remove
destroy_qp qp ctx = record {
  qps = Handles.remove (λ h. h == qp.handle) ctx.qps 0;
  streams = close_some qp.stream_id (close_some qp.tx_stream_id ctx.streams);
  allocated = close qp.handle ctx.allocated;
}

-- The attributes that are set are those whose mask bit is; `dest_qp` has 8 bits.
unfoldable pub modify_qp : Option ℕ → Option QpState → Qp → Qp
modify_qp dest st qp = record qp {
  dest_qp = elim dest [ none ↦ qp.dest_qp | some n ↦ n % 256 ];
  state = elim st [ none ↦ qp.state | some x ↦ x ];
}
