-- ===== src/Verbs/Worker/World.antt =====
-- A queue pair of verbs/src/odl_tb5_verbs_qp.c as its callers and its worker share it: the steps that
-- they take, in any order.
use odin_link_five.Prelude.{
  ℕ, ◌+◌, ◌-◌, ◌<◌, ◌≡◌, Bool, true, false, List, [], ◌∷◌, ◌++◌, length, take, drop, map, Option,
  none, some, if◌then◌else◌, ltb,
}
use odin_link_five.Errno.{Status, ok, fail}
use odin_link_five.Verbs.Mr.{Mr}
use odin_link_five.Verbs.Cq.{Wc, success}
use odin_link_five.Verbs.Sq.{SendWr, SendQueue, PostEnv, read}
use odin_link_five.Verbs.Sq.Fill.{Request, request}
use odin_link_five.Verbs.Sq.Post.{waiting, IsValid}
use odin_link_five.Verbs.Worker.{
  Payload, host, payload_of, SendSide, inline_ready, inline_send, inline_complete, post_queued,
  send_wc, Peeked, Stage, idle, trying, done, popped, peeked, peek, try_send, pop, complete,
}

-- A queue pair, the worker's place in its round, and the inline callers that still owe a completion.
-- `posted` are the requests that were taken, `left` those that were handed to the driver, `loads` what
-- it took of each, and `completed` the completions, each in the order of the calls.
pub record World : Type 0 where
  pub side : SendSide
  pub stage : Stage
  pub owed : List SendWr
  pub posted : List Request
  pub left : List Request
  pub loads : List (Option Payload)
  pub completed : List Wc

-- The requests that the loop takes are those before `*bad_wr`.
abbrev pub accepted : List SendWr → List SendWr → List SendWr
accepted wrs bad = take (length wrs - length bad) wrs

abbrev pub queue_up : PostEnv → List SendWr → World → World
queue_up env wrs w =
    let (_, bad, side) = post_queued env wrs w.side in
    record w { side = side; posted = w.posted ++ map (request env) (accepted wrs bad) }

-- The inline caller's request leaves at once.
abbrev pub send_inline : PostEnv → SendWr → World → World
send_inline env wr w = record w {
  side = inline_send env wr w.side;
  posted = w.posted ++ (request env wr ∷ []);
  left = w.left ++ (request env wr ∷ []);
  loads = w.loads ++ (some (host (read env.mem wr.addr wr.length)) ∷ []);
  owed = wr ∷ w.owed;
}

abbrev pub finish_inline : SendWr → List SendWr → World → World
finish_inline wr rest w = record w {
  side = inline_complete wr w.side;
  owed = rest;
  completed = w.completed ++ (send_wc wr.wr_id success wr.length w.side ∷ []);
}

abbrev pub at_stage : Stage × SendSide → World → World
at_stage (st, side) w = record w { side = side; stage = st }

abbrev pub begin_round : World → World
begin_round w = at_stage (peek w.side) w

-- The request leaves unless it is retained.
abbrev pub leaves : Stage → List Request → List Request
leaves (done _) rs = take 1 rs
leaves _ rs = []

-- What the driver takes of a request: nothing if it has no buffer or is refused.
abbrev pub load_of : Status → Peeked → Payload → Option Payload
load_of ok p load = if ltb 0 p.num_sge then some load else none
load_of (fail _) p load = none

abbrev pub loads_of : Stage → Option Payload → List (Option Payload)
loads_of (done _) l = l ∷ []
loads_of _ l = []

abbrev pub tried : Stage × SendSide → Option Payload → World → World
tried (st, side) load w = record w {
  side = side;
  stage = st;
  left = w.left ++ leaves st (waiting w.side.queue);
  loads = w.loads ++ loads_of st load;
}

abbrev pub attempt : (ℕ → ℕ) → List Mr → Status → Peeked → World → World
attempt mem mrs ret p w =
    tried (try_send mem mrs ret p w.side) (load_of ret p (payload_of mem mrs w.side.queue p)) w

abbrev pub free_slot : Wc → World → World
free_slot wc w = record w { side = pop w.side; stage = popped wc }

abbrev pub end_round : Wc → World → World
end_round wc w = record w {
  side = complete wc w.side;
  stage = idle;
  completed = w.completed ++ (wc ∷ []);
}

pub data Step : World → World → Type 0 where
  queue_up_step : (env : PostEnv) (wrs : List SendWr) (w : World) → Step w (queue_up env wrs w)
  send_inline_step :
      (env : PostEnv) (on : Bool) (wr : SendWr) (w : World)
      → inline_ready env on (wr ∷ []) w.side.queue ≡ true
      → Step w (send_inline env wr w)
  finish_inline_step :
      (before after : List SendWr) (wr : SendWr) (w : World)
      → w.owed ≡ before ++ (wr ∷ after)
      → Step w (finish_inline wr (before ++ after) w)
  begin_step : (w : World) → w.stage ≡ idle → Step w (begin_round w)
  attempt_step :
      (mem : ℕ → ℕ) (mrs : List Mr) (ret : Status) (p : Peeked) (w : World)
      → w.stage ≡ trying p
      → Step w (attempt mem mrs ret p w)
  free_step : (wc : Wc) (w : World) → w.stage ≡ done wc → Step w (free_slot wc w)
  end_step : (wc : Wc) (w : World) → w.stage ≡ popped wc → Step w (end_round wc w)

pub data Steps : World → World → Type 0 where
  stay : (w : World) → Steps w w
  step : (w w' w'' : World) → Step w w' → Steps w' w'' → Steps w w''

-- The requests that have not left: one that was sent keeps its slot for a while.
abbrev pub unsent : Stage → List Request → List Request
unsent (done _) rs = drop 1 rs
unsent _ rs = rs

-- The completion that the worker still owes.
abbrev pub held : Stage → ℕ
held (done _) = 1
held (popped _) = 1
held _ = 0

abbrev pub StageOk : Stage → SendQueue → Type 0
StageOk idle q = q.tx_inflight ≡ false
StageOk (trying p) q = (q.tx_inflight ≡ true) × (0 < q.sq_count) × (p ≡ peeked q)
StageOk (done _) q = (q.tx_inflight ≡ true) × (0 < q.sq_count)
StageOk (popped _) q = q.tx_inflight ≡ false

pub record IsOrdered (w : World) : Type 0 where
  pub valid : IsValid w.side.queue
  pub order : w.posted ≡ w.left ++ unsent w.stage (waiting w.side.queue)
  pub counted : length w.left ≡ length w.completed + length w.owed + held w.stage
  pub stage_ok : StageOk w.stage w.side.queue
