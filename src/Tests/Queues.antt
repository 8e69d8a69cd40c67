-- ===== src/Tests/Queues.antt =====
-- The theorems on the verbs provider's queues, applied to small ones.
use odin_link_five.Prelude.{
  ℕ, zero, suc, ◌+◌, ◌<◌, ◌≡◌, refl, true, false, [], ◌∷◌, ◌++◌, none, some, take, drop, pos,
  get_or, ◌⊎◌, ◌%◌, arith,
}
use odin_link_five.Errno.{ok, enospc}
use odin_link_five.Verbs.Fifo
use odin_link_five.Verbs.Cq.{Wc, Cq, zero_wc, success, cq_post, poll_cq}
use odin_link_five.Verbs.Cq.Fifo.{waiting, IsValid, cq_post_refines, poll_cq_refines}
use odin_link_five.Verbs.Copy.{overwrite, prefix_of, wc_stream_copy, wc_stream_copy_lem}
use odin_link_five.Verbs.Sq.{
  SendWr, SendQueue, CopyStats, PostEnv, zero_entry, post_loop, read, copies, fill, grow,
  with_bounce, bounced, push, copy_in,
}
use odin_link_five.Verbs.Mr.{lookup_dmabuf}
use odin_link_five.Verbs.Sq.Fill.{IsSized, request}
use odin_link_five.Verbs.Sq.Post
use odin_link_five.Verbs.Worker.{
  SendSide, is_host, done, idle, trying, host, send_wc, Peeked, peeked, peek, post_queued,
}
use odin_link_five.Verbs.Worker.World.{
  World, Steps, stay, step, queue_up, queue_up_step, begin_round, begin_step, attempt, IsOrdered,
}
use odin_link_five.Verbs.Worker.Order.{Steps-IsOrdered}
use odin_link_five.Verbs.Worker.Logs.{IsLogged, Steps-IsLogged}
use odin_link_five.Verbs.Worker.Tries.{carried}
use odin_link_five.Verbs.Cq.Wakeup.{post_all}
use odin_link_five.Verbs.Worker.Snapshot.{attempt-snapshot}
use odin_link_five.Verbs.Worker.Overtake.{completions, post_send-overtakes}

-- A completion queue of three slots that is empty, at its last slot.
abbrev empty_cq : Cq
empty_cq = record {
  ring = zero_wc ∷ zero_wc ∷ zero_wc ∷ [];
  ring_cap = 3;
  head = 2;
  tail = 2;
  event = 0;
  armed = false;
}

abbrev wide_cq : Cq
wide_cq = record {
  ring = zero_wc ∷ zero_wc ∷ zero_wc ∷ zero_wc ∷ [];
  ring_cap = 4;
  head = 3;
  tail = 3;
  event = 0;
  armed = false;
}

empty_cq-IsValid : IsValid empty_cq
empty_cq-IsValid = record {
  room = omega arith;
  head_in = omega arith;
  tail_in = omega arith;
  storage = omega arith;
}

wide_cq-IsValid : IsValid wide_cq
wide_cq-IsValid = record {
  room = omega arith;
  head_in = omega arith;
  tail_in = omega arith;
  storage = omega arith;
}

abbrev wc_of : ℕ → Wc
wc_of n = record zero_wc { wr_id = n }

cq_post_refines_example :
    let (s, c) = cq_post (wc_of 5) empty_cq in
    (s, waiting c) ≡ Fifo.put enospc 2 (wc_of 5) (waiting empty_cq)
cq_post_refines_example = cq_post_refines empty_cq-IsValid (wc_of 5)

poll_cq_refines_example :
    ((poll_cq 4 empty_cq).0 ≡ take 4 (waiting empty_cq))
    × (waiting (poll_cq 4 empty_cq).1 ≡ drop 4 (waiting empty_cq))
    × IsValid (poll_cq 4 empty_cq).1
poll_cq_refines_example = poll_cq_refines 4 empty_cq-IsValid

wc_stream_copy_lem_example :
    let (dst, body) = wc_stream_copy 63 (1 ∷ 2 ∷ []) 2 (0 ∷ 0 ∷ 9 ∷ []) in
    ((body ≡ 0) × (dst ≡ 0 ∷ 0 ∷ 9 ∷ []))
    ⊎ ((dst ≡ overwrite 0 (1 ∷ 2 ∷ []) (0 ∷ 0 ∷ 9 ∷ []))
        × (0 < body)
        × (body % 64 ≡ 0)
        × ((63 + prefix_of 63) % 64 ≡ 0))
wc_stream_copy_lem_example = wc_stream_copy_lem 63 (1 ∷ 2 ∷ []) (0 ∷ 0 ∷ 9 ∷ [])

-- A send queue of two slots, a request of two bytes at address 8, and a memory that it is read from.
abbrev no_stats : CopyStats
no_stats = record { stream_calls = 0; stream_bytes = 0; fallback_calls = 0; fallback_bytes = 0 }

abbrev empty_queue : SendQueue
empty_queue = record {
  sq = zero_entry ∷ zero_entry ∷ [];
  sq_depth = 2;
  sq_head = 1;
  sq_tail = 1;
  sq_count = 0;
  tx_inflight = false;
  pending_sends = pos 0;
  stats = no_stats;
}

two-IsSized : (i : ℕ) → IsSized (get_or (zero_entry ∷ zero_entry ∷ []) i zero_entry)
two-IsSized zero = record { size = refl }
two-IsSized (suc zero) = record { size = refl }
two-IsSized (suc (suc i)) = record { size = refl }

empty_queue-IsValid : Post.IsValid empty_queue
empty_queue-IsValid = record {
  head_in = omega arith;
  tail_is = omega arith;
  bounded = omega arith;
  storage = omega arith;
  sized = two-IsSized;
}

abbrev env : PostEnv
env = record {
  mem = λ a. a;
  mrs = [];
  direct_send = false;
  wc_enabled = true;
  can_grow = λ n. true;
}

abbrev two_bytes : SendWr
two_bytes = record { wr_id = 4; num_sge = 1; addr = 8; length = 2; lkey = 0 }

post_loop_lem_example :
    Post.IsPosted env
      (two_bytes ∷ two_bytes ∷ two_bytes ∷ [])
      empty_queue
      (post_loop env (two_bytes ∷ two_bytes ∷ two_bytes ∷ []) empty_queue)
post_loop_lem_example =
    Post.post_loop_lem env (two_bytes ∷ two_bytes ∷ two_bytes ∷ []) empty_queue-IsValid

abbrev side : SendSide
side = record {
  queue = empty_queue;
  send_cq = some wide_cq;
  tx_stream_id = 2;
  dest_qp = 7;
  qp_num = 1;
  wire = [];
}

abbrev world : World
world = record {
  side = side;
  stage = idle;
  owed = [];
  posted = [];
  left = [];
  loads = [];
  completed = [];
}

world-IsOrdered : IsOrdered world
world-IsOrdered = record {
  valid = empty_queue-IsValid;
  order = refl;
  counted = omega arith;
  stage_ok = refl;
}

abbrev posted_world : World
posted_world = queue_up env (two_bytes ∷ []) world

world-IsLogged : IsLogged 2 7 [] (some wide_cq) world
unfolding carried post_all
world-IsLogged = record {
  source = refl;
  target = refl;
  sent = refl;
  posted_to = refl;
  each = refl;
  ids = λ t. refl;
}

Steps-IsLogged_example :
    IsOrdered (begin_round posted_world) × IsLogged 2 7 [] (some wide_cq) (begin_round posted_world)
Steps-IsLogged_example =
    Steps-IsLogged
      (step world posted_world (begin_round posted_world) (queue_up_step env (two_bytes ∷ []) world)
        (step posted_world (begin_round posted_world) (begin_round posted_world)
          (begin_step posted_world refl) (stay (begin_round posted_world))))
      world-IsOrdered world-IsLogged

abbrev trying_world : World
trying_world = begin_round posted_world

abbrev head : Peeked
head = peeked trying_world.side.queue

two_bytes-copies : copies env two_bytes ≡ true
unfolding copies lookup_dmabuf
two_bytes-copies = refl

at_head : trying_world.stage ≡ trying head
unfolding peek post_queued post_loop fill copies lookup_dmabuf grow with_bounce bounced push
at_head = refl

waits_alone : Post.waiting trying_world.side.queue ≡ request env two_bytes ∷ []
unfolding peek post_queued post_loop fill copies lookup_dmabuf grow with_bounce bounced push copy_in
    wc_stream_copy read overwrite
waits_alone = refl

no_regions : lookup_dmabuf 0 [] ≡ none
unfolding lookup_dmabuf
no_regions = refl

attempt-snapshot_example :
    (attempt (λ a. 0) [] ok head trying_world).side.wire
    ≡ record { src = 2; dst = 7; payload = host (read env.mem 8 2) } ∷ []
unfolding lookup_dmabuf peek post_queued post_loop
attempt-snapshot_example =
    attempt-snapshot env two_bytes two_bytes-copies refl (λ a. 0) [] [] head
      (Steps-IsOrdered
        (step world posted_world trying_world (queue_up_step env (two_bytes ∷ []) world) (
          step posted_world trying_world trying_world (begin_step posted_world refl)
            (stay trying_world)))
        world-IsOrdered)
      at_head waits_alone no_regions

-- The worker has freed the slot of its only request, and still owes the completion.
abbrev last_one : SendSide
last_one = record side {
  queue = record empty_queue { sq_head = 0; sq_tail = 1; sq_count = 1; tx_inflight = true };
}

abbrev last_world : World
last_world = record world { side = last_one; stage = done (wc_of 3) }

no_regions_here : is_host 0 env.mrs ≡ true
unfolding lookup_dmabuf
no_regions_here = refl

post_send-overtakes_example :
    (w' : World) × Steps last_world w'
    × (w'.left ≡ request env two_bytes ∷ [])
    × (completions w'.side
        ≡ some (waiting wide_cq ++ (send_wc 4 success 2 last_one ∷ wc_of 3 ∷ [])))
post_send-overtakes_example =
    post_send-overtakes env two_bytes (wc_of 3) last_world wide_cq refl refl refl (omega arith)
      no_regions_here refl wide_cq-IsValid (omega arith)
