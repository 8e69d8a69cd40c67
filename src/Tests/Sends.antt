-- ===== src/Tests/Sends.antt =====
-- The theorems on the send path, applied to a message of three bytes.
use odin_link_five.Prelude.{◌≡◌, refl, false, [], some, arith, inl}
use odin_link_five.Errno.{ok}
use odin_link_five.Send.{Round, Sending, send_loop}
use odin_link_five.Send.Prefix.{Progress, Outcome, send_loop-Outcome}
use odin_link_five.Send.Total.{IsCalm, send_loop-ok}
use odin_link_five.FramePool.{FramePool}
use odin_link_five.FramePool.Balance.{IsBalanced, new-IsBalanced}
use odin_link_five.Tests.{pool_of, short_call}

abbrev small_pool : FramePool
small_pool = pool_of 300

-- A round in which nothing else happens to the pool but that others put back what they took.
abbrev calm : Round
calm = record {
  during = λ p. small_pool;
  completed = 0;
  signalled = false;
  between = λ p. p;
  copy_fault = false;
  ring_refuses = false;
}

abbrev begun : Sending
begun = record { pool = small_pool; frames_pending = 0; sent = 0; frag_idx = 0; ring = [] }

calm-IsCalm : IsCalm calm
calm-IsCalm = record {
  balanced = λ p v. new-IsBalanced 300;
  room = λ p v. omega arith;
  left = λ p v. omega arith;
  readable = refl;
  accepted = refl;
}

abbrev EndsOk : Type 0
EndsOk =
    (t : Sending) × ((send_loop 2 (λ n. calm) 0 short_call begun ≡ some (ok, t))
      × IsBalanced t.pool)

send_loop-ok_example : EndsOk
send_loop-ok_example =
    send_loop-ok 1 2 (λ n. calm) 0 short_call begun (λ j. calm-IsCalm) (new-IsBalanced 300)
      (omega arith) (omega arith)

begun-Progress : Progress [] short_call begun
begun-Progress = record { bounded = omega arith; aligned = inl refl; frames = refl }

send_loop-Outcome_example : Outcome [] short_call ok send_loop-ok_example.0.ring
send_loop-Outcome_example =
    send_loop-Outcome [] 2 (λ n. calm) 0 short_call begun ok send_loop-ok_example.0 (omega arith)
      begun-Progress send_loop-ok_example.1.0
