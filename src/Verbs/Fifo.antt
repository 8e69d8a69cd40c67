-- ===== src/Verbs/Fifo.antt =====
-- What the queues of verbs/src promise: a bounded queue, oldest first.
use odin_link_five.Prelude.{ℕ, List, [], ◌∷◌, ◌++◌, if◌then◌else◌, ltb, length, take, drop}
use odin_link_five.Errno.{Errno, Status, ok, fail}

module _ {ℓ} {A : Type ℓ} where
  -- One more item at the end, or the error when `bound` items wait.
  unfoldable pub put : Errno → ℕ → A → List A → Status × List A
  put full bound x q = if ltb (length q) bound then (ok, q ++ (x ∷ [])) else (fail full, q)

  -- The first `n` items, or all when there are fewer.
  unfoldable pub take_up_to : ℕ → List A → List A × List A
  take_up_to n q = (take n q, drop n q)
