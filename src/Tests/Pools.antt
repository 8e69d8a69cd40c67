-- ===== src/Tests/Pools.antt =====
-- The theorems on the frame pool, applied to small pools.
use odin_link_five.Prelude.{◌≡◌, refl, true, some}
use odin_link_five.FramePool.{FramePool, get, get_batch}
use odin_link_five.FramePool.Balance.{IsBalanced, is_taken, new-IsBalanced, take_slot-IsBalanced}
use odin_link_five.FramePool.{take_slot, find_first_zero_bit}
use odin_link_five.FramePool.Batch.{Batches, get_batch-Batches}
use odin_link_five.Tests.{pool_of}

-- Slot 1 of three is taken.
abbrev one_taken : FramePool
one_taken = take_slot (pool_of 3) 1

one_taken-IsBalanced : IsBalanced one_taken
one_taken-IsBalanced = (take_slot-IsBalanced (pool_of 3) 1 refl (new-IsBalanced 3)).0

one_taken-taken : is_taken one_taken 1 ≡ true
unfolding take_slot
one_taken-taken = refl

get_first : get (pool_of 3) ≡ (some 0, take_slot (pool_of 3) 0)
unfolding get find_first_zero_bit
get_first = refl

get_batch-Batches_example :
    Batches (pool_of 300) 2 0 (get_batch (pool_of 300) 2).0 (get_batch (pool_of 300) 2).1
get_batch-Batches_example = get_batch-Batches (pool_of 300) 2 (new-IsBalanced 300)
