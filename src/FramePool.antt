-- ===== src/FramePool.antt =====
-- The DMA frame pool of driver/odl_tb5_ring_dma.c: a bitmap of slots, a count of the free ones, and
-- what is written beside each slot. The pool is shared by the senders and by the receive ring.
-- Each function runs under the pool's lock, so it is one step.
pub mod Balance
pub mod Batch
use odin_link_five.Prelude.{
  ℕ, zero, suc, ◌+◌, ◌-◌, Bool, true, false, ◌&&◌, ltb, List, [], ◌∷◌, ◌++◌, Option, none, some,
  if◌then◌else◌, set, get_or, replicate,
}

abbrev pub frame_pool_size : ℕ
frame_pool_size = 4096

abbrev pub tx_pool_reserve : ℕ
tx_pool_reserve = 256

-- `in_use` and `tx_msg` of `struct odl_tb5_frame_slot`; a message is named by a number.
pub record Slot : Type 0 where
  pub in_use : Bool
  pub tx_msg : Option ℕ

pub record FramePool : Type 0 where
  pub bitmap : List Bool
  pub slots : List Slot
  pub size : ℕ
  pub free_count : ℕ

abbrev pub free_slot : Slot
free_slot = record { in_use = false; tx_msg = none }

abbrev pub taken_slot : Slot
taken_slot = record { in_use = true; tx_msg = none }

-- What `odl_tb5_frame_pool_alloc` leaves, if no allocation fails.
unfoldable pub fresh : FramePool
fresh = record {
  bitmap = replicate frame_pool_size false;
  slots = replicate frame_pool_size free_slot;
  size = frame_pool_size;
  free_count = frame_pool_size;
}

-- The number of the first clear bit, or the length of the bitmap.
unfoldable pub find_first_zero_bit : List Bool → ℕ
find_first_zero_bit [] = 0
find_first_zero_bit (false ∷ b) = 0
find_first_zero_bit (true ∷ b) = suc (find_first_zero_bit b)

-- The same from a bit on.
unfoldable pub find_next_zero_bit : List Bool → ℕ → ℕ
unfolding find_first_zero_bit
find_next_zero_bit b zero = find_first_zero_bit b
find_next_zero_bit [] (suc from) = 0
find_next_zero_bit (x ∷ b) (suc from) = suc (find_next_zero_bit b from)

unfoldable pub take_slot : FramePool → ℕ → FramePool
take_slot p idx = record p {
  bitmap = set p.bitmap idx true;
  slots = set p.slots idx taken_slot;
  free_count = p.free_count - 1;
}

unfoldable pub get : FramePool → Option ℕ × FramePool
unfolding take_slot
get p =
    let idx = find_first_zero_bit p.bitmap in
    if ltb idx p.size then (some idx, take_slot p idx) else (none, p)

unfoldable pub put : FramePool → ℕ → FramePool
put p idx = record p {
  bitmap = set p.bitmap idx false;
  slots = set p.slots idx free_slot;
  free_count = p.free_count + 1;
}

-- The loop of `odl_tb5_frame_pool_get_batch`, with the rounds still asked for and the search
-- position.
unfoldable pub get_batch_from : ℕ → ℕ → FramePool → List ℕ × FramePool
get_batch_from zero from p = ([], p)
get_batch_from (suc n) from p =
    let idx = find_next_zero_bit p.bitmap from in
    let rest = get_batch_from n (suc idx) (take_slot p idx) in
    if ltb tx_pool_reserve p.free_count && ltb idx p.size then (idx ∷ rest.0, rest.1) else ([], p)

unfoldable pub get_batch : FramePool → ℕ → List ℕ × FramePool
unfolding get_batch_from
get_batch p requested = get_batch_from requested 0 p
