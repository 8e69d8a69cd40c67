-- ===== src/Registry.antt =====
-- The streams of a device: `odl_tb5_stream_create` and `odl_tb5_stream_destroy` of
-- driver/odl_tb5_ring_dma.c. The kernel's `ida_alloc_range` is a parameter.
pub mod Ids
use odin_link_five.Prelude.{
  ℕ, ◌/◌, Bool, true, false, List, [], ◌∷◌, Option, none, some, if◌then◌else◌, ◌&&◌, ltb, ◌==◌,
}
use odin_link_five.Errno.{Errno, enomem, enospc}
use odin_link_five.Stream.{Stream}
use odin_link_five.Receive.{Device, rx_repost}

-- What `ida_alloc_range` answers for the ids in use and a range: an id, or an error.
pub data IdAnswer : Type 0 where
  no_id : Errno → IdAnswer
  id : ℕ → IdAnswer

abbrev pub Ida : Type 0
Ida = List ℕ → ℕ → ℕ → IdAnswer

-- The device, and the ids that its `stream_ida` has handed out.
pub record Registry : Type 0 where
  pub device : Device
  pub ids : List ℕ

-- What `odl_tb5_stream_create` sets up.
abbrev pub new_stream : ℕ → Stream
new_stream n = record {
  id = n;
  rx_queue = [];
  rx_queue_len = 0;
  rx_queue_max = 65536;
  rx_complete = 0;
  rx_asm_buf = none;
  rx_asm_len = 0;
  rx_asm_cap = 0;
  rx_asm_src_id = 0;
  rx_asm_next_frag = 0;
  rx_asm_bad = false;
  rx_frag_drops = 0;
  dying = false;
}

-- "Start RX repost on first stream open". `has_pool` says that the frame pool is allocated.
unfoldable pub start_repost : Bool → (ℕ → Bool) → Device → Device
unfolding rx_repost
start_repost has_pool accepts d =
    if d.rx_target == 0 && has_pool
    then (rx_repost accepts (record d { rx_target = d.pool.size / 2 })).1
    else d

-- From the answer on.
unfoldable pub create_with : Bool → (ℕ → Bool) → IdAnswer → Registry → Option Errno × Registry
unfolding start_repost
create_with has_pool accepts (no_id e) r = (some e, r)
create_with has_pool accepts (id n) r = (
  none,
  record {
    device =
        start_repost has_pool accepts
          (record r.device { streams = new_stream n ∷ r.device.streams });
    ids = n ∷ r.ids;
  },
)

-- `odl_tb5_stream_create` for the id that the caller wants, or for any if it is 0. `served` says that
-- memory for the stream can be had.
unfoldable pub stream_create :
    Bool → Bool → (ℕ → Bool) → Ida → ℕ → Registry → Option Errno × Registry
unfolding create_with
stream_create served has_pool accepts ida filter_id r =
    if served
    then create_with has_pool accepts
        (if filter_id == 0 then ida r.ids 20 255 else ida r.ids filter_id filter_id) r
    else (some enomem, r)

unfoldable pub remove_stream : ℕ → List Stream → List Stream
remove_stream n [] = []
remove_stream n (s ∷ ss) = let rest = remove_stream n ss in if s.id == n then ss else s ∷ rest

unfoldable pub remove_id : ℕ → List ℕ → List ℕ
remove_id n [] = []
remove_id n (i ∷ is) = let rest = remove_id n is in if i == n then is else i ∷ rest

-- `odl_tb5_stream_destroy` of the stream with id `n`: no lookup finds it from here on.
unfoldable pub stream_destroy : ℕ → Registry → Registry
unfolding remove_stream remove_id
stream_destroy n r = record {
  device = record r.device { streams = remove_stream n r.device.streams };
  ids = remove_id n r.ids;
}
