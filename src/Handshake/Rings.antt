-- ===== src/Handshake/Rings.antt =====
-- The rings of a device, of driver/odl_tb5_ring_dma.c, as far as driver/odl_tb5_proto.c changes them.
use odin_link_five.Prelude.{ℕ, true, false, leb, if◌then◌else◌}
use odin_link_five.Errno.{Errno, Status, ok, fail, ebusy, enomem}
use odin_link_five.Handshake.{Device}
use odin_link_five.Handshake.Depth.{ring_depth}

-- What `odl_tb5_rings_alloc` and `odl_tb5_dma_bufs_alloc` of driver/odl_tb5_ring_dma.c come to for a
-- depth: an error of the rings, rings with an output hop but an error of the buffers, or rings, their
-- output hop and the buffers.
pub data RingAlloc : Type 0 where
  refused : Errno → RingAlloc
  unbuffered : (hopid : ℕ) → Errno → RingAlloc
  given : (hopid : ℕ) → RingAlloc

-- `local_tx_hopid` when there is none: -1 as a `u32`.
abbrev pub no_hopid : ℕ
no_hopid = 4294967295

-- `odl_tb5_rings_alloc` for `requested` slots and, when it goes well, `odl_tb5_dma_bufs_alloc`, with
-- the answers they get.
unfoldable pub rings_alloc : RingAlloc → ℕ → Device → Status × Device
rings_alloc (refused e) requested d =
    (fail e, record d { ring_size = ring_depth requested; local_tx_hopid = no_hopid })
rings_alloc (unbuffered hopid e) requested d =
    (fail e, record d { ring_size = ring_depth requested; local_tx_hopid = hopid })
rings_alloc (given hopid) requested d =
    (ok, record d { ring_size = ring_depth requested; local_tx_hopid = hopid })

-- `return ret ? ret : -ENOMEM`, once the old size is asked for again.
unfoldable pub restored : Status × Device → Status × Device
restored (ok, d) = (fail enomem, d)
restored (fail e, d) = (fail e, d)

-- A failure frees what there is and asks for the old size again; each outcome of that sets the hop.
-- Rings of the old size stay when their buffers are not to be had.
unfoldable pub after_shrink : (ℕ → RingAlloc) → ℕ → Status × Device → Status × Device
unfolding restored rings_alloc
after_shrink alloc old (ok, d) = (ok, d)
after_shrink alloc old (fail e, d) = restored (rings_alloc (alloc (ring_depth old)) old d)

-- `odl_tb5_rings_resize`.
unfoldable pub rings_resize : (ℕ → RingAlloc) → ℕ → Device → Status × Device
unfolding after_shrink rings_alloc
rings_resize alloc new_size d =
    if d.started
    then (fail ebusy, d)
    else if leb d.ring_size new_size
    then (ok, d)
    else after_shrink alloc d.ring_size (rings_alloc (alloc (ring_depth new_size)) new_size d)

-- `odl_tb5_rings_start` and `odl_tb5_rings_stop`.
unfoldable pub rings_start : Device → Status × Device
rings_start d = (ok, record d { started = true })

unfoldable pub rings_stop : Device → Device
rings_stop d = record d { started = false }
