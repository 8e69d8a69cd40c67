-- ===== src/Link.antt =====
-- A message over the cable: the frames that the send path of driver/odl_tb5_ring_dma.c puts on the
-- ring, as they complete at the peer's receive callback.
pub mod Streams
pub mod Delivery
use odin_link_five.Prelude.{
  ℕ, zero, suc, ◌+◌, ◌*◌, ◌-◌, ◌≤◌, ◌<◌, ◌≡◌, ◌≢◌, refl, ap, sym, ◌∙◌, Bool, true, false, List, [],
  ◌∷◌, ◌++◌, Option, none, some, length, length-append, arith,
}
use odin_link_five.Wire.{stream_payload_max}
use odin_link_five.Stream.{Stream, rx_fragments}
use odin_link_five.Stream.Assembly.{generous}
use odin_link_five.Receive.{Device, Completion, rx_callback}

-- The completions of a list of frames, in order. Memory is served, and the ring's answers to the
-- reposts are a parameter.
unfoldable pub run_callbacks : (ℕ → Bool) → List Completion → Device → Device
run_callbacks accepts [] d = d
run_callbacks accepts (c ∷ cs) d = run_callbacks accepts cs (rx_callback accepts generous c d).1

-- The completion `c` brings the frame `f`: its bytes, with stale ones behind them, and no error.
pub record Brings (f : List ℕ) (c : Completion) : Type 0 where
  pub stale : List ℕ
  pub bytes : c.virt ≡ f ++ stale
  pub size : c.size ≡ length f
  pub kept : c.canceled ≡ false
  pub sound : c.crc_error ≡ false
  pub fits : c.overrun ≡ false

abbrev pub BringsAll : List (List ℕ) → List Completion → Type 0
BringsAll [] [] = Unit {0}
BringsAll [] (c ∷ cs) = ⊥
BringsAll (f ∷ fs) [] = ⊥
BringsAll (f ∷ fs) (c ∷ cs) = Brings f c × BringsAll fs cs
