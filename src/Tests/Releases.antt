-- ===== src/Tests/Releases.antt =====
-- The theorems on the release of a message, applied to short interleavings.
use odin_link_five.Prelude.{◌≡◌, ◌≤◌}
use odin_link_five.TxMsg.Release.{released-once, IsHeld, IsQuiet, callbacks-outlive, outlived}

released-once_example :
    ((outlived 0).frees ≤ 1) × IsHeld (outlived 0) × (IsQuiet (outlived 0) → (outlived 0).frees ≡ 1)
released-once_example = released-once (outlived 0) (callbacks-outlive 0)
