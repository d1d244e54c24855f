-- ===== src/Channelize/Tests.antt =====
-- The dechannelizer at concrete channels and samples.
use acq200_firmware.Prelude.{ℕ, ◌+◌, ◌-◌, ◌*◌, ◌/◌, ◌<◌, ◌≤◌, ◌≡◌, arith, List, replicate}
use acq200_firmware.Channelize.{lookup_pchan, lookup_lchan}
use acq200_firmware.Channelize.Lookup.{lookup_lchan-lookup_pchan, lookup_lchan_bounds}

lookup_example : (lookup_lchan (lookup_pchan 71) ≡ 71) × (lookup_pchan (lookup_lchan 71) ≡ 71)
lookup_example = lookup_lchan-lookup_pchan 71 (omega arith)

lookup_lchan_bounds_example :
    ((71 - 1) / 32 * 32 < lookup_lchan 71) × (lookup_lchan 71 ≤ (71 - 1) / 32 * 32 + 32)
lookup_lchan_bounds_example = lookup_lchan_bounds 71 (omega arith)

-- 32 channels of two samples
abbrev output : List ℕ
output = replicate 64 0

abbrev input : List ℕ
input = replicate 64 5
