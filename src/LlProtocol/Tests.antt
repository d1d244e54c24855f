-- ===== src/LlProtocol/Tests.antt =====
-- The low latency protocol at concrete counts and flags.
use acq200_firmware.Prelude.{ℕ, ◌+◌, ◌%◌, ◌^◌, ◌≡◌, arith, List, [], ◌∷◌}
use acq200_firmware.LlProtocol.{extend32}
use acq200_firmware.LlProtocol.Clock.{extend32-count, track, track-total, total}

extend32_example : extend32 0xfffffff0 0xabc00a ≡ 0x10000000a % 2 ^ 32
extend32_example =
    extend32-count 0xfffffff0 0x10000000a 0xabc00a (omega arith) (omega arith) (omega arith)
      (omega arith)

abbrev steps : List ℕ
steps = 4000 ∷ 90 ∷ 4095 ∷ []

track_example : track (0xfffff000 % 2 ^ 32) 0xfffff000 steps ≡ (0xfffff000 + total steps) % 2 ^ 32
track_example = track-total steps 0xfffff000 (omega arith, (omega arith, (omega arith, tt)))
