-- ===== src/MaskIterator/Tests.antt =====
-- The iterator and the counts at concrete masks.
use acq200_firmware.Prelude.{◌^◌, ◌≡◌, ◌≢◌, arith, some, map}
use acq200_firmware.MaskIterator.{ints_disable, ints_enable, disable_irq_nosync, enable_irq}
use acq200_firmware.MaskIterator.Scan.{bits_below}
use acq200_firmware.MaskIterator.Laws.{ints_disable-enable}

not_top : 0x80001005 ≢ 2 ^ 31
not_top e = absurd (omega (arith, e))

ints_disable-enable_example :
    (ints_disable 0x80001005
      ≡ some (map (λ i. disable_irq_nosync (some i)) (bits_below 0x80001005 32)))
    × (ints_enable 0x80001005 ≡ some (map (λ i. enable_irq (some i)) (bits_below 0x80001005 32)))
ints_disable-enable_example = ints_disable-enable 0x80001005 (omega arith) not_top
