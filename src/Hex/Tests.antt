-- ===== src/Hex/Tests.antt =====
-- Words printed and read back.
use acq200_firmware.Prelude.{◌≡◌, arith}
use acq200_firmware.Hex.{abtoi, itoba}
use acq200_firmware.Hex.Binary.{abtoi-itoba}

abtoi-itoba_example : abtoi (itoba 0xdeadbeef) ≡ 0xdeadbeef
abtoi-itoba_example = abtoi-itoba 0xdeadbeef (omega arith)
