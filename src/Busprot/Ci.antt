-- ===== src/Busprot/Ci.antt =====
-- The flag bits of a command word: BP_CI_* of include/acq32busprot.h.
use acq200_firmware.Prelude.{ℕ}

abbrev pub ack : ℕ
ack = 0x80000000

abbrev pub done : ℕ
done = 0x40000000

abbrev pub command : ℕ
command = 0x20000000

abbrev pub query : ℕ
query = 0x10000000

abbrev pub a3 : ℕ
a3 = 0x08000000

abbrev pub a4 : ℕ
a4 = 0x04000000
