-- ===== src/Busprot/Mode.antt =====
-- `enum MODE` of dt100/include/dt100api.h.
use acq200_firmware.Prelude.{ℕ}

abbrev pub gated_transient : ℕ
gated_transient = 0

abbrev pub gated_continuous : ℕ
gated_continuous = 1

abbrev pub soft_transient : ℕ
soft_transient = 2

abbrev pub triggered_continuous : ℕ
triggered_continuous = 4
