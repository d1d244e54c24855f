-- ===== src/Channelize/Layout.antt =====
-- Where channelize of channelize.196.c puts each sample.
use acq200_firmware.Prelude.{ℕ, ◌+◌, ◌-◌, ◌*◌, List, get_or}
use acq200_firmware.Channelize.{lookup_lchan}

-- The channel (from 1) that a pass writes for one sample.
abbrev cell : ℕ → ℕ → ℕ → ℕ
cell channel nsamples isample = (channel - 1) * nsamples + isample

abbrev source : List ℕ → ℕ → ℕ → ℕ
source input base channel = get_or input (base + (lookup_lchan channel - 1)) 0
