-- ===== src/MboxSlave/Handlers/Mask.antt =====
-- The handlers of BP_FC_SET_MASK and BP_FC_GET_MASK.
use acq200_firmware.Prelude.{◌≡◌, refl, true}
use acq200_firmware.MboxSlave.Types.{Slave, Hal, returns, call, Call}
use acq200_firmware.MboxSlave.Handlers.{set_mask, get_mask, answer_a3}

pub set_mask_lem :
    (hal : Hal) (s : Slave)
    → set_mask hal s
      ≡ returns true (
          call
            (Call.set_channel_mask s.mbox.a3)
            (record s { channel_mask = hal.available_mask s.mbox.a3 }))
unfolding set_mask
set_mask_lem hal s = refl

pub get_mask_lem : (s : Slave) → get_mask s ≡ returns true (answer_a3 s.channel_mask s)
unfolding get_mask
get_mask_lem s = refl
