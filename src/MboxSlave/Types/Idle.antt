-- ===== src/MboxSlave/Types/Idle.antt =====
-- ack and nack leave no command waiting.
use acq200_firmware.Prelude.{◌≡◌, refl, Bool, true, false, bit_or, if◌then◌else◌}
use acq200_firmware.Busprot.{has, int_command_ack}
use acq200_firmware.Busprot.Ci
use acq200_firmware.MboxSlave.Types.{Slave, Call, call, set_command, interrupt, ack, nack}
use acq200_firmware.MboxSlave.Idle.{Quiet, Quiet-bit_or, Quiet-if}

pub Quiet-interrupt : (s : Slave) → Quiet s.mbox.command → Quiet (interrupt s).mbox.command
unfolding interrupt
Quiet-interrupt s p =
    Quiet-if (has s.interrupt_ack int_command_ack)
      (call (Call.assert_pci_interrupt int_command_ack) s) s p p

pub Quiet-ack : (s : Slave) → Quiet s.mbox.command → Quiet (ack s).mbox.command
unfolding ack
Quiet-ack s p = Quiet-interrupt _ (Quiet-bit_or s.mbox.command Ci.ack p refl)

pub Quiet-nack : (s : Slave) → Quiet s.mbox.command → Quiet (nack s).mbox.command
unfolding nack
Quiet-nack s p = Quiet-interrupt s p

mbox-interrupt : (s : Slave) → (interrupt s).mbox ≡ s.mbox
unfolding interrupt
mbox-interrupt s = either_way (has s.interrupt_ack int_command_ack)
  where
    either_way :
        (b : Bool)
        → (if b then call (Call.assert_pci_interrupt int_command_ack) s else s).mbox ≡ s.mbox
    either_way true = refl
    either_way false = refl

-- ack sets BP_CI_ACK and leaves the other mailboxes and bits alone.
pub mbox-ack : (s : Slave) → (ack s).mbox ≡ (set_command (bit_or s.mbox.command Ci.ack) s).mbox
unfolding ack
mbox-ack s = mbox-interrupt (set_command (bit_or s.mbox.command Ci.ack) s)

pub mbox-nack : (s : Slave) → (nack s).mbox ≡ s.mbox
unfolding nack
mbox-nack s = mbox-interrupt s

-- ack keeps the channel mask.
pub channel_mask-ack : (s : Slave) → (ack s).channel_mask ≡ s.channel_mask
unfolding ack interrupt
channel_mask-ack s = either_way (has s.interrupt_ack int_command_ack) _
  where
    either_way :
        (b : Bool) (t : Slave)
        → (if b then call (Call.assert_pci_interrupt int_command_ack) t else t).channel_mask
          ≡ t.channel_mask
    either_way true t = refl
    either_way false t = refl
