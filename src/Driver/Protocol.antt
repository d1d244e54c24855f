-- ===== src/Driver/Protocol.antt =====
-- The driver of dt100/Linux/Drivers/acq32_core.c against the slave of ARM/d-bug/mbox-slave.c: the
-- slave looks at its mailboxes between two polls of the driver.
pub mod Mask
use acq200_firmware.Prelude.{
  ℕ, zero, suc, ◌+◌, ◌*◌, ◌/◌, ◌%◌, ◌^◌, ◌≡◌, sym, ap, ap₂, Bool, false, Option, bit_and_pow,
  bit_and-mod, ◌!=◌,
}
use acq200_firmware.Busprot.{has}
use acq200_firmware.Busprot.Ci
use acq200_firmware.Busprot.Fields.{field}
use acq200_firmware.MboxSlave.Types.{
  Slave, Hal, Outcome, returns, spins, set_command, set_a3_box, set_a4_box, set_status,
}
use acq200_firmware.MboxSlave.Process.{process_mbox_command}
use acq200_firmware.Driver.Bus.{Box, Bus, Error}

abbrev pub after : Outcome → Slave → Slave
after (returns answer t) s = t
after spins s = s

abbrev pub read_box : Box → Slave → ℕ
read_box Box.command s = s.mbox.command
read_box Box.a3 s = s.mbox.a3
read_box Box.a4 s = s.mbox.a4
read_box Box.status s = s.mbox.status

abbrev write_box : Box → ℕ → Slave → Slave
write_box Box.command w s = set_command w s
write_box Box.a3 w s = set_a3_box w s
write_box Box.a4 w s = set_a4_box w s
write_box Box.status w s = set_status w s

-- The slave as the driver's bus.
pub slave_bus : Hal → Bool → Bus Slave
slave_bus hal long_ok = record {
  get_mailbox = λ box s.
      let served = after (process_mbox_command hal long_ok s) s in (read_box box served, served);
  set_mailbox = write_box;
  wait_int = λ s. (false, s);
}

pub has_ack_lem : (c : ℕ) → has c Ci.ack ≡ (field 31 1 c * 2 ^ 31 != 0)
has_ack_lem c = ap (λ w. w != 0) (bit_and_pow 31 c)

module _ (hal : Hal) (long_ok : Bool) where
  pub served_box :
      (answer : Bool) (s t : Slave)
      → process_mbox_command hal long_ok s ≡ returns answer t
      → (slave_bus hal long_ok).get_mailbox Box.command s ≡ (t.mbox.command, t)
  unfolding slave_bus
  served_box answer s t e = ap (λ o. ((after o s).mbox.command, after o s)) e
