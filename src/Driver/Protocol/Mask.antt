-- ===== src/Driver/Protocol/Mask.antt =====
-- acq32_devSetChannelMask of acq32_core.c against the slave of mbox-slave.c.
use acq200_firmware.Prelude.{
  ℕ, ◌+◌, ◌^◌, ◌*◌, ◌≡◌, refl, ap, ◌∙◌, true, false, Option, none, some, [], ◌∷◌, bit_or, ◌!=◌,
}
use acq200_firmware.Busprot.{set_funcode}
use acq200_firmware.Busprot.Ci
use acq200_firmware.MboxSlave.Types.{
  Slave, Hal, Call, call, returns, set_command, set_a3_box, set_a4_box, ack,
}
use acq200_firmware.MboxSlave.Types.Idle.{mbox-ack, channel_mask-ack}
use acq200_firmware.MboxSlave.Handlers.{answer_a3}
use acq200_firmware.MboxSlave.Handlers.Idle.{FitsBox}
use acq200_firmware.MboxSlave.Process.{is_new, process_mbox_command}
use acq200_firmware.MboxSlave.Process.Once.{taken, process_once}
use acq200_firmware.MboxSlave.Process.Answer.{process_answer}
use acq200_firmware.MboxSlave.Process.Capture.{process_set_mask, process_get_mask}
use acq200_firmware.Driver.Bus.{Box, Device, Error}
use acq200_firmware.Driver.Send.{
  Response, a3_only, max_timeout, poll_ack, command_word, send_command_a3_a4, send_query,
}
use acq200_firmware.Driver.Send.Polls.{poll_ack_seen, send_args_lem, send_query_a3}
use acq200_firmware.Driver.Commands.{dev_set_channel_mask}
use acq200_firmware.Driver.Commands.Mask.{dev_set_channel_mask_lem}
use acq200_firmware.Driver.Protocol.{slave_bus, served_box, has_ack_lem, read_box, after}

-- The driver's polls of a slave that accepts what waits.
polled_accepted :
    (hal : Hal) (s t : Slave)
    → is_new s.mbox.command ≡ true
    → process_mbox_command hal true s ≡ returns true t
    → poll_ack (slave_bus hal true) max_timeout s ≡ (none, t)
polled_accepted hal s t new e =
    poll_ack_seen (slave_bus hal true) 0xfffff s t.mbox.command t (served_box hal true true s t e) (
      has_ack_lem t.mbox.command
      ∙ ap (λ b. b * 2 ^ 31 != 0) (process_answer hal true true s t new e))

-- A query's result for the a3 and the slave that a read gives.
abbrev told : ℕ × Slave → Option Error × Response × Slave
told (a3, s) = (none, record { a1 = none; a2 = none; a3 = some a3; a4 = none }, s)

module _ (hal : Hal) (fits : FitsBox hal) (mask boost : ℕ) (s : Slave) where
  -- The slave with the command, and the slave that has set the mask.
  abbrev commanded : Slave
  commanded =
      set_command
        (command_word (slave_bus hal true) (bit_or (bit_or (set_funcode b'K' + b'R') Ci.a3) Ci.done)
          (some mask) (some boost))
        (set_a3_box mask (set_a4_box boost s))

  abbrev masked : Slave
  masked = ack (
      call (Call.set_channel_mask mask)
        (record (taken commanded) { channel_mask = hal.available_mask mask }))

  -- The slave with the query, and the slave that has answered it.
  abbrev queried : Slave
  queried = set_command (bit_or (set_funcode b'K') Ci.query) masked

  abbrev answered : Slave
  answered = ack (answer_a3 masked.channel_mask (taken queried))

  accepts_mask : process_mbox_command hal true commanded ≡ returns true masked
  accepts_mask = process_set_mask hal commanded refl refl refl

  answers_mask : process_mbox_command hal true queried ≡ returns true answered
  answers_mask = process_get_mask hal true queried refl refl refl

  answered_a3 : answered.mbox.a3 ≡ hal.available_mask mask
  answered_a3 =
      ap (λ m. m.a3) (mbox-ack (answer_a3 masked.channel_mask (taken queried))) ∙ channel_mask-ack _

  reads_a3 : (slave_bus hal true).get_mailbox Box.a3 answered ≡ (hal.available_mask mask, answered)
  unfolding slave_bus
  reads_a3 =
      ap (λ o. (read_box Box.a3 (after o answered), after o answered))
        (process_once hal hal true true true queried answered fits answers_mask)
      ∙ ap (λ m. (m, answered)) answered_a3

  sends :
      send_command_a3_a4
        (slave_bus hal true)
        false
        (set_funcode b'K' + b'R')
        ((mask, some boost) ∷ [])
        s
      ≡ (none, masked)
  unfolding slave_bus
  sends =
      send_args_lem (slave_bus hal true) (set_funcode b'K' + b'R') mask boost s
      ∙ polled_accepted hal commanded masked refl accepts_mask

  asks : send_query (slave_bus hal true) false (set_funcode b'K') a3_only masked ≡ (
    none,
    record { a1 = none; a2 = none; a3 = some (hal.available_mask mask); a4 = none },
    answered,
  )
  unfolding slave_bus
  asks =
      send_query_a3 (slave_bus hal true) (set_funcode b'K') masked answered
        (polled_accepted hal queried answered refl answers_mask)
      ∙ ap told reads_a3

-- A driver that asks a board which is not capturing for any channel mask, with any boost, gets a
-- success; the mask that it then records is the one that the board's hardware has for the mask
-- asked for, and is the slave's own. The driver polls without interrupts, and the slave looks at
-- its mailboxes before each read.
pub set_channel_mask-process :
    (hal : Hal) (mask boost : ℕ) (d : Device Slave)
    → FitsBox hal
    → d.use_interrupts ≡ false
    → let result = dev_set_channel_mask (slave_bus hal true) mask boost d in
      (result.0 ≡ none)
      × (result.1.channel_mask ≡ hal.available_mask mask)
      × (result.1.link.channel_mask ≡ hal.available_mask mask)
set_channel_mask-process hal mask boost d fits polls =
    let done =
      dev_set_channel_mask_lem (slave_bus hal true) mask boost (hal.available_mask mask) d
        (masked hal fits mask boost d.link) (answered hal fits mask boost d.link) polls
        (sends hal fits mask boost d.link) (asks hal fits mask boost d.link) in
    (
      ap (λ r. r.0) done,
      ap (λ r. r.1.channel_mask) done,
      ap (λ r. r.1.link.channel_mask) done ∙ channel_mask-ack _ ∙ channel_mask-ack _,
    )
