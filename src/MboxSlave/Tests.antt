-- ===== src/MboxSlave/Tests.antt =====
-- The slave at concrete states, commands and messages.
use acq200_firmware.Prelude.{
  ℕ, ◌+◌, ◌%◌, ◌^◌, ◌≡◌, ◌≢◌, refl, arith, true, false, not, ◌&&◌, [], ◌∷◌, ◌++◌, bit_or, ◌==◌,
  if◌then◌else◌,
}
use mathlib.Core.Path.{subst}
use acq200_firmware.Busprot.{
  State, state_code, get_state, get_mode, get_cycle, get_heartbeat, has, int_status_change,
  set_funcode,
}
use acq200_firmware.Busprot.Ci
use acq200_firmware.MboxSlave.Types.{
  Slave, Hal, Call, call, assert_pci_interrupt, returns, ack, nack,
}
use acq200_firmware.MboxSlave.Report.{report_state, report_msecs}
use acq200_firmware.MboxSlave.Report.Fields.{Shows}
use acq200_firmware.MboxSlave.Report.Status.{cycle_after, report_state-Shows}
use acq200_firmware.MboxSlave.Report.Modes.{report_state-calls, report_msecs_lem}
use acq200_firmware.MboxSlave.Handlers.Idle.{FitsBox}
use acq200_firmware.MboxSlave.Process.{process_mbox_command}
use acq200_firmware.MboxSlave.Process.Once.{taken, process_once}
use acq200_firmware.MboxSlave.Process.Answer.{Answered, process_answer}
use acq200_firmware.MboxSlave.Process.Capture.{capture_refuses, process_set_mask}
use acq200_firmware.MboxSlave.Incoming.{
  Message, make_id_dtacq, mt_command_packet, mtc_debug_text, Phase, Incoming,
}
use acq200_firmware.MboxSlave.Incoming.Sequence.{unexpected, poll_all, poll_all-Numbered}

-- An ACQ200 with 32 inputs, whose low half of channels is fitted.
abbrev pub board : Hal
board = record {
  state = State.arm;
  has_started = true;
  has_stopped = false;
  ai_count = 32;
  ao_count = 2;
  dio = 0x15;
  post_samples = 1024;
  pre_samples = 16;
  internal_clock = 1000000;
  func_state = 3;
  is_acq32 = false;
  is_acq16 = false;
  v_range = record { lt_1 = false; gt_5 = false; lt_2 = false; lt_2p5 = false; le_5 = true };
  available_mask = λ mask. mask % 2 ^ 16;
  after_llc = λ m. record { command = 0; a3 = m.a3; a4 = m.a4; status = 0 };
}

pub board-FitsBox : FitsBox board
board-FitsBox = record {
  ai_fits = omega arith;
  ao_fits = omega arith;
  func_fits = omega arith;
  llc_quiet = λ m. refl;
}

-- A slave with its interrupts on, in mode 2 and at cycle 15, with this command word.
abbrev pub slave_with : ℕ → Slave
slave_with word = record {
  mbox = record { command = word; a3 = 0xff00ff; a4 = 0; status = 0x0204f123 };
  interrupt_ack = 3;
  abort_received = false;
  mode = 2;
  msecs = 0xfff;
  debug = 0;
  hb_base = 0;
  hb_len = 0;
  channel_mask = 0xffff;
  calls = [];
}

abbrev idle : Slave
idle = slave_with 0

abbrev masking : Slave
masking = slave_with (bit_or (bit_or Ci.done Ci.command) (set_funcode b'K'))

abbrev aborting : Slave
aborting = slave_with (bit_or (bit_or Ci.done Ci.command) (set_funcode b'Z'))

abbrev masked : Slave
masked = ack (
    call (Call.set_channel_mask 0xff00ff)
      (record (taken masking) { channel_mask = board.available_mask 0xff00ff }))

known : State.arm ≢ State.unknown
known e = subst (λ state. elim state [ State.unknown ↦ ⊥ | _ ↦ Unit ]) e tt

report_state_example :
    Shows State.arm
      (cycle_after State.arm 0x0204f123)
      0x0204f123
      (report_state State.arm idle).mbox.status
report_state_example = report_state-Shows State.arm idle known

report_state-calls_example : (report_state State.arm idle).calls ≡ (
    if not (get_state 0x0204f123 == state_code State.arm) && has 3 int_status_change
    then [] ++ assert_pci_interrupt int_status_change ∷ []
    else [])
report_state-calls_example = report_state-calls State.arm idle known

report_msecs_example :
    let new = (report_msecs idle).mbox.status in
    (get_heartbeat new ≡ (0xfff + 1) % 4096)
    × (get_mode new ≡ get_mode 0x0204f123)
    × (get_cycle new ≡ get_cycle 0x0204f123)
    × (get_state new ≡ get_state 0x0204f123)
    × ((report_msecs idle).msecs ≡ (0xfff + 1) % 2 ^ 32)
report_msecs_example = report_msecs_lem idle

process_once_example : process_mbox_command board false masked ≡ returns false masked
process_once_example =
    process_once board board true false true masking masked board-FitsBox
      (process_set_mask board masking refl refl refl)

process_answer_example : Answered false masking (nack (taken masking))
process_answer_example =
    process_answer board false false masking (nack (taken masking)) refl
      (capture_refuses board masking refl refl refl)

capture_refuses_example :
    process_mbox_command board false masking ≡ returns false (nack (taken masking))
capture_refuses_example = capture_refuses board masking refl refl refl

-- Two lines of debug text, with the numbers 127 and 128.
abbrev text : ℕ → Message
text n = record {
  id = make_id_dtacq n;
  length = 2;
  type = bit_or mt_command_packet mtc_debug_text;
  payload = b'g' ∷ b'o' ∷ [];
}

abbrev listening : Incoming
listening = record { expected_id = 127; state = Phase.enable; itest = 0; events = [] }

poll_all_example :
    (unexpected (poll_all (text 127 ∷ text 128 ∷ []) listening).events ≡ [])
    × ((poll_all (text 127 ∷ text 128 ∷ []) listening).expected_id ≡ (127 + 2) % 128)
poll_all_example =
    poll_all-Numbered (text 127 ∷ text 128 ∷ []) 127 listening (refl, (refl, tt)) refl refl
