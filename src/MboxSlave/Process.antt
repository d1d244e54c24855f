-- ===== src/MboxSlave/Process.antt =====
-- The dispatchers of ARM/d-bug/mbox-slave.c: processShortCommand, processCommand,
-- processShortQuery, processLongQuery, processMboxCommand and mbox_abort.
pub mod Idle
pub mod Unchanged
pub mod Once
pub mod Answer
pub mod Capture
use acq200_firmware.Prelude.{
  ℕ, Bool, true, false, ◌&&◌, bit_and, bit_or, bit_not, ◌==◌, ◌!=◌, if◌then◌else◌,
}
use acq200_firmware.Busprot.{get_funcode, get_a1, clear, has, State}
use acq200_firmware.Busprot.Ci
use acq200_firmware.MboxSlave.Types.{
  Slave, Hal, Outcome, returns, spins, Call, call, set_command, ack, nack,
}
use acq200_firmware.MboxSlave.Handlers

abbrev accepted : Slave → Outcome
accepted s = returns true s

abbrev refused : Slave → Outcome
refused s = returns false s

-- Commands acceptable during capture.
pub short_command : Hal → ℕ → Slave → Outcome
short_command hal command s =
    let fc = get_funcode command in
    if fc == b'I'
    then accepted (record s { interrupt_ack = get_a1 s.mbox.command })
    else if fc == b'd'
    then accepted (call (Call.set_dio s.mbox.a3 s.mbox.a4) s)
    else if fc == b'Z'
    then accepted (record (call Call.set_abort s) { abort_received = true })
    else if fc == b'S'
    then accepted s
    else if fc == b'b'
    then Handlers.set_debug s
    else refused s

pub long_command : Hal → ℕ → Slave → Outcome
long_command hal command s =
    let fc = get_funcode command in
    if fc == b'M'
    then Handlers.set_mode s
    else if fc == b'G'
    then Handlers.set_mode_gated_continuous s
    else if fc == b'H'
    then Handlers.set_mode_triggered_continuous s
    else if fc == b'L'
    then Handlers.set_mode_low_latency_control hal s
    else if fc == b'A'
    then Handlers.set_arm hal s
    else if fc == b'Z'
    then Handlers.set_abort hal s
    else if fc == b'K'
    then Handlers.set_mask hal s
    else if fc == b'I'
    then accepted (record s { interrupt_ack = get_a1 s.mbox.command })
    else if fc == b'i'
    then Handlers.set_internal_clock s
    else if fc == b'e'
    then Handlers.set_external_clock s
    else if fc == b'T'
    then accepted s
    else if fc == b'B'
    then Handlers.set_host_dmabuf s
    else if fc == b'S'
    then accepted s
    else if fc == b'Y'
    then spins
    else if fc == b'U'
    then accepted s
    else if fc == b't'
    then Handlers.set_data_threshold hal s
    else if fc == b'y'
    then Handlers.cpci_set_route s
    else if fc == b'u'
    then Handlers.set_user s
    else if fc == b'b'
    then Handlers.set_debug s
    else if fc == 0x80
    then accepted s
    else refused s

pub short_query : Hal → ℕ → Slave → Outcome
short_query hal command s =
    let fc = get_funcode command in
    if fc == b'N'
    then Handlers.get_num_samples hal s
    else if fc == b'K'
    then Handlers.get_mask s
    else if fc == b'd'
    then Handlers.get_dio hal s
    else if fc == b'i'
    then Handlers.get_internal_clock hal s
    else if fc == b'e'
    then accepted s
    else if fc == b'y'
    then Handlers.cpci_get_route_status hal s
    else if fc == b'u'
    then accepted s
    else if fc == b'n'
    then Handlers.get_n_channels hal s
    else if fc == b'm'
    then Handlers.get_range hal s
    else refused s

pub long_query : ℕ → Slave → Outcome
long_query command s =
    let fc = get_funcode command in
    if fc == b'R'
    then Handlers.get_fwrev s
    else if fc == b'V'
    then Handlers.get_config s
    else if fc == b'W'
    then Handlers.get_cal_info s
    else if fc == b'E'
    then Handlers.get_capture_stats s
    else refused s

-- `first || (long_ok && second)`
abbrev or_long : Outcome → Bool → (Slave → Outcome) → Outcome
or_long (returns true s) long_ok second = returns true s
or_long (returns false s) true second = second s
or_long (returns false s) false second = returns false s
or_long spins long_ok second = spins

-- ack() on success, and nack() otherwise.
abbrev settle : Outcome → Outcome
settle (returns true s) = returns true (ack s)
settle (returns false s) = returns false (nack s)
settle spins = spins

abbrev pub newcommand : ℕ
newcommand = bit_or Ci.query Ci.command

abbrev pub is_new : ℕ → Bool
is_new command = (bit_and command Ci.ack == 0) && has command newcommand

-- What is done with a command word once its BP_NEWCOMMAND bits are cleared.
pub run_command : Hal → Bool → Bool → ℕ → Slave → Outcome
run_command hal long_ok is_command command s =
    if is_command
    then or_long (short_command hal command s) long_ok (long_command hal command)
    else or_long (short_query hal command s) long_ok (long_query command)

-- processMboxCommand; it returns whether a command or query was accepted.
pub process_mbox_command : Hal → Bool → Slave → Outcome
process_mbox_command hal long_ok s =
    let command = clear s.mbox.command newcommand in
    if is_new s.mbox.command
    then settle
        (run_command hal long_ok (has s.mbox.command Ci.command) command (set_command command s))
    else returns false s

-- mbox_abort: the same for short commands; its result is `abort_received` of the state.
pub mbox_abort : Hal → Slave → Outcome
mbox_abort hal s = process_mbox_command hal false s
