-- ===== src/MboxSlave/Report.antt =====
-- _mbox_reportState, mbox_getState, mbox_reportMode and mbox_reportMsecs of
-- ARM/d-bug/mbox-slave.c, which keep the status word.
pub mod Fields
pub mod Status
pub mod Modes
pub mod Idle
use acq200_firmware.Prelude.{ℕ, ◌+◌, ◌%◌, ◌^◌, Bool, bit_and, bit_or, u32, ◌==◌, if◌then◌else◌}
use acq200_firmware.Busprot.{
  State, state_code, set_state, get_cycle, set_cycle, set_mode, set_heartbeat, clear, has,
  int_status_change,
}
use acq200_firmware.MboxSlave.Types.{Slave, Call, call, set_status}

-- The status word of a changed state.
pub new_status : State → ℕ → ℕ
new_status state status =
    let stated = bit_or (clear status (set_state 0xff)) (set_state (state_code state)) in
    elim state [
      | State.arm ↦
          let cycle = get_cycle stated in
          bit_or (clear stated (set_cycle 0xf)) (set_cycle (cycle + 1))
      | _ ↦ stated
    ]

-- What is done once the state is seen to have changed.
pub report_change : State → Slave → Slave
report_change State.unknown s = s
report_change state s =
    let s' = set_status (new_status state s.mbox.status) s in
    if has s.interrupt_ack int_status_change
    then call (Call.assert_pci_interrupt int_status_change) s'
    else s'

-- _mbox_reportState, for the state that acq200_getState returns.
pub report_state : State → Slave → Slave
report_state state s =
    if bit_and s.mbox.status (set_state 0xff) == set_state (state_code state)
    then s
    else report_change state s

pub report_mode : ℕ → Slave → Slave
report_mode mode s =
    let status = clear (clear s.mbox.status (set_mode 0x7f)) (set_cycle 0xf) in
    set_status (bit_or status (set_mode mode)) (record s { mode = mode })

pub report_msecs : Slave → Slave
report_msecs s =
    let msecs = (s.msecs + 1) % 2 ^ 32 in
    let status = clear s.mbox.status (set_heartbeat 0xffff) in
    set_status (bit_or status (set_heartbeat msecs)) (record s { msecs = msecs })
