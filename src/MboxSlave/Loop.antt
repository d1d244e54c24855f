-- ===== src/MboxSlave/Loop.antt =====
-- mboxSlaveOnce of ARM/d-bug/mbox-slave.c: one round of the slave's main loop.
pub mod Fresh
use acq200_firmware.Prelude.{ℕ, Bool, true, false, Option, if◌then◌else◌}
use acq200_firmware.Busprot.{State}
use acq200_firmware.MboxSlave.Types.{Slave, Hal, Outcome, returns, spins, Call, call}
use acq200_firmware.MboxSlave.Report.{report_state, report_msecs}
use acq200_firmware.MboxSlave.Process.{process_mbox_command}
use acq200_firmware.MboxSlave.Incoming.{Message, Incoming, Phase, process_incoming}

pub record Board : Type 0 where
  pub slave : Slave
  pub incoming : Incoming

-- What select returns: an error, EINTR or another errno, a timeout, or whether the I2O file is
-- among those that are ready.
pub data Select : Type 0 where
  interrupted timeout : Select
  failed : ℕ → Select
  ready : Bool → Select

-- A round ends, calls _exit, or never ends in mboxSpin.
pub data Ending : Type 0 where
  ended : Board → Ending
  exits : ℕ → Ending
  spun : Ending

-- `long_ok` by the state: only short commands are run in ST_ARM and ST_RUN.
abbrev pub long_ok_in : State → Bool
long_ok_in State.arm = false
long_ok_in State.run = false
long_ok_in _ = true

-- The rest of a round once the command is processed.
abbrev pub after_command : Option Message → Incoming → Outcome → Ending
after_command waiting incoming spins = spun
after_command waiting incoming (returns answer s) = ended record {
  slave = call Call.service (call Call.poll_stopped (report_msecs s));
  incoming = process_incoming Phase.poll waiting incoming;
}

-- The body after the wait: mbox_getState, the command, and the incoming messages.
pub serve : Hal → Option Message → Board → Ending
serve hal waiting b =
    after_command waiting b.incoming
      (process_mbox_command hal (long_ok_in hal.state) (report_state hal.state b.slave))

-- mboxSlaveOnce: `early` is the message that waits if select reports one, `waiting` the one that
-- waits afterwards.
pub slave_once : Bool → Select → Hal → Option Message → Option Message → Board → Ending
slave_once false select hal early waiting b = serve hal waiting b
slave_once true (Select.failed errno) hal early waiting b = exits errno
slave_once true (Select.ready true) hal early waiting b =
    serve hal waiting (record b { incoming = process_incoming Phase.poll early b.incoming })
slave_once true _ hal early waiting b = serve hal waiting b
