-- ===== src/MboxSlave/Report/Idle.antt =====
-- The reports of the status word leave the command box alone.
use acq200_firmware.Prelude.{ℕ, refl, ◌≡◌}
use acq200_firmware.Busprot.{State}
use acq200_firmware.MboxSlave.Types.{Slave}
use acq200_firmware.MboxSlave.Report.{report_change, report_state, report_mode, report_msecs}
use acq200_firmware.MboxSlave.Idle.{Quiet, Quiet-if}

pub Quiet-report_mode :
    (mode : ℕ) (s : Slave) → Quiet s.mbox.command → Quiet (report_mode mode s).mbox.command
unfolding report_mode
Quiet-report_mode mode s p = p

Quiet-report_change :
    (state : State) (s : Slave) → Quiet s.mbox.command → Quiet (report_change state s).mbox.command
unfolding report_change
Quiet-report_change State.unknown s p = p
Quiet-report_change State.stop s p = Quiet-if _ _ _ p p
Quiet-report_change State.arm s p = Quiet-if _ _ _ p p
Quiet-report_change State.run s p = Quiet-if _ _ _ p p
Quiet-report_change State.trigger s p = Quiet-if _ _ _ p p
Quiet-report_change State.postprocess s p = Quiet-if _ _ _ p p
Quiet-report_change State.capdone s p = Quiet-if _ _ _ p p

pub Quiet-report_state :
    (state : State) (s : Slave) → Quiet s.mbox.command → Quiet (report_state state s).mbox.command
unfolding report_state
Quiet-report_state state s p = Quiet-if _ _ _ p (Quiet-report_change state s p)

pub command-report_msecs : (s : Slave) → (report_msecs s).mbox.command ≡ s.mbox.command
unfolding report_msecs
command-report_msecs s = refl
