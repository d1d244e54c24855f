-- ===== src/MboxSlave/Loop/Fresh.antt =====
-- What a round of mboxSlaveOnce leaves behind.
use acq200_firmware.Prelude.{◌%◌, ◌≡◌, false}
use acq200_firmware.Busprot.{get_heartbeat}
use acq200_firmware.MboxSlave.Process.{is_new}
use acq200_firmware.MboxSlave.Incoming.{Incoming}
use acq200_firmware.MboxSlave.Loop.{Ending, ended, exits, spun}

-- No command waits, and the heartbeat shows the count of rounds.
abbrev pub FreshEnding : Ending → Type 0
FreshEnding (ended b) =
    (is_new b.slave.mbox.command ≡ false)
    × (get_heartbeat b.slave.mbox.status ≡ b.slave.msecs % 4096)
FreshEnding (exits errno) = Unit
FreshEnding spun = Unit
