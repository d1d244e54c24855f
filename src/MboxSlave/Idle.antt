-- ===== src/MboxSlave/Idle.antt =====
-- Command boxes in which no command or query waits, and the ways that the handlers of
-- ARM/d-bug/mbox-slave.c write to the command box without one appearing.
use acq200_firmware.Prelude.{ℕ, ◌≡◌, ◌∙◌, Bool, true, false, bit_or, bit_and, if◌then◌else◌}
use acq200_firmware.Busprot.Fields.{field}
use acq200_firmware.Busprot.Masking.{field_kept, field_beside}
use acq200_firmware.MboxSlave.Types.{Slave, Outcome, returns, spins}

-- Neither BP_CI_COMMAND nor BP_CI_QUERY is set.
abbrev pub Quiet : ℕ → Type 0
Quiet command = field 28 2 command ≡ 0

abbrev pub Idle : Outcome → Type 0
Idle (returns b s) = Quiet s.mbox.command
Idle spins = Unit

pub Quiet-bit_or : (x y : ℕ) → Quiet x → Quiet y → Quiet (bit_or x y)
Quiet-bit_or x y p q = field_beside 28 2 x y q ∙ p

pub Quiet-bit_and : (x m : ℕ) → field 28 2 m ≡ 3 → Quiet x → Quiet (bit_and x m)
Quiet-bit_and x m e p = field_kept 28 2 x m e ∙ p

pub Idle-if : (b : Bool) (x y : Outcome) → Idle x → Idle y → Idle (if b then x else y)
Idle-if true x y p q = p
Idle-if false x y p q = q

-- The same for a state that one of two ways leads to.
pub Quiet-if :
    (b : Bool) (x y : Slave)
    → Quiet x.mbox.command
    → Quiet y.mbox.command
    → Quiet (if b then x else y).mbox.command
Quiet-if true x y p q = p
Quiet-if false x y p q = q
