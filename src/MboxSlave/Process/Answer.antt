-- ===== src/MboxSlave/Process/Answer.antt =====
-- What the host can see of processMboxCommand's answer.
use mathlib.Core.Path.{subst}
use acq200_firmware.Prelude.{
  ℕ, zero, suc, ◌%◌, ◌<◌, ◌≡◌, refl, sym, ap, ◌∙◌, arith, Bool, true, false, bit_or,
}
use acq200_firmware.Busprot.Ci
use acq200_firmware.Busprot.Fields.{field, field-bit_or}
use acq200_firmware.MboxSlave.Types.{Slave, Hal, Outcome, returns, spins, nack}
use acq200_firmware.MboxSlave.Types.Idle.{mbox-ack}
use acq200_firmware.MboxSlave.Handlers.Unchanged.{Unchanged}
use acq200_firmware.MboxSlave.Process.{is_new, settle, process_mbox_command}
use acq200_firmware.MboxSlave.Process.Once.{taken, run_taken, process_new, run_command-Unchanged}

acked_bit : (c : ℕ) → field 31 1 (bit_or c Ci.ack) ≡ 1
acked_bit c = field-bit_or 31 1 c Ci.ack ∙ either_bit (field 31 1 c) (omega arith)
  where
    either_bit : (f : ℕ) → f < 2 → bit_or f 1 % 2 ≡ 1
    either_bit zero h = refl
    either_bit (suc zero) h = refl
    either_bit (suc (suc f)) h = absurd (omega arith)

Settled : Slave → Outcome → Type 0
Settled s (returns true t) = field 31 1 t.mbox.command ≡ 1
Settled s (returns false t) = t ≡ nack s
Settled s spins = Unit

settle_lem : (s : Slave) (outcome : Outcome) → Unchanged s outcome → Settled s (settle outcome)
unfolding Settled
settle_lem s (returns true t) p =
    ap (λ m. field 31 1 m.command) (mbox-ack t) ∙ acked_bit t.mbox.command
settle_lem s (returns false t) p = ap nack p
settle_lem s spins p = tt

-- What an answer leaves of the state `s`: BP_CI_ACK set in the command box, or, for a refusal,
-- nothing changed but the cleared BP_NEWCOMMAND bits and the interrupt that nack raises.
abbrev pub Answered : Bool → Slave → Slave → Type 0
Answered true s t = field 31 1 t.mbox.command ≡ 1
Answered false s t = t ≡ nack (taken s)

Answered-answer :
    (answer : Bool) (s t : Slave) → Settled (taken s) (returns answer t) → Answered answer s t
unfolding Settled
Answered-answer true s t p = p
Answered-answer false s t p = p

-- A waiting command or query that processMboxCommand accepts has BP_CI_ACK set in its command
-- box; one that it refuses leaves the state as it was but for the cleared BP_NEWCOMMAND bits and
-- the interrupt that nack raises.
pub process_answer :
    (hal : Hal) (long_ok answer : Bool) (s t : Slave)
    → is_new s.mbox.command ≡ true
    → process_mbox_command hal long_ok s ≡ returns answer t
    → Answered answer s t
process_answer hal long_ok answer s t new e = Answered-answer answer s t (
    subst (Settled (taken s)) (sym (process_new hal long_ok s new) ∙ e) (
      settle_lem (taken s) (run_taken hal long_ok s)
        (run_command-Unchanged hal long_ok _ _ (taken s))))
