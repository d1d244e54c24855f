-- ===== src/MboxSlave/Process/Once.antt =====
-- processMboxCommand as a whole: a waiting command is answered once.
use mathlib.Core.Path.{subst}
use acq200_firmware.Prelude.{
  ℕ, ◌*◌, ◌/◌, ◌%◌, ◌^◌, ◌≡◌, refl, sym, ap, ◌∙◌, arith, Bool, true, false, ◌&&◌, bit_and,
  bit_and-div, bit_and-mod, bit_and_mask, bit_and-zero, ◌==◌, ◌!=◌, inl, inr, Bool-cases,
}
use acq200_firmware.Busprot.{clear, has}
use acq200_firmware.Busprot.Ci
use acq200_firmware.Busprot.Fields.{field}
use acq200_firmware.Busprot.Masking.{field_cleared}
use acq200_firmware.MboxSlave.Types.{Slave, Hal, Outcome, returns, spins, set_command}
use acq200_firmware.MboxSlave.Types.Idle.{Quiet-ack, Quiet-nack}
use acq200_firmware.MboxSlave.Handlers.Idle.{FitsBox}
use acq200_firmware.MboxSlave.Handlers.Unchanged.{Unchanged}
use acq200_firmware.MboxSlave.Idle.{Quiet, Idle}
use acq200_firmware.MboxSlave.Process.{
  short_command, long_command, short_query, long_query, or_long, settle, newcommand, is_new,
  run_command, process_mbox_command,
}
use acq200_firmware.MboxSlave.Process.Idle.{
  short_command-Rests, long_command-Rests, short_query-Rests, long_query-Rests,
}
use acq200_firmware.MboxSlave.Process.Unchanged.{
  short_command-Keeps, long_command-Keeps, short_query-Keeps, long_query-Keeps,
}

-- The waiting bits of a command word.
waiting_lem : (c : ℕ) → bit_and c newcommand ≡ field 28 2 c * 2 ^ 28
waiting_lem c =
    let high : bit_and c newcommand / 2 ^ 28 ≡ field 28 2 c =
      bit_and-div 28 c newcommand ∙ bit_and_mask 2 (c / 2 ^ 28) in
    let low : bit_and c newcommand % 2 ^ 28 ≡ 0 =
      bit_and-mod 28 c newcommand ∙ ap (λ t. t % 2 ^ 28) (bit_and-zero (c % 2 ^ 28)) in
    omega (arith, high, low)

Quiet-not_new : (c : ℕ) → Quiet c → is_new c ≡ false
Quiet-not_new c q =
    ap (λ w. (bit_and c Ci.ack == 0) && (w != 0)) (waiting_lem c ∙ ap (λ f. f * 2 ^ 28) q)
    ∙ and_false (bit_and c Ci.ack == 0)
  where
    and_false : (b : Bool) → (b && false) ≡ false
    and_false true = refl
    and_false false = refl

Quiet-clear : (c : ℕ) → Quiet (clear c newcommand)
Quiet-clear c = field_cleared 28 2 c _ refl

Idle-or_long :
    (first : Outcome) (long_ok : Bool) (second : Slave → Outcome)
    → Idle first
    → ((t : Slave) → Quiet t.mbox.command → Idle (second t))
    → Idle (or_long first long_ok second)
Idle-or_long (returns true t) long_ok second p q = p
Idle-or_long (returns false t) true second p q = q t p
Idle-or_long (returns false t) false second p q = p
Idle-or_long spins long_ok second p q = tt

Unchanged-or_long :
    (s : Slave) (first : Outcome) (long_ok : Bool) (second : Slave → Outcome)
    → Unchanged s first
    → ((t : Slave) → Unchanged t (second t))
    → Unchanged s (or_long first long_ok second)
Unchanged-or_long s (returns true t) long_ok second p q = tt
Unchanged-or_long s (returns false t) true second p q = subst (λ u. Unchanged u (second t)) p (q t)
Unchanged-or_long s (returns false t) false second p q = p
Unchanged-or_long s spins long_ok second p q = tt

Idle-settle : (outcome : Outcome) → Idle outcome → Idle (settle outcome)
Idle-settle (returns true t) p = Quiet-ack t p
Idle-settle (returns false t) p = Quiet-nack t p
Idle-settle spins p = tt

run_command-Idle :
    (hal : Hal) (long_ok is_command : Bool) (command : ℕ) (s : Slave)
    → FitsBox hal
    → Quiet s.mbox.command
    → Idle (run_command hal long_ok is_command command s)
unfolding run_command
run_command-Idle hal long_ok true command s fits p =
    Idle-or_long (short_command hal command s) long_ok (long_command hal command)
      (short_command-Rests hal fits command s p).idle
      λ t q. (long_command-Rests hal fits command t q).idle
run_command-Idle hal long_ok false command s fits p =
    Idle-or_long (short_query hal command s) long_ok (long_query command)
      (short_query-Rests hal fits command s p).idle
      λ t q. (long_query-Rests hal fits command t q).idle

pub run_command-Unchanged :
    (hal : Hal) (long_ok is_command : Bool) (command : ℕ) (s : Slave)
    → Unchanged s (run_command hal long_ok is_command command s)
unfolding run_command
run_command-Unchanged hal long_ok true command s =
    Unchanged-or_long s (short_command hal command s) long_ok (long_command hal command)
      (short_command-Keeps hal command s).unchanged
      λ t. (long_command-Keeps hal command t).unchanged
run_command-Unchanged hal long_ok false command s =
    Unchanged-or_long s (short_query hal command s) long_ok (long_query command)
      (short_query-Keeps hal command s).unchanged λ t. (long_query-Keeps hal command t).unchanged

-- What is run on the state with the command taken.
abbrev pub taken : Slave → Slave
taken s = set_command (clear s.mbox.command newcommand) s

abbrev pub run_taken : Hal → Bool → Slave → Outcome
run_taken hal long_ok s =
    run_command hal long_ok (has s.mbox.command Ci.command) (clear s.mbox.command newcommand)
      (taken s)

pub process_new :
    (hal : Hal) (long_ok : Bool) (s : Slave)
    → is_new s.mbox.command ≡ true
    → process_mbox_command hal long_ok s ≡ settle (run_taken hal long_ok s)
unfolding process_mbox_command
process_new hal long_ok s e = rw e refl

pub process_old :
    (hal : Hal) (long_ok : Bool) (s : Slave)
    → is_new s.mbox.command ≡ false
    → process_mbox_command hal long_ok s ≡ returns false s
unfolding process_mbox_command
process_old hal long_ok s e = rw e refl

returns_state : Outcome → Slave → Slave
returns_state (returns b t) s = t
returns_state spins s = s

pub process_settled :
    (hal : Hal) (long_ok answer : Bool) (s t : Slave)
    → FitsBox hal
    → process_mbox_command hal long_ok s ≡ returns answer t
    → is_new t.mbox.command ≡ false
unfolding returns_state
process_settled hal long_ok answer s t fits e = elim (Bool-cases (is_new s.mbox.command)) [
  | inl new ↦ Quiet-not_new t.mbox.command (
      subst Idle (sym (process_new hal long_ok s new) ∙ e) (
        Idle-settle (run_taken hal long_ok s)
          (run_command-Idle hal long_ok _ _ (taken s) fits (Quiet-clear s.mbox.command))))
  | inr old ↦
      ap (λ u. is_new u.mbox.command)
        (ap (λ o. returns_state o s) (sym e ∙ process_old hal long_ok s old))
      ∙ old
]

-- Once processMboxCommand has returned, a further call does nothing, whatever the hardware then
-- answers and in whatever phase of a capture it comes: a command is acted on and answered once.
-- The hardware's counts and route numbers fit a byte, and its low latency loop ends with no
-- command waiting.
pub process_once :
    (hal later : Hal) (long_ok later_ok answer : Bool) (s t : Slave)
    → FitsBox hal
    → process_mbox_command hal long_ok s ≡ returns answer t
    → process_mbox_command later later_ok t ≡ returns false t
process_once hal later long_ok later_ok answer s t fits e =
    process_old later later_ok t (process_settled hal long_ok answer s t fits e)
