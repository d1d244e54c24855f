-- ===== src/MboxSlave/Process/Capture.antt =====
-- processMboxCommand and mbox_abort while a capture runs.
use acq200_firmware.Prelude.{ℕ, ◌≡◌, refl, sym, ap, ◌∙◌, arith, Bool, true, false, ◌||◌, ◌==◌}
use acq200_firmware.Busprot.{clear, has, get_funcode}
use acq200_firmware.Busprot.Ci
use acq200_firmware.Busprot.Fields.{get_funcode_lem}
use acq200_firmware.Busprot.Masking.{field_kept}
use acq200_firmware.MboxSlave.Types.{Slave, Hal, returns, ack, nack, call, Call}
use acq200_firmware.MboxSlave.Handlers
use acq200_firmware.MboxSlave.Handlers.{answer_a3}
use acq200_firmware.MboxSlave.Handlers.Mask.{set_mask_lem, get_mask_lem}
use acq200_firmware.MboxSlave.Process.{
  newcommand, is_new, settle, run_command, process_mbox_command, short_command, long_command,
  short_query, long_query, or_long,
}
use acq200_firmware.MboxSlave.Process.Once.{taken, process_new}

-- BP_FC_SET_INTERRUPTS, SET_DIO, SET_ABORT, STREAM and SET_DEBUG.
abbrev pub acts_in_capture : ℕ → Bool
acts_in_capture code =
    (code == b'I') || (code == b'd') || (code == b'Z') || (code == b'S') || (code == b'b')

funcode_taken : (c : ℕ) → get_funcode (clear c newcommand) ≡ get_funcode c
funcode_taken c =
    get_funcode_lem (clear c newcommand) ∙ field_kept 16 8 c _ refl ∙ sym (get_funcode_lem c)

refused_lem :
    (hal : Hal) (command : ℕ) (s : Slave)
    → acts_in_capture (get_funcode command) ≡ false
    → short_command hal command s ≡ returns false s
unfolding short_command
refused_lem hal command s e = ground arith

-- While a capture runs, a waiting command that is not one of the five for then is refused, and
-- does nothing: it is taken from the box, and not acknowledged.
pub capture_refuses :
    (hal : Hal) (s : Slave)
    → is_new s.mbox.command ≡ true
    → has s.mbox.command Ci.command ≡ true
    → acts_in_capture (get_funcode s.mbox.command) ≡ false
    → process_mbox_command hal false s ≡ returns false (nack (taken s))
unfolding run_command
capture_refuses hal s new command other =
    process_new hal false s new
    ∙ ap (λ b. settle (run_command hal false b (clear s.mbox.command newcommand) (taken s))) command
    ∙ ap (λ o. settle (or_long o false (long_command hal (clear s.mbox.command newcommand))))
        (refused_lem hal (clear s.mbox.command newcommand) (taken s)
          (ap acts_in_capture (funcode_taken s.mbox.command) ∙ other))

-- Outside a capture, a command that is not one of the five is left to processCommand.
pub process_long :
    (hal : Hal) (s : Slave)
    → is_new s.mbox.command ≡ true
    → has s.mbox.command Ci.command ≡ true
    → acts_in_capture (get_funcode s.mbox.command) ≡ false
    → process_mbox_command hal true s
      ≡ settle (long_command hal (clear s.mbox.command newcommand) (taken s))
unfolding run_command
process_long hal s new command other =
    process_new hal true s new
    ∙ ap (λ b. settle (run_command hal true b (clear s.mbox.command newcommand) (taken s))) command
    ∙ ap (λ o. settle (or_long o true (long_command hal (clear s.mbox.command newcommand))))
        (refused_lem hal (clear s.mbox.command newcommand) (taken s)
          (ap acts_in_capture (funcode_taken s.mbox.command) ∙ other))

pub long_command_mask :
    (hal : Hal) (command : ℕ) (s : Slave)
    → get_funcode command ≡ b'K'
    → long_command hal command s ≡ Handlers.set_mask hal s
unfolding long_command
long_command_mask hal command s e = rw e refl

short_query_mask :
    (hal : Hal) (command : ℕ) (s : Slave)
    → get_funcode command ≡ b'K'
    → short_query hal command s ≡ Handlers.get_mask s
unfolding short_query
short_query_mask hal command s e = rw e refl

-- BP_FC_SET_MASK and BP_FC_GET_MASK as processMboxCommand does them.
pub process_set_mask :
    (hal : Hal) (s : Slave)
    → is_new s.mbox.command ≡ true
    → has s.mbox.command Ci.command ≡ true
    → get_funcode s.mbox.command ≡ b'K'
    → process_mbox_command hal true s
      ≡ returns true (
          ack (
            call
              (Call.set_channel_mask s.mbox.a3)
              (record (taken s) { channel_mask = hal.available_mask s.mbox.a3 })))
process_set_mask hal s new command code =
    process_long hal s new command (ap acts_in_capture code)
    ∙ ap settle (
        long_command_mask hal (clear s.mbox.command newcommand) (taken s)
          (funcode_taken s.mbox.command ∙ code)
        ∙ set_mask_lem hal (taken s))

pub process_get_mask :
    (hal : Hal) (long_ok : Bool) (s : Slave)
    → is_new s.mbox.command ≡ true
    → has s.mbox.command Ci.command ≡ false
    → get_funcode s.mbox.command ≡ b'K'
    → process_mbox_command hal long_ok s ≡ returns true (ack (answer_a3 s.channel_mask (taken s)))
unfolding run_command
process_get_mask hal long_ok s new query code =
    process_new hal long_ok s new
    ∙ ap (λ b. settle (run_command hal long_ok b (clear s.mbox.command newcommand) (taken s))) query
    ∙ ap (λ o. settle (or_long o long_ok (long_query (clear s.mbox.command newcommand))))
        (short_query_mask hal (clear s.mbox.command newcommand) (taken s)
            (funcode_taken s.mbox.command ∙ code)
          ∙ get_mask_lem (taken s))
