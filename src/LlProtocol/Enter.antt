-- ===== src/LlProtocol/Enter.antt =====
-- The command words of enterLLCSoftClock and enterLLCExtClock, as mbox_setModeLowLatencyControl of
-- ARM/d-bug/mbox-slave.c reads them.
use acq200_firmware.Prelude.{ℕ, ◌≡◌, Bool, true, false, List, [], ◌∷◌}
use acq200_firmware.Busprot.{get_funcode, get_a1, has}
use acq200_firmware.Busprot.Ci
use acq200_firmware.MboxSlave.Process.{is_new}
use acq200_firmware.Driver.Bus.{Box}
use acq200_firmware.LlProtocol.{
  Access, set_mbox, poll_ack, poll_bits, softclock, clkpol_pos, trpol_pos, llcv2_init, intsoft_clk,
  intdiv_clk, enter_llc_soft_clock, enter_llc_ext_clock,
}

-- The word that an access writes to the command box.
abbrev pub command_of : List Access → ℕ
command_of [] = 0
command_of (set_mbox Box.command w ∷ rest) = w
command_of (set_mbox box w ∷ rest) = command_of rest
command_of (poll_ack ∷ rest) = command_of rest
command_of (poll_bits box mask goal ∷ rest) = command_of rest

-- What the slave reads of a command word: whether it waits as a command, its code, and the bits of
-- its a1 for the clock, the two polarities, the loopback and the init block.
abbrev pub read_llc : ℕ → ℕ → (Bool × Bool × ℕ) × Bool × Bool × Bool × Bool × Bool
read_llc loop_bit word =
    let a1 = get_a1 word in
    (
      (is_new word, has word Ci.command, get_funcode word),
      has a1 softclock,
      has a1 clkpol_pos,
      has a1 trpol_pos,
      has a1 loop_bit,
      has a1 llcv2_init,
    )

abbrev pub init_mods : Bool → ℕ
init_mods true = llcv2_init
init_mods false = 0

abbrev SoftRead : Bool → Bool → Bool → Bool → Type 0
SoftRead clkpos trpos looped init =
    read_llc intsoft_clk (command_of (enter_llc_soft_clock clkpos trpos looped (init_mods init)))
    ≡ ((true, true, b'L'), true, clkpos, trpos, looped, init)

abbrev ExtRead : ℕ → Bool → Bool → Bool → Bool → Type 0
ExtRead divisor clkpos trpos looped init =
    read_llc intdiv_clk
      (command_of (enter_llc_ext_clock clkpos trpos divisor looped (init_mods init)))
    ≡ ((true, true, b'L'), false, clkpos, trpos, looped, init)
