-- ===== src/Driver/Send.antt =====
-- acq32_devPollAck, _acq32_devSendCommand, acq32_devSendCommandA3A4 and acq32_devSendQuery.
pub mod Polls
use acq200_firmware.Prelude.{
  ℕ, zero, suc, ◌+◌, ◌-◌, Bool, true, false, Option, none, some, List, [], ◌∷◌, bit_or,
  if◌then◌else◌,
}
use acq200_firmware.Busprot.{has, get_a1, get_a2}
use acq200_firmware.Busprot.Ci
use acq200_firmware.Driver.Bus.{Box, Bus, Error, timed_out}

abbrev pub max_timeout : ℕ
max_timeout = 0x100000

-- What a query asks to be told: which of its result pointers are not NULL.
pub record Want : Type 0 where
  pub a1 : Bool
  pub a2 : Bool
  pub a3 : Bool
  pub a4 : Bool

pub record Response : Type 0 where
  pub a1 : Option ℕ
  pub a2 : Option ℕ
  pub a3 : Option ℕ
  pub a4 : Option ℕ

abbrev pub no_response : Response
no_response = record { a1 = none; a2 = none; a3 = none; a4 = none }

-- A query that asks for a3 alone.
abbrev pub a3_only : Want
a3_only = record { a1 = false; a2 = false; a3 = true; a4 = false }

module _ {L : Type 0} (bus : Bus L) where
  -- acq32_devPollAck, with the polls that are left.
  pub poll_ack : ℕ → L → Option Error × L
  poll_ack zero link = (some timed_out, link)
  poll_ack (suc left) link =
      let (ucommand, polled) = bus.get_mailbox Box.command link in
      elim (has ucommand Ci.ack) [ true ↦ (none, polled) | false ↦ poll_ack left polled ]

  -- acq32_devAckInt: its `rv < 0` is on an unsigned long, so it polls after a timeout as well.
  pub ack_int : L → Option Error × L
  ack_int link = poll_ack max_timeout (bus.wait_int link).1

  pub await_ack : Bool → L → Option Error × L
  await_ack use_interrupts link = if use_interrupts then ack_int link else poll_ack max_timeout link

  -- An argument's mailbox is written when its pointer is not NULL.
  abbrev pub set_argument : Box → Option ℕ → L → L
  set_argument box none link = link
  set_argument box (some value) link = bus.set_mailbox box value link

  abbrev pub flag_of : Option ℕ → ℕ → ℕ
  flag_of none flag = 0
  flag_of (some value) flag = flag

  -- The command word that goes out; BP_CI_A3 goes with an a4, and BP_CI_A4 with an a3.
  abbrev pub command_word : ℕ → Option ℕ → Option ℕ → ℕ
  command_word command a3 a4 =
      bit_or (bit_or (bit_or command (Ci.done + Ci.command)) (flag_of a4 Ci.a3)) (flag_of a3 Ci.a4)

  -- _acq32_devSendCommand
  pub send_command_word : Bool → ℕ → Option ℕ → Option ℕ → L → Option Error × L
  send_command_word use_interrupts command a3 a4 link =
      let with_a4 = set_argument Box.a4 a4 link in
      let with_a3 = set_argument Box.a3 a3 with_a4 in
      await_ack use_interrupts (bus.set_mailbox Box.command (command_word command a3 a4) with_a3)

  -- acq32_devSendCommand
  pub send_command : Bool → ℕ → L → Option Error × L
  send_command use_interrupts command link = send_command_word use_interrupts command none none link

  -- acq32_devSendCommandA3A4 with BP_CI_A3 set; an a4 array that is NULL has `none` throughout.
  pub send_all : Bool → ℕ → List (ℕ × Option ℕ) → L → Option Error × L
  send_all use_interrupts command [] link = (none, link)
  send_all use_interrupts command ((a3, a4) ∷ []) link =
      send_command_word use_interrupts (bit_or command Ci.done) (some a3) a4 link
  send_all use_interrupts command ((a3, a4) ∷ arg ∷ args) link =
      let (error, sent) = send_command_word use_interrupts command (some a3) a4 link in
      elim error [
        | some e ↦ (some e, sent)
        | none ↦ send_all use_interrupts command (arg ∷ args) sent
      ]

  pub send_command_a3_a4 : Bool → ℕ → List (ℕ × Option ℕ) → L → Option Error × L
  send_command_a3_a4 use_interrupts command args link =
      send_all use_interrupts (bit_or command Ci.a3) args link

  abbrev pub read_if : Bool → Box → L → Option ℕ × L
  read_if false box link = (none, link)
  read_if true box link = let (value, read) = bus.get_mailbox box link in (some value, read)

  abbrev pub part_if : Bool → (ℕ → ℕ) → Option ℕ → Option ℕ
  part_if true part (some word) = some (part word)
  part_if _ part _ = none

  -- The reading of the answer.
  pub read_response : Want → L → Response × L
  read_response want link =
      let (word, after_word) =
        read_if (elim want.a1 [ true ↦ true | false ↦ want.a2 ]) Box.command link in
      let (a3, after_a3) = read_if want.a3 Box.a3 after_word in
      let (a4, after_a4) = read_if want.a4 Box.a4 after_a3 in
      (
        record {
          a1 = part_if want.a1 get_a1 word;
          a2 = part_if want.a2 get_a2 word;
          a3 = a3;
          a4 = a4;
        },
        after_a4,
      )

  abbrev pub respond : Want → Option Error × L → Option Error × Response × L
  respond want (some e, link) = (some e, no_response, link)
  respond want (none, link) =
      let (response, read) = read_response want link in (none, response, read)

  -- acq32_devSendQuery
  pub send_query : Bool → ℕ → Want → L → Option Error × Response × L
  send_query use_interrupts command want link =
      respond want
        (await_ack use_interrupts (bus.set_mailbox Box.command (bit_or command Ci.query) link))
