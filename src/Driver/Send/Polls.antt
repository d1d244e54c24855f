-- ===== src/Driver/Send/Polls.antt =====
-- The polls of acq32_devPollAck, one at a time and to the end.
use acq200_firmware.Prelude.{
  ℕ, zero, suc, ◌≡◌, refl, ap, ◌∙◌, true, false, Option, none, some, [], ◌∷◌, bit_or,
}
use acq200_firmware.Busprot.{has}
use acq200_firmware.Busprot.Ci
use acq200_firmware.Driver.Bus.{Box, Bus, Error, timed_out}
use acq200_firmware.Driver.Send.{
  max_timeout, poll_ack, await_ack, send_command, send_command_word, command_word,
  send_command_a3_a4, send_all, send_query, read_response, respond, a3_only,
}

module _ {L : Type 0} (bus : Bus L) where
  -- The rest of acq32_devPollAck once the command box is read.
  abbrev on_poll : ℕ → ℕ × L → Option Error × L
  on_poll left r = elim (has r.0 Ci.ack) [ true ↦ (none, r.1) | false ↦ poll_ack bus left r.1 ]

  poll_ack_step :
      (left : ℕ) (link : L)
      → poll_ack bus (suc left) link ≡ on_poll left (bus.get_mailbox Box.command link)
  unfolding poll_ack
  poll_ack_step left link = refl

  pub poll_ack_seen :
      (left : ℕ) (link : L) (word : ℕ) (polled : L)
      → bus.get_mailbox Box.command link ≡ (word, polled)
      → has word Ci.ack ≡ true
      → poll_ack bus (suc left) link ≡ (none, polled)
  poll_ack_seen left link word polled e acked =
      poll_ack_step left link
      ∙ ap (on_poll left) e
      ∙ ap (λ b. elim b [ true ↦ (none, polled) | false ↦ poll_ack bus left polled ]) acked

  pub poll_ack_unseen :
      (left : ℕ) (link : L) (word : ℕ) (polled : L)
      → bus.get_mailbox Box.command link ≡ (word, polled)
      → has word Ci.ack ≡ false
      → poll_ack bus (suc left) link ≡ poll_ack bus left polled
  poll_ack_unseen left link word polled e quiet =
      poll_ack_step left link
      ∙ ap (on_poll left) e
      ∙ ap (λ b. elim b [ true ↦ (none, polled) | false ↦ poll_ack bus left polled ]) quiet

  -- A link that a poll leaves as it is, without an acknowledgement, is polled to the end.
  pub poll_ack_idle :
      (left : ℕ) (link : L) (word : ℕ)
      → bus.get_mailbox Box.command link ≡ (word, link)
      → has word Ci.ack ≡ false
      → poll_ack bus left link ≡ (some timed_out, link)
  unfolding poll_ack
  poll_ack_idle zero link word e quiet = refl
  poll_ack_idle (suc left) link word e quiet =
      poll_ack_unseen left link word link e quiet ∙ poll_ack_idle left link word e quiet

  pub send_command_lem :
      (command : ℕ) (link : L)
      → send_command bus false command link
        ≡ poll_ack bus max_timeout
            (bus.set_mailbox Box.command (command_word bus command none none) link)
  unfolding send_command send_command_word await_ack
  send_command_lem command link = refl

  -- A command with both arguments.
  pub send_args_lem :
      (command a3 a4 : ℕ) (link : L)
      → send_command_a3_a4 bus false command ((a3, some a4) ∷ []) link
        ≡ poll_ack bus max_timeout (
            bus.set_mailbox Box.command
              (command_word bus (bit_or (bit_or command Ci.a3) Ci.done) (some a3) (some a4))
              (bus.set_mailbox Box.a3 a3 (bus.set_mailbox Box.a4 a4 link)))
  unfolding send_command_a3_a4 send_all send_command_word await_ack
  send_args_lem command a3 a4 link = refl

  -- A query of a3 that is acknowledged.
  pub send_query_a3 :
      (command : ℕ) (link polled : L)
      → poll_ack bus max_timeout (bus.set_mailbox Box.command (bit_or command Ci.query) link)
        ≡ (none, polled)
      → send_query bus false command a3_only link ≡ (
        none,
        record { a1 = none; a2 = none; a3 = some (bus.get_mailbox Box.a3 polled).0; a4 = none },
        (bus.get_mailbox Box.a3 polled).1,
      )
  unfolding send_query await_ack read_response
  send_query_a3 command link polled e = ap (respond bus a3_only) e
