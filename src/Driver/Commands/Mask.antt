-- ===== src/Driver/Commands/Mask.antt =====
-- acq32_devSetChannelMask in the case that its command and its query succeed.
use acq200_firmware.Prelude.{ℕ, ◌+◌, ◌≡◌, ap, ◌∙◌, false, none, some, [], ◌∷◌}
use acq200_firmware.Busprot.{set_funcode}
use acq200_firmware.Driver.Bus.{Bus, Device}
use acq200_firmware.Driver.Send.{send_command_a3_a4, send_query, a3_only}
use acq200_firmware.Driver.Commands.{
  dev_get_channel_mask, dev_set_channel_mask, on_link, then_get_mask, keep_mask,
}

module _ {L : Type 0} (bus : Bus L) (mask boost found : ℕ) (d : Device L) (sent asked : L) where
  pub dev_set_channel_mask_lem :
      d.use_interrupts ≡ false
      → send_command_a3_a4 bus false (set_funcode b'K' + b'R') ((mask, some boost) ∷ []) d.link
        ≡ (none, sent)
      → send_query bus false (set_funcode b'K') a3_only sent
        ≡ (none, record { a1 = none; a2 = none; a3 = some found; a4 = none }, asked)
      → dev_set_channel_mask bus mask boost d
        ≡ (none, record d { link = asked; channel_mask = found })
  unfolding dev_set_channel_mask dev_get_channel_mask
  dev_set_channel_mask_lem polled command query =
      ap
        (λ b. then_get_mask bus (
          on_link bus (send_command_a3_a4 bus b (set_funcode b'K' + b'R') ((mask, some boost) ∷ []))
            d))
        polled
      ∙ ap (λ r. then_get_mask bus (let (error, link) = r in (error, record d { link = link })))
          command
      ∙ ap
          (λ b. keep_mask bus (
            let (error, response, link) = send_query bus b (set_funcode b'K') a3_only sent in
            (error, response.a3, record d { link = link })))
          polled
      ∙ ap
          (λ r.
            keep_mask bus
              (let (error, response, link) = r in (error, response.a3, record d { link = link })))
          query
