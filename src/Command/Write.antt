-- ===== src/Command/Write.antt =====
-- A write to a device file: do_bucket_command, the three tables of decoders, and _write_command of
-- acq32_command.c.
pub mod Total
pub mod Skips
pub mod Unknown
pub mod Rejects
use acq200_firmware.Prelude.{
  ℕ, zero, suc, ◌+◌, Bool, true, false, Option, none, some, List, [], ◌∷◌, ◌++◌, length, take, drop,
  min, leb, ltb, if◌then◌else◌,
}
use acq200_firmware.Command.Text.{Str, text, str_eq}
use acq200_firmware.Command.Types.{Acq32Path, MasterDriver, Decoder, Piece, str, arg, reply}
use acq200_firmware.Command.Args.{Line, getargs}
use acq200_firmware.Command.Capture.{
  do_get_num_channels, do_get_memory_depth, do_get_num_samples, do_get_set_num_samples, do_help,
  do_set_abort, do_set_arm, do_get_state, do_get_mode, do_big_dump, do_get_info,
  do_set_channel_mask, do_set_mode, do_set_mode_gated_continuous, do_set_mode_triggered_continuous,
  verb_is,
}
use acq200_firmware.Command.Dio.{do_get_channel_mask, do_set_dio, do_get_dio}
use acq200_firmware.Command.Settings.{
  do_set_data_route, do_set_distributor, do_set_internal_clock, do_set_external_clock, do_set_user,
  do_get_internal_clock, do_set_sample_tagging, do_set_channel, do_set_cal, do_reserve_ao,
  do_wait_state,
}
use acq200_firmware.Command.Gut.{
  do_set_phase, do_get_phase, do_set_event, do_get_event, do_fire_event, do_set_clock, do_reset_gut,
  do_clock_now,
}
use acq200_firmware.Command.Threshold.{do_set_threshold}
use acq200_firmware.Command.Data.{do_format, do_seek, do_limit, do_streaming}
use acq200_firmware.Command.Routes.{
  do_set_sync_route, do_get_sync_route, do_get_available_channels, do_get_range,
}

-- The arguments as do_bucket_command strings them together
pub spaced : List Str → Str
spaced [] = []
spaced (s ∷ args) = s ++ (b' ' ∷ spaced args)

pub reject_line : List Str → Str
reject_line args = text "ERROR in command:" ++ (spaced args ++ text "(bucket)")

-- It chews up the rest of the arguments; the line and its terminator have 80 characters.
unfoldable pub do_bucket : Decoder
do_bucket argv iarg p =
    if verb_is argv iarg (text "help")
    then (length argv, p)
    else (let line = reject_line (drop iarg argv) in
        let printed = reply (str line ∷ []) p in
        (length argv, if leb 80 (length line) then record printed { overrun = true } else printed))

-- The loop over the decoders of a table: it has taken all the arguments, or has gone past the end of
-- the table, where an assertion stops it.
pub data Decoding : Type 0 where
  taken past_table : Acq32Path → Decoding

pub run_decoders : List Decoder → List Str → ℕ → Acq32Path → Decoding
run_decoders [] argv iarg p = if ltb iarg (length argv) then past_table p else taken p
run_decoders (decoder ∷ decoders) argv iarg p = elim (ltb iarg (length argv)) [
  | false ↦ taken p
  | true ↦ run_decoders decoders argv (decoder argv iarg p).0 (decoder argv iarg p).1
]

-- What _write_command returns, or how it stops.
pub data Written : Type 0 where
  written : ℕ → Acq32Path → Written
  assertion_failed out_of_fuel : Acq32Path → Written

-- The loop over the lines: `offset` is next_command - kbuf.
pub write_from : ℕ → List Decoder → Str → ℕ → Acq32Path → Written
write_from zero decoders next offset p = out_of_fuel p
write_from (suc fuel) decoders next offset p =
    let line = getargs next in
    elim line.argv [
      | [] ↦ written (offset + line.moved) p
      | verb ∷ args ↦
          elim (run_decoders decoders line.argv 0 (reply (str (text "ACQ32:") ∷ []) p)) [
            | past_table q ↦ assertion_failed q
            | taken q ↦
                write_from fuel decoders line.next (offset + line.moved)
                  (reply (str (text "\n") ∷ []) q)
          ]
    ]

-- kbuf has MAXCMDLINE characters, with the terminator. Each line takes one of them.
pub write_command : List Decoder → Str → Acq32Path → Written
write_command decoders buf p =
    let kbuf = take 255 buf in write_from (length kbuf + 1) decoders kbuf 0 p

module _ (drvr : MasterDriver) where
  -- The tables in front of do_bucket_command
  pub data_commands : List Decoder
  data_commands = do_format ∷ do_seek drvr ∷ do_limit drvr ∷ do_streaming drvr ∷ []

  pub status_commands : List Decoder
  status_commands =
      do_wait_state drvr
      ∷ do_help drvr
      ∷ do_set_mode_triggered_continuous drvr
      ∷ do_get_memory_depth drvr
      ∷ do_get_num_channels drvr
      ∷ do_get_num_samples drvr
      ∷ do_get_set_num_samples drvr
      ∷ do_get_state drvr
      ∷ do_get_mode drvr
      ∷ do_get_channel_mask drvr
      ∷ do_get_internal_clock drvr
      ∷ do_get_dio drvr
      ∷ do_get_info drvr
      ∷ do_get_sync_route drvr
      ∷ do_get_available_channels drvr
      ∷ do_get_range drvr
      ∷ []

  pub master_commands : List Decoder
  master_commands =
      do_help drvr
      ∷ do_set_abort drvr
      ∷ do_set_arm drvr
      ∷ do_set_mode drvr
      ∷ do_set_mode_gated_continuous drvr
      ∷ do_set_mode_triggered_continuous drvr
      ∷ do_get_memory_depth drvr
      ∷ do_get_num_channels drvr
      ∷ do_get_num_samples drvr
      ∷ do_get_set_num_samples drvr
      ∷ do_get_state drvr
      ∷ do_get_mode drvr
      ∷ do_set_channel_mask drvr
      ∷ do_get_channel_mask drvr
      ∷ do_seek drvr
      ∷ do_limit drvr
      ∷ do_format
      ∷ do_set_internal_clock drvr
      ∷ do_get_internal_clock drvr
      ∷ do_set_external_clock drvr
      ∷ do_set_sample_tagging drvr
      ∷ do_set_dio drvr
      ∷ do_get_dio drvr
      ∷ do_set_channel drvr
      ∷ do_big_dump drvr
      ∷ do_get_info drvr
      ∷ do_set_distributor drvr
      ∷ do_set_data_route drvr
      ∷ do_set_sync_route drvr
      ∷ do_get_sync_route drvr
      ∷ do_set_cal drvr
      ∷ do_set_phase drvr
      ∷ do_get_phase drvr
      ∷ do_set_event drvr
      ∷ do_get_event drvr
      ∷ do_fire_event drvr
      ∷ do_set_clock drvr
      ∷ do_clock_now drvr
      ∷ do_reset_gut drvr
      ∷ do_reserve_ao drvr
      ∷ do_set_user drvr
      ∷ do_set_threshold drvr
      ∷ do_get_available_channels drvr
      ∷ do_get_range drvr
      ∷ []

  pub data_decoders : List Decoder
  data_decoders = data_commands ++ do_bucket ∷ []

  pub status_decoders : List Decoder
  status_decoders = status_commands ++ do_bucket ∷ []

  pub master_decoders : List Decoder
  master_decoders = master_commands ++ do_bucket ∷ []

  pub acq32_data_write : Str → Acq32Path → Written
  acq32_data_write = write_command data_decoders

  pub acq32_status_write : Str → Acq32Path → Written
  acq32_status_write = write_command status_decoders

  pub acq32_master_write : Str → Acq32Path → Written
  acq32_master_write = write_command master_decoders
