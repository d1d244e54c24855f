-- ===== src/Command/Write/Unknown.antt =====
-- A line whose verb no decoder of the master device knows: the bucket answers it.
use acq200_firmware.Prelude.{
  ℕ, ◌≡◌, ◌≢◌, refl, ap, sym, ◌∙◌, true, List, [], ◌∷◌, ◌++◌, map, length, leb, ltb, if◌then◌else◌,
  arith,
}
use acq200_firmware.Command.Text.{Str, text, str_eq_ne}
use acq200_firmware.Command.Types.{Acq32Path, MasterDriver, Decoder, str, arg, reply}
use acq200_firmware.Command.Tables.{info_lut}
use acq200_firmware.Command.Capture.{
  do_get_num_channels, do_get_memory_depth, do_get_num_samples, do_get_set_num_samples, do_help,
  do_set_abort, do_set_arm, do_get_state, do_get_mode, do_big_dump, do_get_info,
  do_set_channel_mask, do_set_mode, do_set_mode_gated_continuous, do_set_mode_triggered_continuous,
  set_mode_continuous,
}
use acq200_firmware.Command.Dio.{do_get_channel_mask, do_set_dio, do_get_dio}
use acq200_firmware.Command.Settings.{
  do_set_data_route, do_set_distributor, do_set_internal_clock, do_set_external_clock, do_set_user,
  do_get_internal_clock, do_set_sample_tagging, do_set_channel, do_set_cal, do_reserve_ao,
}
use acq200_firmware.Command.Gut.{
  do_set_phase, do_get_phase, do_set_event, do_get_event, do_fire_event, do_set_clock, do_reset_gut,
  do_clock_now,
}
use acq200_firmware.Command.Threshold.{do_set_threshold}
use acq200_firmware.Command.Data.{do_format, do_seek, do_limit}
use acq200_firmware.Command.Routes.{
  do_set_sync_route, do_get_sync_route, do_get_available_channels, do_get_range,
}
use acq200_firmware.Command.Write.{
  reject_line, do_bucket, taken, run_decoders, master_commands, master_decoders,
}
use acq200_firmware.Command.Write.Total.{run_step, run_done, not_below}
use acq200_firmware.Command.Write.Skips.{
  AllSkip, no_more, Unknown, other_verb, named_verb, gut_skips, get_info-Skips, big_dump-Skips,
  set_distributor-Skips, set_threshold-Skips, threshold_names, ◌also◌,
}

-- The table of acq32_master_write, each decoder with the verbs that it knows
abbrev pub entries : MasterDriver → List (List Str × Decoder)
entries drvr =
    (text "help" ∷ [], do_help drvr)
    ∷ (text "help" ∷ text "setAbort" ∷ [], do_set_abort drvr)
    ∷ (text "help" ∷ text "setArm" ∷ [], do_set_arm drvr)
    ∷ (text "help" ∷ text "setMode" ∷ [], do_set_mode drvr)
    ∷ (text "help" ∷ text "setModeGatedContinuous" ∷ [], do_set_mode_gated_continuous drvr)
    ∷ (text "help" ∷ text "setModeTriggeredContinuous" ∷ [], do_set_mode_triggered_continuous drvr)
    ∷ (text "getMemoryDepth" ∷ [], do_get_memory_depth drvr)
    ∷ (text "getNumChannels" ∷ [], do_get_num_channels drvr)
    ∷ (text "getNumSamples" ∷ [], do_get_num_samples drvr)
    ∷ (text "getSetNumSamples" ∷ [], do_get_set_num_samples drvr)
    ∷ (text "help" ∷ text "getState" ∷ [], do_get_state drvr)
    ∷ (text "getMode" ∷ [], do_get_mode drvr)
    ∷ (text "help" ∷ text "setChannelMask" ∷ [], do_set_channel_mask drvr)
    ∷ (text "help" ∷ text "getChannelMask" ∷ [], do_get_channel_mask drvr)
    ∷ (text "help" ∷ text "seek" ∷ [], do_seek drvr)
    ∷ (text "limit" ∷ [], do_limit drvr)
    ∷ (text "help" ∷ text "format" ∷ [], do_format)
    ∷ (text "help" ∷ text "setInternalClock" ∷ [], do_set_internal_clock drvr)
    ∷ (text "help" ∷ text "getInternalClock" ∷ [], do_get_internal_clock drvr)
    ∷ (text "help" ∷ text "setExternalClock" ∷ [], do_set_external_clock drvr)
    ∷ (text "setSampleTagging" ∷ [], do_set_sample_tagging drvr)
    ∷ (text "help" ∷ text "setDIO" ∷ [], do_set_dio drvr)
    ∷ (text "help" ∷ text "getDIO" ∷ [], do_get_dio drvr)
    ∷ (text "setChannel" ∷ [], do_set_channel drvr)
    ∷ (text "help" ∷ text "bigdump" ∷ [], do_big_dump drvr)
    ∷ (map (λ e. e.1) info_lut, do_get_info drvr)
    ∷ (text "help" ∷ text "setDistributor" ∷ [], do_set_distributor drvr)
    ∷ (text "help" ∷ text "setDataRoute" ∷ [], do_set_data_route drvr)
    ∷ (text "help" ∷ text "setSyncRoute" ∷ [], do_set_sync_route drvr)
    ∷ (text "help" ∷ text "getSyncRoute" ∷ [], do_get_sync_route drvr)
    ∷ (text "setCal" ∷ [], do_set_cal drvr)
    ∷ (text "help" ∷ text "setPhase" ∷ [], do_set_phase drvr)
    ∷ (text "help" ∷ text "getPhase" ∷ [], do_get_phase drvr)
    ∷ (text "help" ∷ text "setEvent" ∷ [], do_set_event drvr)
    ∷ (text "help" ∷ text "getEvent" ∷ [], do_get_event drvr)
    ∷ (text "help" ∷ text "fireEvent" ∷ [], do_fire_event drvr)
    ∷ (text "help" ∷ text "setClock" ∷ [], do_set_clock drvr)
    ∷ (text "clockNow" ∷ [], do_clock_now drvr)
    ∷ (text "help" ∷ text "resetGUT" ∷ [], do_reset_gut drvr)
    ∷ (text "help" ∷ text "reserveAO" ∷ [], do_reserve_ao drvr)
    ∷ (text "help" ∷ text "setUserLed" ∷ [], do_set_user drvr)
    ∷ (threshold_names, do_set_threshold drvr)
    ∷ (text "help" ∷ text "getAvailableChannels" ∷ [], do_get_available_channels drvr)
    ∷ (text "help" ∷ text "getVoltsRange" ∷ [], do_get_range drvr)
    ∷ []

entries_lem : (drvr : MasterDriver) → map (λ e. e.1) (entries drvr) ≡ master_commands drvr
unfolding master_commands
entries_lem drvr = refl

entries-AllSkip : (drvr : MasterDriver) → AllSkip (entries drvr)
unfolding set_mode_continuous do_help do_set_abort do_set_arm do_set_mode
    do_set_mode_gated_continuous do_set_mode_triggered_continuous do_get_memory_depth
    do_get_num_channels do_get_num_samples do_get_set_num_samples do_get_state do_get_mode
    do_set_channel_mask do_get_channel_mask do_seek do_limit do_format do_set_internal_clock
    do_get_internal_clock do_set_external_clock do_set_sample_tagging do_set_dio do_get_dio
    do_set_channel do_set_distributor do_set_data_route do_set_sync_route do_get_sync_route
    do_set_cal do_set_phase do_get_phase do_set_event do_get_event do_fire_event do_set_clock
    do_clock_now do_reset_gut do_reserve_ao do_set_user do_set_threshold do_get_available_channels
    do_get_range
entries-AllSkip drvr =
    (λ argv iarg p h. other_verb _ argv iarg p _ h.0)
    also (λ argv iarg p h. named_verb _ _ _ argv iarg p _ h)
    also (λ argv iarg p h. named_verb _ _ _ argv iarg p _ h)
    also (λ argv iarg p h. named_verb _ _ _ argv iarg p _ h)
    also (λ argv iarg p h. named_verb _ _ _ argv iarg p _ h)
    also (λ argv iarg p h. named_verb _ _ _ argv iarg p _ h)
    also (λ argv iarg p h. other_verb _ argv iarg p _ h.0)
    also (λ argv iarg p h. other_verb _ argv iarg p _ h.0)
    also (λ argv iarg p h. other_verb _ argv iarg p _ h.0)
    also (λ argv iarg p h. other_verb _ argv iarg p _ h.0)
    also (λ argv iarg p h. named_verb _ _ _ argv iarg p _ h)
    also (λ argv iarg p h. other_verb _ argv iarg p _ h.0)
    also (λ argv iarg p h. named_verb _ _ _ argv iarg p _ h)
    also (λ argv iarg p h. named_verb _ _ _ argv iarg p _ h)
    also (λ argv iarg p h. named_verb _ _ _ argv iarg p _ h)
    also (λ argv iarg p h. other_verb _ argv iarg p _ h.0)
    also (λ argv iarg p h. named_verb _ _ _ argv iarg p _ h)
    also (λ argv iarg p h. named_verb _ _ _ argv iarg p _ h)
    also (λ argv iarg p h. named_verb _ _ _ argv iarg p _ h)
    also (λ argv iarg p h. named_verb _ _ _ argv iarg p _ h)
    also (λ argv iarg p h. other_verb _ argv iarg p _ h.0)
    also (λ argv iarg p h. named_verb _ _ _ argv iarg p _ h)
    also (λ argv iarg p h. named_verb _ _ _ argv iarg p _ h)
    also (λ argv iarg p h. other_verb _ argv iarg p _ h.0)
    also big_dump-Skips drvr
    also get_info-Skips drvr
    also set_distributor-Skips drvr
    also (λ argv iarg p h. named_verb _ _ _ argv iarg p _ h)
    also (λ argv iarg p h. named_verb _ _ _ argv iarg p _ h)
    also (λ argv iarg p h. named_verb _ _ _ argv iarg p _ h)
    also (λ argv iarg p h. other_verb _ argv iarg p _ h.0)
    also (λ argv iarg p h. gut_skips _ _ _ _ _ argv iarg p _ h)
    also (λ argv iarg p h. gut_skips _ _ _ _ _ argv iarg p _ h)
    also (λ argv iarg p h. gut_skips _ _ _ _ _ argv iarg p _ h)
    also (λ argv iarg p h. gut_skips _ _ _ _ _ argv iarg p _ h)
    also (λ argv iarg p h. gut_skips _ _ _ _ _ argv iarg p _ h)
    also (λ argv iarg p h. gut_skips _ _ _ _ _ argv iarg p _ h)
    also (λ argv iarg p h. other_verb _ argv iarg p _ h.0)
    also (λ argv iarg p h. named_verb _ _ _ argv iarg p _ h)
    also (λ argv iarg p h. named_verb _ _ _ argv iarg p _ h)
    also (λ argv iarg p h. named_verb _ _ _ argv iarg p _ h)
    also set_threshold-Skips drvr
    also (λ argv iarg p h. named_verb _ _ _ argv iarg p _ h)
    also (λ argv iarg p h. named_verb _ _ _ argv iarg p _ h)
    also no_more

run-Unknown :
    (table : List (List Str × Decoder)) (rest : List Decoder) (argv : List Str) (iarg : ℕ)
    (p : Acq32Path)
    → AllSkip table
    → Unknown (arg argv iarg) table
    → ltb iarg (length argv) ≡ true
    → run_decoders (map (λ e. e.1) table ++ rest) argv iarg p ≡ run_decoders rest argv iarg p
run-Unknown [] rest argv iarg p no_more unknown e = refl
run-Unknown ((names, decoder) ∷ table) rest argv iarg p (skip also skips) (none, unknown) e =
    run_step decoder (map (λ e. e.1) table ++ rest) argv iarg p e
    ∙ ap (λ r. run_decoders (map (λ e. e.1) table ++ rest) argv r.0 r.1) (skip argv iarg p none)
    ∙ run-Unknown table rest argv iarg p skips unknown e

-- What the bucket makes of a line: the answer, and whether it has written past its 80 characters
abbrev pub rejected : List Str → Acq32Path → Acq32Path
rejected argv p =
    let line = reject_line argv in
    let printed = reply (str line ∷ []) p in
    if leb 80 (length line) then record printed { overrun = true } else printed

bucket_lem :
    (argv : List Str) (p : Acq32Path)
    → arg argv 0 ≢ text "help"
    → do_bucket argv 0 p ≡ (length argv, rejected argv p)
unfolding do_bucket
bucket_lem argv p ne = rw (str_eq_ne (arg argv 0) (text "help") ne) refl

pub run_master :
    (drvr : MasterDriver) (verb : Str) (args : List Str) (p : Acq32Path)
    → Unknown verb (entries drvr)
    → run_decoders (master_decoders drvr) (verb ∷ args) 0 p ≡ taken (rejected (verb ∷ args) p)
unfolding master_decoders
run_master drvr verb args p unknown =
    let argv = verb ∷ args in
    let some_args : ltb 0 (length argv) ≡ true = ground arith in
    ap (λ ds. run_decoders (ds ++ do_bucket ∷ []) argv 0 p) (sym (entries_lem drvr))
    ∙ run-Unknown (entries drvr) (do_bucket ∷ []) argv 0 p (entries-AllSkip drvr) unknown some_args
    ∙ run_step do_bucket [] argv 0 p some_args
    ∙ ap (λ r. run_decoders [] argv r.0 r.1) (bucket_lem argv p unknown.0.0)
    ∙ run_done [] argv (length argv) (rejected argv p) (not_below (length argv))
