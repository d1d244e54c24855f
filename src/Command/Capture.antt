-- ===== src/Command/Capture.antt =====
-- The decoders of acq32_command.c that ask for the state of a capture and control it.
use acq200_firmware.Prelude.{
  ℕ, ◌+◌, ◌-◌, Bool, false, ◌&&◌, not, Option, none, some, List, [], ◌∷◌, length, ltb, ◌!=◌,
  if◌then◌else◌,
}
use acq200_firmware.Prelude.Int.{ℤ, pos, negsuc, word_of}
use acq200_firmware.Command.Text.{Str, text, str_eq}
use acq200_firmware.Command.Types.{
  Acq32Path, MasterDriver, Decoder, str, dec, Method, arg, reply, report, help_or,
}
use acq200_firmware.Command.Tables.{
  lkup_key, info_lut, lkup_dix, get_key_from_state, get_key_from_mode, get_mode_from_key,
}

abbrev pub verb_is : List Str → ℕ → Str → Bool
verb_is argv iarg name = str_eq (arg argv iarg) name

-- A number that is given, or the default, and the index after it.
abbrev pub optional : (Str → ℤ) → List Str → ℕ → ℤ → ℤ × ℕ
optional read argv iarg default =
    if ltb iarg (length argv) then (read (arg argv iarg), iarg + 1) else (default, iarg)

module _ (drvr : MasterDriver) where
  unfoldable pub do_get_num_channels : Decoder
  do_get_num_channels argv iarg p =
      if verb_is argv iarg (text "getNumChannels")
      then (let (nchannels, after) =
            if drvr.has_get_num_channels
            then drvr.call Method.get_num_channels p
            else (pos 32, p) in
          (
            iarg + 1,
            reply (str (text "getNumChannels") ∷ str (text "=") ∷ dec nchannels ∷ []) after,
          ))
      else (iarg, p)

  unfoldable pub do_get_memory_depth : Decoder
  do_get_memory_depth argv iarg p =
      if verb_is argv iarg (text "getMemoryDepth")
      then (if ltb (iarg + 1) (length argv)
          then (let channel = drvr.strtol (arg argv (iarg + 1)) in
              let (depth, after) = drvr.call (Method.get_memory_depth channel) p in
              (iarg + 2, reply (str (text "getMemoryDepth=") ∷ dec depth ∷ []) after))
          else (iarg + 1, p))
      else (iarg, p)

  unfoldable pub do_get_num_samples : Decoder
  do_get_num_samples argv iarg p =
      if verb_is argv iarg (text "getNumSamples")
      then (let (total, after) = drvr.call Method.get_num_samples p in
          (
            iarg + 1,
            reply
                (str (text "getNumSamples=")
                  ∷ dec total
                  ∷ str (text " pre=")
                  ∷ dec after.device.pre_actual
                  ∷ str (text " post=")
                  ∷ dec after.device.post_actual
                  ∷ [])
                after,
          ))
      else (iarg, p)

  unfoldable pub do_get_set_num_samples : Decoder
  do_get_set_num_samples argv iarg p =
      if verb_is argv iarg (text "getSetNumSamples")
      then (let (total, after) = drvr.call Method.get_num_samples p in
          (
            iarg + 1,
            reply
                (str (text "getSetNumSamples")
                  ∷ str (text "=")
                  ∷ dec total
                  ∷ str (text " pre=")
                  ∷ dec after.device.pre_requested
                  ∷ str (text " post=")
                  ∷ dec after.device.post_requested
                  ∷ [])
                after,
          ))
      else (iarg, p)

  unfoldable pub do_help : Decoder
  do_help argv iarg p =
      if verb_is argv iarg (text "help")
      then (0, reply (str (text "\n") ∷ str drvr.version ∷ []) p)
      else (iarg, p)

  unfoldable pub do_set_abort : Decoder
  do_set_abort argv iarg p = help_or (text "setAbort") (text "abort capture") argv iarg p (
      if verb_is argv iarg (text "setAbort")
      then (iarg + 1, (drvr.call Method.set_abort p).1)
      else (iarg, p))

  -- The path, and the index after the option of setArm.
  abbrev arm_option : List Str → ℕ → Acq32Path → ℕ × Acq32Path
  arm_option argv iarg p =
      if (iarg != length argv) && verb_is argv iarg (text "nonblocking")
      then (iarg + 1, record p { is_blocking = false })
      else (iarg, p)

  unfoldable pub do_set_arm : Decoder
  do_set_arm argv iarg p = help_or (text "setArm") (text "arm capture") argv iarg p (
      if verb_is argv iarg (text "setArm")
      then (let (next, q) = arm_option argv (iarg + 1) p in
          let armed = record q {
            device = record q.device { global_sample_id = 0; subframe_id = 0 };
          } in
          (next, (drvr.call Method.set_armed armed).1))
      else (iarg, p))

  unfoldable pub do_get_state : Decoder
  do_get_state argv iarg p = help_or (text "getState") (text "get board state") argv iarg p (
      if verb_is argv iarg (text "getState")
      then (let (state, after) = drvr.call Method.get_state p in
          (
            iarg + 1,
            reply (dec state ∷ str (text " ") ∷ str (get_key_from_state (word_of state)) ∷ [])
                after,
          ))
      else (iarg, p))

  unfoldable pub do_get_mode : Decoder
  do_get_mode argv iarg p =
      if verb_is argv iarg (text "getMode")
      then (let mode = p.device.board_mode in
          (
            iarg + 1,
            reply
                (dec (pos mode)
                  ∷ str (text " ")
                  ∷ str (get_key_from_mode mode)
                  ∷ str (text " ")
                  ∷ [])
                p,
          ))
      else (iarg, p)

  unfoldable pub do_big_dump : Decoder
  do_big_dump argv iarg p =
      help_or (text "bigdump") (text "big dump to DMA buf [deprecated]") argv iarg p (
        if not drvr.simulate && verb_is argv iarg (text "bigdump")
        then (iarg + 1, report (text "ERROR:bigdump failed: ") (drvr.call Method.do_bigdump p))
        else (iarg, p))

  unfoldable pub do_get_info : Decoder
  do_get_info argv iarg p =
      if drvr.simulate then (iarg, p) else elim (lkup_key (arg argv iarg) info_lut) [
        | none ↦ (iarg, p)
        | some selector ↦ (
          iarg + 1,
          report (text "ERROR:getInfo() failed: ") (drvr.call (Method.get_info selector) p),
        )
      ]

  unfoldable pub do_set_channel_mask : Decoder
  do_set_channel_mask argv iarg p =
      help_or (text "setChannelMask m1..mmmmm...m32") (text "m = [01], mask channels in pairs") argv
        iarg p
        (if verb_is argv iarg (text "setChannelMask")
          then (let message = text "ERROR:SetChannelMask failed: " in
              if ltb (iarg + 1) (length argv)
              then (let (boost, next) = optional drvr.strtol argv (iarg + 2) (pos 0) in
                  let mask = some (arg argv (iarg + 1)) in
                  (next, report message (drvr.call (Method.set_channel_mask mask boost) p)))
              else (iarg + 1, report message (drvr.call (Method.set_channel_mask none (pos 0)) p)))
          else (iarg, p))

  unfoldable pub do_set_mode : Decoder
  do_set_mode argv iarg p =
      help_or (text "setMode <mode> <postlen>") (text "mode={ SOFT_TRANSIENT, GATED_TRANSIENT ")
        argv iarg p
        (if verb_is argv iarg (text "setMode")
          then (if ltb (iarg + 1) (length argv)
              then elim (get_mode_from_key (arg argv (iarg + 1))) [
                | none ↦ (iarg, reply (str (text "ERROR:SetMode mode not understood\n") ∷ []) p)
                | some mode ↦
                    let (nsamples, next) = optional drvr.strtol argv (iarg + 2) (pos 1) in
                    (
                      next,
                      report (text "ERROR:SetMode failed: ")
                          (drvr.call (Method.set_mode mode nsamples (negsuc 0) (pos 0)) p),
                    )
              ]
              else (iarg, reply (str (text "ERROR:SetMode command - needs mode\n") ∷ []) p))
          else (iarg, p))

  -- lkupDIx of a word that is given, or DIX_DEFAULT; `none` is -1.
  abbrev optional_dix : List Str → ℕ → Option ℕ × ℕ
  optional_dix argv iarg =
      if ltb iarg (length argv) then (lkup_dix (arg argv iarg), iarg + 1) else (some 4, iarg)

  abbrev pub or_minus_one : Option ℕ → ℤ
  or_minus_one none = negsuc 0
  or_minus_one (some x) = pos x

  abbrev bad_dix : Str → Option ℕ → Acq32Path → Acq32Path
  bad_dix key none p =
      reply (str (text "ERROR: failed: diX (") ∷ str key ∷ str (text ") not recognised\n") ∷ []) p
  bad_dix key (some dix) p = p

  -- do_SetModeGatedContinuous and do_SetModeTriggeredContinuous, which differ in their names and mode
  unfoldable pub set_mode_continuous : Str → Str → Str → ℕ → Decoder
  set_mode_continuous verb usage txt mode argv iarg p = help_or usage txt argv iarg p (
      if verb_is argv iarg verb
      then (if ltb (iarg + 1) (length argv)
          then (let (presamples, second) = optional drvr.strtol argv (iarg + 1) (negsuc 0) in
              let (nsamples, third) = optional drvr.strtol argv second (pos 1) in
              let (dix, next) = optional_dix argv third in
              let warned = bad_dix (arg argv (next - 1)) dix p in
              (
                next,
                report (text "ERROR: failed: ") (
                    drvr.call (Method.set_mode mode nsamples presamples (or_minus_one dix)) warned),
              ))
          else (iarg, reply (str (text "ERROR: command - needs mode\n") ∷ []) p))
      else (iarg, p))

  unfoldable pub do_set_mode_gated_continuous : Decoder
  do_set_mode_gated_continuous =
      set_mode_continuous (text "setModeGatedContinuous")
        (text "setModeGatedContinuous <pre> <post>") (text "set pre, post capture") 1

  unfoldable pub do_set_mode_triggered_continuous : Decoder
  do_set_mode_triggered_continuous =
      set_mode_continuous (text "setModeTriggeredContinuous")
        (text "setModeTriggeredContinuous <pre> <post>") (text "set pre post mode") 4
