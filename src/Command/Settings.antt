-- ===== src/Command/Settings.antt =====
-- The decoders of acq32_command.c for clocks, routes and channels.
use acq200_firmware.Prelude.{
  ℕ, ◌+◌, Bool, false, ◌&&◌, ◌||◌, Option, none, some, List, [], ◌∷◌, length, ltb, ◌==◌,
  if◌then◌else◌,
}
use acq200_firmware.Prelude.Int.{ℤ, pos, negsuc, ltb_ℤ}
use acq200_firmware.Command.Text.{Str, text, str_eqnl}
use acq200_firmware.Command.Types.{
  Acq32Device, Acq32Path, MasterDriver, Decoder, str, dec, Method, arg, reply, report, help_or,
}
use acq200_firmware.Command.Tables.{lkup_key, lkup_dix, internal_do_lut, external_do_lut, user_lut}
use acq200_firmware.Command.Capture.{verb_is}

-- channel_lookup; the values are not negative.
pub channel_lookup_from : ℕ → ℤ → List ℕ → ℕ
channel_lookup_from ivalue ikey [] = 0
channel_lookup_from ivalue (pos key) (value ∷ values) =
    if key == value then ivalue else channel_lookup_from (ivalue + 1) (pos key) values
channel_lookup_from ivalue (negsuc key) (value ∷ values) =
    channel_lookup_from (ivalue + 1) (negsuc key) values

pub channel_lookup : ℤ → List ℕ → ℤ
channel_lookup ikey values = pos (channel_lookup_from 0 ikey values)

-- CLAMP( ichannel, 0, 31 )
pub clamp_channel : ℤ → ℤ
clamp_channel ichannel =
    if ltb_ℤ ichannel (pos 0) then pos 0 else if ltb_ℤ (pos 31) ichannel then pos 31 else ichannel

-- The key of setDataRoute
pub route_of : Str → Option ℕ
route_of token =
    if str_eqnl token (text "raw")
    then some 0
    else if str_eqnl token (text "row")
    then some 1
    else if str_eqnl token (text "chan")
    then some 2
    else none

abbrev bad_key : Acq32Path → Acq32Path
bad_key p = reply (str (text "ERROR:bad key\n") ∷ []) p

-- The device of a path, changed.
abbrev pub on_device : (Acq32Device → Acq32Device) → Acq32Path → Acq32Path
on_device change p = record p { device = change p.device }

module _ (drvr : MasterDriver) where
  unfoldable pub do_set_data_route : Decoder
  do_set_data_route argv iarg p =
      help_or (text "setDataRoute") (text "set routing [deprecated]") argv iarg p (
        if verb_is argv iarg (text "setDataRoute")
        then (if ltb (iarg + 1) (length argv)
            then elim (route_of (arg argv (iarg + 1))) [
              | none ↦ (iarg, bad_key p)
              | some route_id ↦ (
                iarg + 2,
                report (text "ERROR: failed ") (drvr.call (Method.set_route route_id) p),
              )
            ]
            else (iarg + 1, p))
        else (iarg, p))

  unfoldable pub do_set_distributor : Decoder
  do_set_distributor argv iarg p =
      help_or (text "setDistributor") (text "set data distributor [expert]") argv iarg p (
        if verb_is argv iarg (text "setDistributor") && ltb (iarg + 1) (length argv)
        then (let dist_id = drvr.strtol (arg argv (iarg + 1)) in
            (
              iarg + 2,
              report (text "ERROR: failed ") (drvr.call (Method.set_distributor dist_id) p),
            ))
        else (iarg, p))

  abbrev start_internal : Acq32Path → Acq32Path
  start_internal p =
      report (text "ERROR:SetInternalClock failed ") (drvr.call Method.set_internal_clock p)

  unfoldable pub do_set_internal_clock : Decoder
  do_set_internal_clock argv iarg p =
      help_or (text "setInternalClock <Hz> [DOx]") (text "set internal clock") argv iarg p (
        if verb_is argv iarg (text "setInternalClock")
        then (if ltb (iarg + 1) (length argv)
            then (let q =
                  on_device
                    (λ d. record d {
                      clock_internal = drvr.strtol (arg argv (iarg + 1));
                      clock_do = pos 0;
                      clock_di = pos 0;
                    })
                    p in
                if ltb (iarg + 2) (length argv)
                then elim (lkup_key (arg argv (iarg + 2)) internal_do_lut) [
                  | none ↦ (
                    iarg,
                    reply
                        (str (text "ERROR:SetInternalClock <freq> [DOx] not ")
                          ∷ str (arg argv (iarg + 2))
                          ∷ str (text "\n")
                          ∷ [])
                        q,
                  )
                  | some line ↦ (
                    iarg + 3,
                    start_internal (on_device (λ d. record d { clock_do = pos line }) q),
                  )
                ]
                else (iarg + 2, start_internal q))
            else (iarg + 1, p))
        else (iarg, p))

  abbrev start_external : ℤ → Acq32Path → Acq32Path
  start_external divisor p = report (text "ERROR:SetInternalClock failed ") (
      drvr.call Method.set_external_clock (on_device (λ d. record d { clock_divisor = divisor }) p))

  -- The divisor and the line of an external clock, from `iarg + 2` on.
  abbrev external_options : List Str → ℕ → Acq32Path → ℕ × Acq32Path
  external_options argv iarg q =
      if ltb (iarg + 2) (length argv)
      then (let divisor = drvr.strtol (arg argv (iarg + 2)) in
          if ltb (iarg + 3) (length argv)
          then elim (lkup_key (arg argv (iarg + 3)) external_do_lut) [
            | none ↦ (iarg, reply (str (text "ERROR:SetExtClock expecting DOx\n") ∷ []) q)
            | some line ↦ (
              iarg + 4,
              start_external divisor (on_device (λ d. record d { clock_do = pos line }) q),
            )
          ]
          else (iarg + 3, start_external divisor q))
      else (iarg + 2, start_external (pos 1) q)

  unfoldable pub do_set_external_clock : Decoder
  do_set_external_clock argv iarg p =
      help_or (text "setExternalClock DIx [<div> DOx]") (text "select ext clock") argv iarg p (
        if verb_is argv iarg (text "setExternalClock")
        then (if ltb (iarg + 1) (length argv)
            then elim (lkup_dix (arg argv (iarg + 1))) [
              | none ↦ (iarg, reply (str (text "ERROR:SetExternalClock needs DIx\n") ∷ []) p)
              | some line ↦ external_options argv iarg (
                  on_device
                    (λ d. record d {
                      clock_di = pos line;
                      clock_internal = pos 0;
                      clock_do = pos 0;
                    })
                    p)
            ]
            else (iarg + 1, p))
        else (iarg, p))

  abbrev is_led : ℤ → Bool
  is_led (pos n) = (n == 3) || (n == 4)
  is_led (negsuc n) = false

  -- __FILE__ and __LINE__, which APR_DPRINTF prints first, are left out.
  unfoldable pub do_set_user : Decoder
  do_set_user argv iarg p =
      help_or (text "setUserLed {3|4} ON OFF FLASH ") (text "acq32cpci only") argv iarg p (
        if verb_is argv iarg (text "setUserLed")
        then (if ltb (iarg + 2) (length argv)
            then (let led_num = drvr.strtol (arg argv (iarg + 1)) in
                if is_led led_num
                then elim (lkup_key (arg argv (iarg + 2)) user_lut) [
                  | none ↦ (
                    iarg + 3,
                    reply
                        (str (text "ERROR: bad mode ")
                          ∷ str (arg argv (iarg + 2))
                          ∷ str (text "\n")
                          ∷ [])
                        p,
                  )
                  | some imode ↦ (
                    iarg + 3,
                    report (text "ERROR:SetUser failed ")
                        (drvr.call (Method.set_user led_num (pos imode)) p),
                  )
                ]
                else (
                  iarg,
                  reply (str (text "setUserLed bad lednum ") ∷ dec led_num ∷ str (text "\n") ∷ [])
                      p,
                ))
            else (iarg + 1, p))
        else (iarg, p))

  unfoldable pub do_get_internal_clock : Decoder
  do_get_internal_clock argv iarg p = help_or (text "getInternalClock") (text "") argv iarg p (
      if verb_is argv iarg (text "getInternalClock")
      then (
        iarg + 1,
        reply (str (text "getInternalClock") ∷ str (text "=") ∷ dec p.device.clock_internal ∷ []) p,
      )
      else (iarg, p))

  unfoldable pub do_set_sample_tagging : Decoder
  do_set_sample_tagging argv iarg p =
      if verb_is argv iarg (text "setSampleTagging")
      then (if ltb (iarg + 1) (length argv)
          then (let tagging = drvr.strtol (arg argv (iarg + 1)) in
              (
                iarg + 2,
                report (text "ERROR:SetSampleTagging failed ") (
                    drvr.call Method.set_sample_tagging
                      (on_device (λ d. record d { sample_tagging = tagging }) p)),
              ))
          else (iarg + 1, p))
      else (iarg, p)

  unfoldable pub do_set_channel : Decoder
  do_set_channel argv iarg p =
      if verb_is argv iarg (text "setChannel")
      then (if ltb (iarg + 4) (length argv)
          then (let ichannel = clamp_channel (drvr.strtol (arg argv (iarg + 1))) in
              let g1 =
                channel_lookup (drvr.strtol (arg argv (iarg + 2))) (1 ∷ 10 ∷ 100 ∷ 1000 ∷ []) in
              let g2 = channel_lookup (drvr.strtol (arg argv (iarg + 3))) (1 ∷ 2 ∷ 4 ∷ 8 ∷ []) in
              let v_ex = channel_lookup (drvr.strtol (arg argv (iarg + 4))) (1 ∷ 2 ∷ 5 ∷ 10 ∷ []) in
              (
                iarg + 5,
                report (text "ERROR:SetChannel() failed ")
                    (drvr.call (Method.set_channel ichannel g1 g2 v_ex) p),
              ))
          else (iarg, reply (str (text "ERROR:setChannelneeds 4 args\n") ∷ []) p))
      else (iarg, p)

  -- do_SetCal and do_ReserveAO
  abbrev with_number : Str → (ℤ → Method) → List Str → ℕ → Acq32Path → ℕ × Acq32Path
  with_number message method argv iarg p =
      if ltb (iarg + 1) (length argv)
      then (iarg + 2, report message (drvr.call (method (drvr.strtol (arg argv (iarg + 1)))) p))
      else (iarg + 1, reply (str (text "ERROR:ReserveAO needs <length>\n") ∷ []) p)

  unfoldable pub do_set_cal : Decoder
  do_set_cal argv iarg p =
      if verb_is argv iarg (text "setCal")
      then with_number (text "ERROR:SetCal failed ") Method.set_cal argv iarg p
      else (iarg, p)

  unfoldable pub do_reserve_ao : Decoder
  do_reserve_ao argv iarg p = help_or (text "reserveAO nsamples") (text "") argv iarg p (
      if verb_is argv iarg (text "reserveAO")
      then with_number (text "ERROR:ReserveAO failed ") Method.reserve_ao argv iarg p
      else (iarg, p))

  -- The wait itself is commented out.
  unfoldable pub do_wait_state : Decoder
  do_wait_state argv iarg p =
      if verb_is argv iarg (text "waitState") then (iarg + 2, p) else (iarg, p)
