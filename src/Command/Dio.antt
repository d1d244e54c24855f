-- ===== src/Command/Dio.antt =====
-- The decoders of acq32_command.c for the channel mask and the digital lines, with the strings that
-- they read (build_DIO) and print (build_DIO_string).
pub mod Lines
use acq200_firmware.Prelude.{
  ℕ, zero, suc, ◌+◌, ◌-◌, ◌^◌, Bool, true, false, ◌&&◌, ◌||◌, Option, none, some, List, [], ◌∷◌,
  ◌++◌, length, bit_or, bit_and, bit_not, ltb, leb, ◌==◌, if◌then◌else◌, replicate,
}
use acq200_firmware.Prelude.Int.{ℤ, pos, negsuc, is_negative, ltb_ℤ}
use acq200_firmware.Busprot.{has}
use acq200_firmware.Command.Text.{Str, text, str_eq, str_eqnl}
use acq200_firmware.Command.Types.{
  Acq32Device, Acq32Path, MasterDriver, Decoder, Piece, str, dec, Method, arg, reply, report,
  help_or,
}
use acq200_firmware.Command.Tables.{lkup_key, lkup_dix, internal_do_lut, external_do_lut, user_lut}
use acq200_firmware.Command.Capture.{verb_is}

-- The characters of bits 0 .. n - 1, from the bit `ibit` on
pub mask_from : ℕ → ℕ → ℕ → Str
mask_from zero ibit mask = []
mask_from (suc left) ibit mask =
    (if has mask (2 ^ ibit) then b'1' else b'0') ∷ mask_from left (ibit + 1) mask

-- The banks of 32 channels of an acq196
pub banks_from : ℕ → ℕ → ℕ → Str
banks_from zero ibit mask = []
banks_from (suc left) ibit mask =
    replicate 32 (if has mask (2 ^ ibit) then b'1' else b'0') ++ banks_from left (ibit + 1) mask

pub channel_mask_text : Acq32Device → Str
channel_mask_text device =
    if device.is_acq196
    then banks_from 3 0 device.channel_mask
    else mask_from 32 0 device.channel_mask

-- The switch of build_DIO, for a character at `ichannel`; `none` is its default.
pub dio_step : ℕ → ℕ → Acq32Device → Option Acq32Device
dio_step ichannel c device =
    let imask = 2 ^ ichannel in
    if c == b'-'
    then some (record device {
      dio_dir = bit_and device.dio_dir (bit_not imask);
      dio_outputs = bit_and device.dio_outputs (bit_not imask);
    })
    else if c == b'1'
    then some (record device {
      dio_dir = bit_or device.dio_dir imask;
      dio_outputs = bit_or device.dio_outputs imask;
    })
    else if c == b'0'
    then some (record device {
      dio_dir = bit_or device.dio_dir imask;
      dio_outputs = bit_and device.dio_outputs (bit_not imask);
    })
    else none

-- build_DIO from a character on; the device keeps what was set before a character that is wrong.
pub build_dio_from : ℕ → ℕ → Str → Acq32Device → Bool × Acq32Device
build_dio_from zero ichannel string device = (true, device)
build_dio_from (suc left) ichannel [] device = (true, device)
build_dio_from (suc left) ichannel (c ∷ string) device = elim (dio_step ichannel c device) [
  | none ↦ (false, device)
  | some next ↦ build_dio_from left (ichannel + 1) string next
]

pub build_dio : Str → Acq32Device → Bool × Acq32Device
build_dio = build_dio_from 32 0

-- The two loops of build_DIO_string
pub inputs_from : ℕ → ℕ → Acq32Device → Str
inputs_from zero ichannel device = []
inputs_from (suc left) ichannel device =
    (if has device.dio_inputs (2 ^ ichannel) then b'H' else b'L')
    ∷ inputs_from left (ichannel + 1) device

abbrev pub output_char : ℕ → Acq32Device → ℕ
output_char ichannel device =
    if has device.dio_dir (2 ^ ichannel) && has device.dio_outputs (2 ^ ichannel)
    then b'1'
    else if has device.dio_dir (2 ^ ichannel)
    then b'0'
    else b'-'

pub outputs_from : ℕ → ℕ → Acq32Device → Str
outputs_from zero ichannel device = []
outputs_from (suc left) ichannel device =
    output_char ichannel device ∷ outputs_from left (ichannel + 1) device

abbrev ct_active : ℕ → Acq32Device → ℕ
ct_active ibit device = if has device.dio_inputs (2 ^ ibit) then b'A' else b'x'

pub dio_text : Acq32Device → Str
dio_text device =
    inputs_from 16 0 device
    ++ (b' ' ∷ outputs_from 16 0 device
        ++ (b' '
            ∷ ct_active 28 device
            ∷ b' '
            ∷ ct_active 24 device
            ∷ ct_active 25 device
            ∷ b' '
            ∷ ct_active 20 device
            ∷ ct_active 21 device
            ∷ []))

module _ (drvr : MasterDriver) where
  unfoldable pub do_get_channel_mask : Decoder
  do_get_channel_mask argv iarg p = help_or (text "getChannelMask") (text "") argv iarg p (
      if verb_is argv iarg (text "getChannelMask")
      then (
        iarg + 1,
        reply (str (text "getChannelMask=") ∷ str (channel_mask_text p.device) ∷ []) p,
      )
      else (iarg, p))

  abbrev built_dio : Bool × Acq32Device → Acq32Path → Acq32Path
  built_dio (true, device) p =
      report (text "ERROR:SetDIO failed: ")
        (drvr.call Method.set_dio (record p { device = device }))
  built_dio (false, device) p =
      reply
        (str (text "ERROR:SetDIO at failed at build_DIO(): ")
          ∷ dec (negsuc 0)
          ∷ str (text "\n")
          ∷ [])
        (record p { device = device })

  unfoldable pub do_set_dio : Decoder
  do_set_dio argv iarg p = help_or (text "setDIO ddddd ") (text "d = [-01]") argv iarg p (
      if verb_is argv iarg (text "setDIO")
      then (if ltb (iarg + 1) (length argv)
          then (iarg + 2, built_dio (build_dio (arg argv (iarg + 1)) p.device) p)
          else (iarg + 1, p))
      else (iarg, p))

  abbrev got_dio : ℤ × Acq32Path → Acq32Path
  got_dio (ierrno, p) =
      if is_negative ierrno
      then reply (str (text "ERROR:GetDIO() failed: ") ∷ dec ierrno ∷ str (text "\n") ∷ []) p
      else reply (str (text "getDIO") ∷ str (text "=") ∷ str (dio_text p.device) ∷ []) p

  unfoldable pub do_get_dio : Decoder
  do_get_dio argv iarg p = help_or (text "getDIO") (text "") argv iarg p (
      if verb_is argv iarg (text "getDIO")
      then (iarg + 1, got_dio (drvr.call Method.get_dio p))
      else (iarg, p))
