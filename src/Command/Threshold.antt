-- ===== src/Command/Threshold.antt =====
-- The thresholds of acq32_command.c: volts to bits, the numbers in front of and behind the point of
-- a voltage (INTBUF), decode_threshold, and do_SetThreshold.
pub mod Bits
use acq200_firmware.Prelude.{
  ℕ, zero, suc, ◌+◌, ◌-◌, ◌*◌, Bool, true, false, ◌&&◌, ◌||◌, not, Option, none, some, List, [],
  ◌∷◌, ◌++◌, length, take, replicate, ltb, leb, ◌==◌, if◌then◌else◌,
}
use acq200_firmware.Prelude.Int.{
  ℤ, pos, negsuc, ◌+ℤ◌, ◌-ℤ◌, ◌*ℤ◌, ◌/ℤ◌, is_negative, ltb_ℤ, int_of, word_of, short_of,
}
use acq200_firmware.Command.Text.{Str, text, str_eq}
use acq200_firmware.Command.Types.{
  Acq32Device, Acq32Path, MasterDriver, Decoder, Piece, str, dec, Method, arg, reply, report,
  help_or, ChannelInfo,
}
use acq200_firmware.Command.Tables.{lkup_key}
use acq200_firmware.Command.Capture.{verb_is}

-- MAX16 and MIN16
abbrev pub max16 : ℤ
max16 = pos 32767

abbrev pub min16 : ℤ
min16 = negsuc 32767

-- An int expression, which has wrapped to 32 bits
abbrev pub wrap : ℤ → ℤ
wrap a = int_of (word_of a)

pub clamp16 : ℤ → ℤ
clamp16 bits = if ltb_ℤ max16 bits then max16 else if ltb_ℤ bits min16 then min16 else bits

-- acq32_volts2bits; vmin and vmax differ.
pub volts2bits : ℤ → ℤ → ℤ → ℤ
volts2bits volts vmin vmax =
    let scaled = wrap (pos 0xffff *ℤ wrap (volts -ℤ vmin)) /ℤ wrap (vmax -ℤ vmin) in
    clamp16 (wrap (scaled -ℤ pos 32768))

abbrev pub is_digit : ℕ → Bool
is_digit c = leb b'0' c && leb c b'9'

-- struct INTBUF; ibuf is the length of its string until it is normalised.
pub record IntBuf : Type 0 where
  pub buf : Str
  pub sign : ℤ

abbrev intbuf_init : IntBuf
intbuf_init = record { buf = []; sign = pos 1 }

pub intbuf_append : IntBuf → ℕ → IntBuf
intbuf_append b c = if ltb (length b.buf) 5 then record b { buf = b.buf ++ c ∷ [] } else b

-- intbufNormalise to NORMAL, 1000, which has 3 decades
pub intbuf_normalise : IntBuf → IntBuf
intbuf_normalise b = record b { buf = take 3 (b.buf ++ replicate (3 - length b.buf) b'0') }

pub data Proc : Type 0 where
  proc_units proc_fract proc_done : Proc

pub record Volts : Type 0 where
  pub state : Proc
  pub integer : IntBuf
  pub fraction : IntBuf

-- A character of a voltage, by the state
pub volts_step : Proc → ℕ → Volts → Volts
volts_step proc_units c v =
    if (length v.integer.buf == 0) && (c == b'-')
    then record v {
      integer = record v.integer { sign = negsuc 0 };
      fraction = record v.fraction { sign = negsuc 0 };
    }
    else if is_digit c
    then record v { integer = intbuf_append v.integer c }
    else if c == b'.'
    then record v { state = proc_fract }
    else record v { state = proc_done }
volts_step proc_fract c v =
    if is_digit c
    then record v { fraction = intbuf_append v.fraction c }
    else record v { state = proc_done }
volts_step proc_done c v = v

pub volts_scan : Str → Volts → Volts
volts_scan [] v = v
volts_scan (c ∷ token) v = volts_scan token (volts_step v.state c v)

pub has_char : ℕ → Str → Bool
has_char c [] = false
has_char c (d ∷ s) = (c == d) || has_char c s

abbrev in_range : ℤ → ℤ → ℤ → Bool
in_range x low high = not (ltb_ℤ x low) && not (ltb_ℤ high x)

abbrev pub threshold_lut : List (ℤ × Str)
threshold_lut =
    (negsuc 9, text "BILEVEL")
    ∷ (negsuc 8, text "BILEVEL_MULTI")
    ∷ (negsuc 7, text "EDGE")
    ∷ (negsuc 6, text "EDGE_MULTI")
    ∷ (negsuc 5, text "FAST_MULTI")
    ∷ []

module _ (drvr : MasterDriver) where
  -- A number of thousandths of a volt
  pub decode_volts : Str → ℤ
  decode_volts token =
      let scanned =
        volts_scan token
          (record { state = proc_units; integer = intbuf_init; fraction = intbuf_init }) in
      let integer = scanned.integer in
      let fraction = intbuf_normalise scanned.fraction in
      wrap (
        wrap (wrap (integer.sign *ℤ drvr.strtol integer.buf) *ℤ pos 1000)
        +ℤ wrap (fraction.sign *ℤ drvr.strtol fraction.buf))

  pub decode_threshold : ChannelInfo → Str → ℤ
  decode_threshold input token =
      if has_char b'V' token || has_char b'v' token
      then short_of (
          volts2bits (decode_volts token) (wrap (input.vmin10 *ℤ pos 1000) /ℤ pos 10)
            (wrap (input.vmax10 *ℤ pos 1000) /ℤ pos 10))
      else short_of (drvr.strtol token)

  -- The calls of the driver: its error is printed, and then nothing has been taken.
  abbrev select_or : Str → ℕ → ℕ → ℤ × Acq32Path → ℕ × Acq32Path
  select_or message iarg next (ierrno, p) =
      if is_negative ierrno
      then (iarg, reply (str message ∷ dec ierrno ∷ str (text "\n") ∷ []) p)
      else (next, p)

  abbrev select_threshold : ℤ → ℕ → ℕ → Acq32Path → ℕ × Acq32Path
  select_threshold selector iarg next p =
      select_or (text "ERROR:failed to select threshold distributor ") iarg next
        (drvr.call (Method.set_threshold selector (pos 0) (pos 0)) p)

  abbrev ask : Str → ℕ → Acq32Path → ℕ × Acq32Path
  ask message next p = (next, reply (str message ∷ []) p)

  abbrev channel_set : ℕ → ℕ → ℤ × Acq32Path → ℕ × Acq32Path
  channel_set iarg next (ierrno, p) = if word_of ierrno == 0 then (next, p) else (
    iarg,
    reply (str (text "ERROR: failed to set threshold ") ∷ dec ierrno ∷ str (text "\n") ∷ []) p,
  )

  -- setChannelThreshold <channel> <above> <below>, once the three are there
  pub set_channel_threshold : List Str → ℕ → Acq32Path → ℕ × Acq32Path
  set_channel_threshold argv iarg p =
      let input = p.device.input_channels in
      let channel = drvr.strtol (arg argv (iarg + 1)) in
      if word_of input.nchannels == 0
      then ask (text "ERROR: please try getAvailableChannels first\n") (iarg + 2) p
      else if word_of (input.vmax10 -ℤ input.vmin10) == 0
      then ask (text "ERROR: please try getVoltsRange first\n") (iarg + 2) p
      else if in_range channel (pos 1) input.nchannels
      then channel_set iarg (iarg + 4) (
          drvr.call
            (Method.set_threshold (channel -ℤ pos 1) (decode_threshold input (arg argv (iarg + 2)))
              (decode_threshold input (arg argv (iarg + 3))))
            p)
      else (
        iarg + 2,
        reply
            (str (text "ERROR: please specify channel in range ")
              ∷ dec (pos 1)
              ∷ str (text " .. ")
              ∷ dec input.nchannels
              ∷ str (text "\n")
              ∷ [])
            p,
      )

  -- The first three lines of help are printed and the last returns.
  abbrev threshold_help : List Str → ℕ → Acq32Path → ℕ × Acq32Path
  threshold_help argv iarg p =
      let line = λ (cmd : Str) (q : Acq32Path). (help_or cmd [] argv iarg q (iarg, q)).1 in
      help_or (text "setChannelThreshold") [] argv iarg
        (line (text "selectThresholdDistributor")
          (line (text "selectThresholdDetector") (line (text "clearThresholds") p)))
        (iarg, p)

  abbrev threshold_select : List Str → ℕ → Acq32Path → ℕ × Acq32Path
  threshold_select argv iarg p =
      if ltb (iarg + 1) (length argv)
      then elim (lkup_key (arg argv (iarg + 1)) threshold_lut) [
        | none ↦ (
          iarg,
          reply
              (str (text "ERROR:dont understand selector ")
                ∷ str (arg argv (iarg + 1))
                ∷ str (text "\n")
                ∷ [])
              p,
        )
        | some selector ↦ select_threshold selector iarg (iarg + 2) p
      ]
      else select_threshold (negsuc 9) iarg (iarg + 1) p

  unfoldable pub do_set_threshold : Decoder
  do_set_threshold argv iarg p =
      if verb_is argv iarg (text "help")
      then threshold_help argv iarg p
      else if verb_is argv iarg (text "clearThresholds")
      then select_or (text "ERROR: failed to clear all ") iarg (iarg + 1)
          (drvr.call (Method.set_threshold (pos 99) max16 min16) p)
      else if verb_is argv iarg (text "selectThresholdDetector")
          || verb_is argv iarg (text "selectThresholdDistributor")
      then threshold_select argv iarg p
      else if verb_is argv iarg (text "setChannelThreshold")
      then (if ltb (iarg + 3) (length argv)
          then set_channel_threshold argv iarg p
          else ask (text "ERROR: please declare <channel> <above> <below>\n") iarg p)
      else (iarg, p)
