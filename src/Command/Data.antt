-- ===== src/Command/Data.antt =====
-- The decoders of acq32_command.c for the format, the position and the limit of what is read, and
-- for streaming.
use acq200_firmware.Prelude.{
  ℕ, ◌+◌, Option, none, some, List, [], ◌∷◌, length, drop, bit_or, bit_and, ltb, ◌==◌,
  if◌then◌else◌,
}
use acq200_firmware.Prelude.Int.{ℤ, pos, ◌+ℤ◌, ◌-ℤ◌, ltb_ℤ, word_of}
use acq200_firmware.Command.Text.{Str, text, str_eqnl}
use acq200_firmware.Command.Types.{
  Acq32Path, MasterDriver, Decoder, str, Method, arg, reply, help_or,
}
use acq200_firmware.Command.Capture.{verb_is}

-- DEF_FMT
pub def_fmt : ℕ → Str
def_fmt mode = if mode == 2 then text "%5d" else if mode == 3 then text "%8s" else text "0x%04x"

-- What a word of the format command does: it ends the command, it replaces the mode, or it adds to it.
pub data Format : Type 0 where
  binary exclusive option : ℕ → Format

pub format_of : Str → Option Format
format_of token =
    if str_eqnl token (text "bin")
    then some (Format.binary 0)
    else if str_eqnl token (text "bigendian")
    then some (Format.binary 4)
    else if str_eqnl token (text "hex")
    then some (Format.exclusive 1)
    else if str_eqnl token (text "dec")
    then some (Format.exclusive 2)
    else if str_eqnl token (text "volts")
    then some (Format.exclusive 3)
    else if str_eqnl token (text "lines")
    then some (Format.option 0x40)
    else if str_eqnl token (text "dos")
    then some (Format.option 0x80)
    else none

abbrev bad_key : Acq32Path → Acq32Path
bad_key p = reply (str (text "ERROR:bad key\n") ∷ []) p

-- The loop over the words, the first of which stands at `iarg`
pub format_from : List Str → ℕ → ℕ → Acq32Path → ℕ × Acq32Path
format_from [] iarg_orig iarg p = (iarg, record p { text_format = def_fmt (bit_and p.mode 0xf) })
format_from (token ∷ tokens) iarg_orig iarg p = elim (format_of token) [
  | none ↦ (iarg_orig, bad_key p)
  | some format ↦ elim format [
    | binary mode ↦ (iarg + 1, record p { mode = mode; text_format = [] })
    | exclusive mode ↦ format_from tokens iarg_orig (iarg + 1) (record p { mode = mode })
    | option bits ↦ format_from tokens iarg_orig (iarg + 1) (record p { mode = bit_or p.mode bits })
  ]
]

unfoldable pub do_format : Decoder
do_format argv iarg p =
    help_or (text "format") (text "formatted output (small data sets only)") argv iarg p (
      if verb_is argv iarg (text "format")
      then format_from (drop (iarg + 1) argv) iarg (iarg + 1) p
      else (iarg, p))

-- Where seek goes from a word and a number; loff_t does not overflow here.
pub seek_to : Str → ℤ → Acq32Path → Option ℤ
seek_to token n p =
    let n_pretrigger = p.device.pre_actual in
    if str_eqnl token (text "start")
    then some n
    else if str_eqnl token (text "end")
    then some (p.device.post_actual +ℤ n_pretrigger -ℤ n)
    else if str_eqnl token (text "current")
    then some (p.f_pos +ℤ n)
    else if str_eqnl token (text "trig")
    then some (n_pretrigger +ℤ n)
    else none

abbrev pub max_ℤ : ℤ → ℤ → ℤ
max_ℤ a b = if ltb_ℤ a b then b else a

abbrev pub min_ℤ : ℤ → ℤ → ℤ
min_ℤ a b = if ltb_ℤ b a then b else a

module _ (drvr : MasterDriver) where
  -- The counts of samples are fetched when there is no post count.
  pub with_samples : Acq32Path → Acq32Path
  with_samples p =
      if word_of p.device.post_actual == 0 then (drvr.call Method.get_num_samples p).1 else p

  -- seek <whence> [n], once <whence> is there
  pub seek_command : List Str → ℕ → Acq32Path → ℕ × Acq32Path
  seek_command argv iarg p =
      let given = ltb (iarg + 2) (length argv) in
      let value = if given then arg argv (iarg + 2) else text "0" in
      elim (seek_to (arg argv (iarg + 1)) (drvr.strtol value) p) [
        | none ↦ (iarg, bad_key p)
        | some to ↦
            let n_total = p.device.post_actual +ℤ p.device.pre_actual in
            (
              if given then iarg + 3 else iarg + 2,
              record p { f_pos = min_ℤ (max_ℤ (pos 0) to) n_total },
            )
      ]

  unfoldable pub do_seek : Decoder
  do_seek argv iarg p = help_or (text "seek") (text "seek in data set") argv iarg p (
      if verb_is argv iarg (text "seek")
      then (let q = with_samples p in
          if ltb (iarg + 1) (length argv) then seek_command argv iarg q else (iarg + 1, q))
      else (iarg, p))

  unfoldable pub do_limit : Decoder
  do_limit argv iarg p =
      if verb_is argv iarg (text "limit")
      then (let q = with_samples p in
          let nlimit = drvr.strtol (arg argv (iarg + 1)) in
          if ltb (iarg + 1) (length argv)
          then (if ltb_ℤ (pos 0) nlimit
              then (iarg + 2, record q { nsamples = min_ℤ nlimit q.device.post_actual })
              else (iarg, reply (str (text "ERROR:limit must be greater than 0\n") ∷ []) q))
          else (iarg, q))
      else (iarg, p)

  abbrev start_streaming : ℤ → ℤ → ℤ → ℤ → Acq32Path → Acq32Path
  start_streaming stride mean npairs burst p =
      let on_mean = if word_of mean == 0 then 0 else 0x80000000 in
      let device = record p.device {
        streaming = bit_or on_mean (word_of stride);
        subframe_id = 0;
      } in
      let (total, q) = drvr.call Method.get_num_samples (record p { device = device }) in
      (drvr.call (Method.set_streaming npairs burst) (record q { f_pos = total })).1

  -- stream <stride> <mean> [npairs [burst]]
  unfoldable pub do_streaming : Decoder
  do_streaming argv iarg p =
      let number = λ (i : ℕ). drvr.strtol (arg argv (iarg + i)) in
      if verb_is argv iarg (text "stream")
      then (if ltb (iarg + 2) (length argv)
          then (if ltb (iarg + 3) (length argv)
              then (if ltb (iarg + 4) (length argv)
                  then (iarg + 5, start_streaming (number 1) (number 2) (number 3) (number 4) p)
                  else (iarg + 4, start_streaming (number 1) (number 2) (number 3) (pos 0) p))
              else (iarg + 3, start_streaming (number 1) (number 2) (pos 0) (pos 0) p))
          else (iarg, reply (str (text "ERROR:streamneeds 2 args\n") ∷ []) p))
      else (iarg, p)
