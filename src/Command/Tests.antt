-- ===== src/Command/Tests.antt =====
-- Runs of the text commands, and the witnesses.
use acq200_firmware.Prelude.{ℕ, ◌≡◌, refl, arith, true, false, List, [], ◌∷◌, ◌++◌, map, replicate}
use acq200_firmware.Prelude.Int.{ℤ, pos, negsuc, ◌+ℤ◌, ◌≤ℤ◌}
use acq200_firmware.Command.Text.{text, str_eq}
use acq200_firmware.Command.Types.{Acq32Device, Acq32Path, ChannelInfo, MasterDriver, str, reply}
use acq200_firmware.Command.Args.{getargs}
use acq200_firmware.Command.Args.Lines.{Word, bare, quoted, content, render_all}
use acq200_firmware.Command.Args.Separators.{eol, code, getargs-render_all}
use acq200_firmware.Command.Write.{written, acq32_master_write}
use acq200_firmware.Command.Write.Skips.{known, known_in, Unknown-known_in}
use acq200_firmware.Command.Write.Unknown.{entries, rejected}
use acq200_firmware.Command.Write.Rejects.{acq32_master_write-rejected}
use acq200_firmware.Command.Threshold.{volts2bits, max16, min16}
use acq200_firmware.Command.Threshold.Bits.{volts2bits_range}

abbrev no_channels : ChannelInfo
no_channels = record { nchannels = pos 0; vmin10 = pos 0; vmax10 = pos 0 }

abbrev device : Acq32Device
device = record {
  is_acq196 = false;
  pre_actual = pos 0;
  post_actual = pos 100;
  pre_requested = pos 0;
  post_requested = pos 100;
  board_mode = 0;
  channel_mask = 0xffffffff;
  clock_internal = pos 0;
  clock_do = pos 0;
  clock_di = pos 0;
  clock_divisor = pos 1;
  sample_tagging = pos 0;
  dio_dir = 0xf0;
  dio_outputs = 0x50;
  dio_inputs = 0;
  global_sample_id = 0;
  subframe_id = 0;
  streaming = 0;
  input_channels = no_channels;
  output_channels = no_channels;
  sync_dest_masks = replicate 6 0;
}

abbrev path : Acq32Path
path = record {
  device = device;
  is_blocking = true;
  mode = 0;
  text_format = [];
  nsamples = pos 0;
  f_pos = pos 0;
  replies = [];
  overrun = false;
}

-- A driver whose functions succeed and change nothing
abbrev quiet : MasterDriver
quiet = record {
  call = λ m p. (pos 0, p);
  has_get_num_channels = true;
  simulate = false;
  strtol = λ s. pos 0;
  version = [];
}

abbrev words : List Word
words = quoted (text "a \"b\"") ∷ bare (text "100") ∷ []

getargs-render_all_example :
    ((getargs (render_all (bare (text "setMode") ∷ words) ++ code eol ∷ text "getState\n")).argv
      ≡ map content (bare (text "setMode") ∷ words))
    × ((getargs (render_all (bare (text "setMode") ∷ words) ++ code eol ∷ text "getState\n")).next
        ≡ text "getState\n")
getargs-render_all_example =
    getargs-render_all eol (bare (text "setMode")) words (text "getState\n")
      ((refl, refl), (refl, ((refl, refl), tt))) (omega arith) refl

frobnicate_unknown : known_in (text "frobnicate") (entries quiet) ≡ false
unfolding known_in known str_eq
frobnicate_unknown = refl

acq32_master_write-rejected_example :
    (n : ℕ) × (acq32_master_write quiet (text "frobnicate 100\n") path
      ≡ written n (
          reply (str (text "\n") ∷ []) (
            rejected
              (text "frobnicate" ∷ text "100" ∷ [])
              (reply (str (text "ACQ32:") ∷ []) path))))
acq32_master_write-rejected_example =
    acq32_master_write-rejected quiet (bare (text "frobnicate")) (bare (text "100") ∷ []) path
      ((refl, refl), ((refl, refl), tt)) (omega arith) (omega arith)
      (Unknown-known_in (text "frobnicate") (entries quiet) frobnicate_unknown)

abbrev bottom : ℤ
bottom = negsuc 9999

volts2bits_range_example :
    (min16 ≤ℤ volts2bits (bottom +ℤ pos 2500) bottom (bottom +ℤ pos 20000))
    × (volts2bits (bottom +ℤ pos 2500) bottom (bottom +ℤ pos 20000)
        ≤ℤ volts2bits (bottom +ℤ pos 25000) bottom (bottom +ℤ pos 20000))
    × (volts2bits (bottom +ℤ pos 25000) bottom (bottom +ℤ pos 20000) ≤ℤ max16)
    × (volts2bits (bottom +ℤ pos 0) bottom (bottom +ℤ pos 20000) ≡ min16)
    × (volts2bits (bottom +ℤ pos 20000) bottom (bottom +ℤ pos 20000) ≡ max16)
volts2bits_range_example =
    volts2bits_range bottom 20000 2500 25000 (omega arith) (omega arith) (omega arith) (omega arith)
