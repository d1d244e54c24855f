-- ===== src/Command/Types.antt =====
-- What the decoders of acq32_command.c work on: the path of an open file with its device
-- (Acq32Path, Acq32Device), the driver's table of functions (Acq32MasterDriver), and the answers.
use acq200_firmware.Prelude.{ℕ, Bool, Option, List, [], ◌∷◌, ◌++◌, get_or, if◌then◌else◌}
use acq200_firmware.Prelude.Int.{ℤ, is_negative}
use acq200_firmware.Driver.Gut.{Fx, Subject}
use acq200_firmware.Command.Text.{Str, text, str_eq}

-- struct CHANNEL_INFO
pub record ChannelInfo : Type 0 where
  pub nchannels : ℤ
  pub vmin10 : ℤ
  pub vmax10 : ℤ

-- What the commands use of struct Acq32Device, its m_dpd without the prefix.
pub record Acq32Device : Type 0 where
  pub is_acq196 : Bool
  pub pre_actual : ℤ
  pub post_actual : ℤ
  pub pre_requested : ℤ
  pub post_requested : ℤ
  pub board_mode : ℕ
  pub channel_mask : ℕ
  pub clock_internal : ℤ
  pub clock_do : ℤ
  pub clock_di : ℤ
  pub clock_divisor : ℤ
  pub sample_tagging : ℤ
  pub dio_dir : ℕ
  pub dio_outputs : ℕ
  pub dio_inputs : ℕ
  pub global_sample_id : ℕ
  pub subframe_id : ℕ
  pub streaming : ℕ
  pub input_channels : ChannelInfo
  pub output_channels : ChannelInfo
  pub sync_dest_masks : List ℕ

-- A part of an answer: characters, those that %-30s fills up, or a number that %d prints.
pub data Piece : Type 0 where
  str left30 : Str → Piece
  dec : ℤ → Piece

-- struct Acq32Path, and f_pos of its file; `replies` is what has been printed to its read buffer,
-- and `overrun` whether do_bucket_command has written past the end of its line.
pub record Acq32Path : Type 0 where
  pub device : Acq32Device
  pub is_blocking : Bool
  pub mode : ℕ
  pub text_format : Str
  pub nsamples : ℤ
  pub f_pos : ℤ
  pub replies : List Piece
  pub overrun : Bool

-- struct EventConditionDef: the condition alone, with trigger bits, or with a channel and its
-- thresholds below and above.
pub data EventCondition : Type 0 where
  plain : ℕ → EventCondition
  trigger : ℕ → ℕ → EventCondition
  threshold : ℕ → ℤ → ℤ → ℤ → EventCondition

-- The calls of the driver's functions, with their arguments after the path.
pub data Method : Type 0 where
  set_abort set_armed do_bigdump set_internal_clock set_external_clock : Method
  set_sample_tagging set_dio get_dio clock_now reset_gut get_range : Method
  get_num_channels get_num_samples get_state get_available_channels : Method
  get_memory_depth set_distributor set_cal reserve_ao : ℤ → Method
  get_info set_route : ℕ → Method
  set_channel_mask : Option Str → ℤ → Method
  set_mode : ℕ → ℤ → ℤ → ℤ → Method
  set_user set_streaming : ℤ → ℤ → Method
  set_channel : ℤ → ℤ → ℤ → ℤ → Method
  set_threshold : ℤ → ℤ → ℤ → Method
  set_sync_route : ℕ → ℕ → Method
  set_phase : Fx → Subject → ℤ → Method
  get_phase : Fx → Subject → ℕ → Method
  set_event : Fx → Subject → EventCondition → Method
  get_event fire_event : Fx → Subject → Method
  set_clock : Fx → ℕ → Method

-- The table p_md of the device, with the kernel's strtol and the report of the version.
pub record MasterDriver : Type 0 where
  pub call : Method → Acq32Path → ℤ × Acq32Path
  pub has_get_num_channels : Bool
  pub simulate : Bool
  pub strtol : Str → ℤ
  pub version : Str

-- A decoder is given argv and the index iarg, and returns the index after what it has taken.
abbrev pub Decoder : Type 0
Decoder = List Str → ℕ → Acq32Path → ℕ × Acq32Path

abbrev pub arg : List Str → ℕ → Str
arg argv iarg = get_or argv iarg []

-- APR_PRINTF, ACQ32_PATH_READBUFFER_PRINTF
unfoldable pub reply : List Piece → Acq32Path → Acq32Path
reply pieces p = record p { replies = p.replies ++ pieces }

-- A failure of the driver is printed behind `message`.
pub report : Str → ℤ × Acq32Path → Acq32Path
report message (ierrno, p) =
    if is_negative ierrno then reply (str message ∷ dec ierrno ∷ str (text "\n") ∷ []) p else p

-- HELP_PRINTF_RET: the command `help` prints a line and returns 0.
unfoldable pub help_or : Str → Str → List Str → ℕ → Acq32Path → ℕ × Acq32Path → ℕ × Acq32Path
help_or cmd txt argv iarg p rest =
    if str_eq (arg argv iarg) (text "help")
    then (0, reply (left30 cmd ∷ str (text " : ") ∷ str txt ∷ str (text "\n") ∷ []) p)
    else rest
