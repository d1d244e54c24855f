-- ===== src/Driver/Boards.antt =====
-- The commands of acq32_core.c for all boards of a path: acq32_SetModeAll, acq32_SetArmAll and the
-- like, and acq196_SetChannelMaskAll and acq196_GetNumChannelsAll of acq200.c.
pub mod Only
pub mod Path
pub mod Once
use mathlib.Core.Option
use acq200_firmware.Prelude.{
  ℕ, zero, suc, ◌+◌, ◌-◌, ◌*◌, ◌/◌, ◌%◌, ◌^◌, Bool, true, false, ◌&&◌, Option, none, some, List, [],
  ◌∷◌, bit_or, u32, ◌<<<◌, ltb, ◌==◌, ◌!=◌, if◌then◌else◌,
}
use acq200_firmware.Busprot.{set_funcode, set_a1, set_a2}
use acq200_firmware.Busprot.Ci
use acq200_firmware.Busprot.Mode
use acq200_firmware.MaskIterator.{num_enabled_channels}
use acq200_firmware.Driver.Bus.{Bus, Device, Error}
use acq200_firmware.Driver.Send.{
  Want, Response, a3_only, send_command, send_command_a3_a4, send_query,
}
use acq200_firmware.Driver.Commands.{
  on_link, value_or, dev_get_status, dev_get_channel_mask, dev_set_channel_mask,
}
use acq200_firmware.Driver.Slaves.{sis, each_slave}

-- What the commands use of struct Acq32Device beside the fields of Device; the clock's fields with
-- the prefix `clock`, those of nsamples_requested, nsamples_actual and
-- the watchdog of set_arm likewise.
pub record Board (L : Type 0) : Type 0 where
  pub device : Device L
  pub requested_post : ℕ
  pub requested_pre : ℕ
  pub actual_post : ℕ
  pub actual_pre : ℕ
  pub itrigger : ℕ
  pub contains_valid_data : Bool
  pub clock_internal : ℕ
  pub clock_divisor : ℕ
  pub clock_di : ℕ
  pub clock_do : ℕ
  pub sample_tagging : ℕ
  pub dio_dir : ℕ
  pub dio_outputs : ℕ
  pub dio_inputs : ℕ
  pub input_nchannels : ℕ
  pub output_nchannels : ℕ
  pub input_vmax10 : ℕ
  pub output_vmax10 : ℕ
  pub set_arm_busy : Bool
  pub wdt_start : ℕ
  pub wdt_last_poll : ℕ
  pub wdt_scheduled : Bool
  pub cos_inhibit : Bool

-- The driver's devices by their board.
abbrev pub Boards : Type 0 → Type 0
Boards L = ℕ → Board L

unfoldable pub put : {L : Type 0} → ℕ → Board L → Boards L → Boards L
put iboard b w other = if other == iboard then b else w other

-- A step on one board; it gives the error that ends the loop.
abbrev pub on_board :
    {L R : Type 0} → (Board L → Option R × Board L) → ℕ → Boards L → Option R × Boards L
on_board f iboard w = let (stop, b) = f (w iboard) in (stop, put iboard b w)

-- A command of the device alone.
abbrev pub on_device : {L R : Type 0} → (Device L → R × Device L) → Board L → R × Board L
on_device f b = let (r, d) = f b.device in (r, record b { device = d })

abbrev pub on_success :
    {L : Type 0} → (Board L → Board L) → Option Error × Board L → Option Error × Board L
on_success f (some e, b) = (some e, b)
on_success f (none, b) = (none, f b)

abbrev pub then_do :
    {L : Type 0}
    → (Board L → Option Error × Board L)
    → Option Error × Board L
    → Option Error × Board L
then_do f (some e, b) = (some e, b)
then_do f (none, b) = f b

-- acq32_validate_bigbuf
unfoldable pub validate_bigbuf : {L : Type 0} → ℕ → Board L → Board L
validate_bigbuf set_valid b = record b {
  actual_post = if ltb 1 set_valid then set_valid else b.actual_post;
  contains_valid_data = set_valid != 0;
}

-- The int -1
abbrev pub minus_one : ℕ
minus_one = 2 ^ 32 - 1

-- The function code of acq32_SetModeAll, and the DIx with the flags of the two module parameters.
pub mode_funcode : ℕ → ℕ → ℕ
mode_funcode mode presamples =
    if (mode == Mode.gated_continuous) && (presamples != minus_one)
    then set_funcode b'G'
    else if (mode == Mode.triggered_continuous) && (presamples != minus_one)
    then set_funcode b'H'
    else set_funcode b'M'

pub trigger_flags : Bool → Bool → ℕ → ℕ
trigger_flags debounce_clk enable_emtrig_bit trigger_di =
    let debounced = if debounce_clk then bit_or trigger_di 0x80 else trigger_di in
    if enable_emtrig_bit then debounced else bit_or debounced 0x40

-- One board's channel mask from the text, and whether the text has ended; `bit_of` is the bit of a
-- channel. `none` is a read behind the text's end. The text has its NUL at the end.
pub mask_from : (ℕ → ℕ) → ℕ → ℕ → ℕ → List ℕ → Option (ℕ × Bool × List ℕ)
mask_from bit_of zero ichannel_board mask smask = some (mask, false, smask)
mask_from bit_of (suc left) ichannel_board mask [] = none
mask_from bit_of (suc left) ichannel_board mask (ch ∷ []) = none
mask_from bit_of (suc left) ichannel_board mask (ch ∷ next ∷ smask) =
    let with_ch = if ch == b'1' then bit_or mask (bit_of ichannel_board) else mask in
    let rest = mask_from bit_of left (ichannel_board + 1) with_ch (next ∷ smask) in
    if next == 0 then some (with_ch, true, next ∷ smask) else rest

-- How acq32_SetChannelMaskAll ends: with a return of 0, or by a read behind the text.
pub data MaskEnd : Type 0 where
  finished overrun : MaskEnd

module _ {L : Type 0} (bus : Bus L) where
  -- A command word with its a3 and a4.
  abbrev pub send_args : ℕ → ℕ → Option ℕ → Board L → Option Error × Board L
  send_args command a3 a4 =
      on_device λ d. on_link bus (send_command_a3_a4 bus d.use_interrupts command ((a3, a4) ∷ [])) d

  abbrev pub send : ℕ → Board L → Option Error × Board L
  send command = on_device λ d. on_link bus (send_command bus d.use_interrupts command) d

  abbrev pub ask : ℕ → Want → Board L → Option Error × Response × Board L
  ask command want b =
      let (error, response, link) =
        send_query bus b.device.use_interrupts command want b.device.link in
      (error, response, record b { device = record b.device { link = link } })

  -- The bodies of the loops.
  pub set_mode_of : Bool → Bool → ℕ → ℕ → ℕ → ℕ → Board L → Option Error × Board L
  set_mode_of debounce_clk enable_emtrig_bit mode samples presamples trigger_di b =
      let flags = trigger_flags debounce_clk enable_emtrig_bit trigger_di in
      let command = bit_or (bit_or (mode_funcode mode presamples) (set_a1 mode)) (set_a2 flags) in
      let asked = record b {
        device = record b.device { mode = mode };
        requested_post = samples;
        requested_pre = presamples;
      } in
      send_args command samples (some presamples) asked

  unfoldable pub set_arm_of : Board L → Option Error × Board L
  set_arm_of b = on_success (validate_bigbuf 0) (send (set_funcode b'A') b)

  pub set_abort_of : Board L → Option Error × Board L
  set_abort_of = send (set_funcode b'Z')

  abbrev pub keep_clock : Option Error × Response × Board L → Option Error × Board L
  keep_clock (some e, response, b) = (some e, b)
  keep_clock (none, response, b) =
      (none, record b { clock_internal = value_or b.clock_internal response.a3 })

  pub set_internal_clock_of : ℕ → ℕ → Board L → Option Error × Board L
  set_internal_clock_of freq do_x b =
      then_do (λ sent. keep_clock (ask (bit_or Ci.done (set_funcode b'i')) a3_only sent))
        (send_args (set_funcode b'i' + set_a2 do_x) freq none b)

  pub set_external_clock_of : ℕ → ℕ → ℕ → Board L → Option Error × Board L
  set_external_clock_of divisor di_x do_x =
      send_args (set_funcode b'e' + set_a1 di_x + set_a2 do_x) divisor none

  -- acq32_BlockTillStopped: the timer runs acq32_BlockTillStoppedTask until the board has stopped or
  -- a signal ends the sleep, which comes after `ticks` runs. It returns 0 in either case.
  pub block_till_stopped : ℕ → Device L → Device L
  block_till_stopped zero d = d
  block_till_stopped (suc ticks) d =
      let (state, polled) = dev_get_status bus d in
      elim (state == 0) [
        | true ↦ record polled { state = 0 }
        | false ↦ block_till_stopped ticks polled
      ]

  pub block_of : ℕ → Board L → Option Error × Board L
  block_of ticks = on_device λ d.
      let (state, polled) = dev_get_status bus d in
      (none, if state != 0 then block_till_stopped ticks polled else polled)

  module _ (ndevs minor own : ℕ) where
    abbrev pub for_all :
        {R : Type 0} → (Board L → Option R × Board L) → Boards L → Option (Option R × Boards L)
    for_all f = each_slave ndevs minor own (on_board f) (suc (suc ndevs)) sis

    -- acq32_SetModeAll
    pub set_mode_all : Bool → Bool → ℕ → ℕ → ℕ → ℕ → Boards L → Option (Option Error × Boards L)
    set_mode_all debounce_clk enable_emtrig_bit mode samples presamples trigger_di =
        for_all (set_mode_of debounce_clk enable_emtrig_bit mode samples presamples trigger_di)

    -- acq32_SetArmAll
    unfoldable pub set_arm_all : Boards L → Option (Option Error × Boards L)
    set_arm_all = for_all set_arm_of

    -- acq32_SetAbortAll
    pub set_abort_all : Boards L → Option (Option Error × Boards L)
    set_abort_all = for_all set_abort_of

    -- acq32_BlockTillStoppedAll
    pub block_till_stopped_all : ℕ → Boards L → Option (Option Error × Boards L)
    block_till_stopped_all ticks = for_all (block_of ticks)

    -- acq32_SetInternalClockAll and acq32_SetExternalClockAll: the path's own clock goes to all.
    pub set_internal_clock_all : Boards L → Option (Option Error × Boards L)
    set_internal_clock_all w =
        for_all (set_internal_clock_of (w own).clock_internal ((w own).clock_do % 256)) w

    pub set_external_clock_all : Boards L → Option (Option Error × Boards L)
    set_external_clock_all w =
        let clock = w own in
        for_all
          (set_external_clock_of clock.clock_divisor (clock.clock_di % 256) (clock.clock_do % 256))
          w

    -- acq32_SetSampleTaggingAll
    pub set_sample_tagging_all : Boards L → Option (Option Error × Boards L)
    set_sample_tagging_all =
        each_slave ndevs minor own
          (λ iboard w.
            on_board (send (bit_or (set_funcode b'T') (set_a1 (w own).sample_tagging))) iboard w)
          (suc (suc ndevs)) sis

    -- A round of acq32_SetChannelMaskAll; the answer of the board is not looked at.
    pub set_channel_mask_on :
        (ℕ → ℕ) → ℕ → ℕ → List ℕ × Boards L → Option MaskEnd × (List ℕ × Boards L)
    set_channel_mask_on bit_of boost iboard (smask, w) =
        let d = (w iboard).device in
        elim (mask_from bit_of d.nchannels 0 0 smask) [
          | none ↦ (some overrun, (smask, w))
          | some (mask, last, rest) ↦
              let set =
                (dev_set_channel_mask bus mask boost (record d { channel_mask = mask })).1 in
              (
                if last then some finished else none,
                (rest, put iboard (record (w iboard) { device = set }) w),
              )
        ]

    -- acq32_SetChannelMaskAll and acq196_SetChannelMaskAll; `none` as the result is -ENODEV.
    pub set_channel_mask_all : ℕ → List ℕ × Boards L → Option (Option MaskEnd × (List ℕ × Boards L))
    set_channel_mask_all boost =
        each_slave ndevs minor own (set_channel_mask_on (λ ch. 2 ^ ch) boost) (suc (suc ndevs)) sis

    pub acq196_set_channel_mask_all :
        ℕ → List ℕ × Boards L → Option (Option MaskEnd × (List ℕ × Boards L))
    acq196_set_channel_mask_all boost =
        each_slave ndevs minor own (set_channel_mask_on (λ ch. 2 ^ (ch / 32)) boost)
          (suc (suc ndevs)) sis

    -- A round of acq32_GetNumChannelsAll, with the count so far; `each` is what a bit stands for.
    pub get_num_channels_on : ℕ → ℕ → ℕ × Boards L → Option Error × (ℕ × Boards L)
    get_num_channels_on each iboard (nchannels, w) =
        let (error, mask, asked) = dev_get_channel_mask bus (w iboard).device in
        elim error [
          | some e ↦ (some e, (nchannels, put iboard (record (w iboard) { device = asked }) w))
          | none ↦
              let kept = record asked { channel_mask = value_or asked.channel_mask mask } in
              (
                none,
                (
                  nchannels + num_enabled_channels kept.channel_mask * each,
                  put iboard (record (w iboard) { device = kept }) w,
                ),
              )
        ]

    -- acq32_GetNumChannelsAll and acq196_GetNumChannelsAll
    pub get_num_channels_all : Boards L → Option (Option Error × (ℕ × Boards L))
    get_num_channels_all w =
        each_slave ndevs minor own (get_num_channels_on 1) (suc (suc ndevs)) sis (0, w)

    pub acq196_get_num_channels_all : Boards L → Option (Option Error × (ℕ × Boards L))
    acq196_get_num_channels_all w =
        each_slave ndevs minor own (get_num_channels_on 32) (suc (suc ndevs)) sis (0, w)
