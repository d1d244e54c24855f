-- ===== src/Driver/Single.antt =====
-- The commands of acq32_core.c for the path's own board: acq32_GetNumSamples, acq32_SetDIO,
-- acq32_SetThreshold and the like, and what an open and a release of the device send.
use acq200_firmware.Prelude.{
  ℕ, ◌+◌, ◌%◌, ◌^◌, true, false, ◌&&◌, Option, none, some, bit_or, u32, ◌<<<◌, ◌==◌, if◌then◌else◌,
}
use acq200_firmware.Prelude.Int.{ℤ, word_of}
use acq200_firmware.Busprot.{set_funcode, set_a1, set_a2}
use acq200_firmware.Busprot.Ci
use acq200_firmware.Driver.Bus.{Bus, Error}
use acq200_firmware.Driver.Send.{Want, a3_only}
use acq200_firmware.Driver.Commands.{
  value_or, a1_a2_only, dev_get_status, dev_get_range, dev_set_route, dev_set_streaming,
}
use acq200_firmware.Driver.Boards.{Board, on_device, send, send_args, ask}

-- enum ThresholdSelect, and a channel's number
pub data ThresholdSelect : Type 0 where
  all arm_data_single arm_data_multi arm_edge_single arm_edge_multi arm_fast_multi : ThresholdSelect
  channel : ℕ → ThresholdSelect

-- enum USERLED
pub data UserLed : Type 0 where
  off on flash : UserLed

-- The -1 of acq32_SetUser, or the error of a command
pub data UserError : Type 0 where
  bad_opts : UserError
  failed : Error → UserError

-- The flag for a LED and its mode; other LEDs have none.
pub led_flag : ℕ → UserLed → Option ℕ
led_flag user_led UserLed.off =
    if user_led == 3 then some 0x2 else if user_led == 4 then some 0x8 else none
led_flag user_led UserLed.on =
    if user_led == 3 then some 0x1 else if user_led == 4 then some 0x4 else none
led_flag user_led UserLed.flash =
    if user_led == 3 then some 0x3 else if user_led == 4 then some 0xc else none

-- The route's code in acq32_SetRoute
pub route_code : ℕ → ℕ
route_code iroute = if iroute == 0 then b'r' else if iroute == 2 then b'C' else b'R'

-- The a3 of acq32_SetChannel
pub channel_word : ℕ → ℕ → ℕ → ℕ → ℕ
channel_word ichan g1 g2 vex =
    bit_or (bit_or (bit_or (u32 (ichan <<< 24)) (u32 (g1 <<< 16))) (u32 (g2 <<< 8))) vex

abbrev pub user_error : {L : Type 0} → Option Error × Board L → Option UserError × Board L
user_error (some e, b) = (some (failed e), b)
user_error (none, b) = (none, b)

module _ {L : Type 0} (bus : Bus L) where
  -- acq32_GetNumSamples; the answer's error is not looked at.
  pub get_num_samples : Board L → ℕ × Board L
  get_num_samples b =
      let want : Want = record { a1 = false; a2 = false; a3 = true; a4 = true } in
      let (error, response, asked) = ask bus (bit_or Ci.done (set_funcode b'N')) want b in
      let post = value_or b.actual_post response.a3 in
      let pre = value_or b.actual_pre response.a4 in
      ((post + pre) % 2 ^ 32, record asked { actual_post = post; actual_pre = pre; itrigger = pre })

  -- acq32_SetDIO and acq32_GetDIO
  pub set_dio : Board L → Option Error × Board L
  set_dio b = send_args bus (set_funcode b'd') b.dio_dir (some b.dio_outputs) b

  pub get_dio : Board L → Board L
  get_dio b =
      let (error, response, asked) = ask bus (bit_or Ci.done (set_funcode b'd')) a3_only b in
      record asked { dio_inputs = value_or b.dio_inputs response.a3 }

  -- dev_getAvailableChannels
  pub get_available_channels : Board L → Option Error × Board L
  get_available_channels b =
      let (error, response, asked) = ask bus (bit_or Ci.done (set_funcode b'n')) a1_a2_only b in
      (
        error,
        record asked {
          input_nchannels = value_or b.input_nchannels response.a1;
          output_nchannels = value_or b.output_nchannels response.a2;
        },
      )

  -- acq32_GetRange
  pub get_range : Board L → Option Error × Board L
  get_range b =
      let (error, input, output, d) = dev_get_range bus b.device in
      (
        error,
        record b {
          device = d;
          input_vmax10 = value_or b.input_vmax10 input;
          output_vmax10 = value_or b.output_vmax10 output;
        },
      )

  -- acq32_SetRoute
  pub set_route : ℕ → Board L → Option Error × Board L
  set_route iroute = on_device (dev_set_route bus (route_code iroute))

  -- acq32_SetChannel
  pub set_channel : ℕ → ℕ → ℕ → ℕ → Board L → Option Error × Board L
  set_channel ichan g1 g2 vex = send_args bus (set_funcode b'c') (channel_word ichan g1 g2 vex) none

  -- acq32cpci_SetSyncRoute
  pub set_sync_route : ℕ → ℕ → Board L → Option Error × Board L
  set_sync_route func dest_mask =
      send bus (bit_or (bit_or (set_funcode b'y') (set_a1 func)) (set_a2 dest_mask))

  -- acq32_SetCal
  pub set_cal : ℕ → Board L → Option Error × Board L
  set_cal ical = send bus ((set_funcode b'l' + set_a1 ical) % 2 ^ 32)

  abbrev pub select_trigger : ℕ → Board L → Option Error × Board L
  select_trigger distsel = send bus (set_funcode b's' + set_a1 distsel)

  abbrev pub send_thresholds : ℕ → ℤ → ℤ → Board L → Option Error × Board L
  send_thresholds ch above below =
      send_args bus ((set_funcode b't' + set_a1 ch) % 2 ^ 32) (word_of below) (some (word_of above))

  -- acq32_SetThreshold, the thresholds being shorts
  pub set_threshold : ThresholdSelect → ℤ → ℤ → Board L → Option Error × Board L
  set_threshold ThresholdSelect.arm_data_single above below = select_trigger 0x0d
  set_threshold ThresholdSelect.arm_data_multi above below = select_trigger 0x0e
  set_threshold ThresholdSelect.arm_edge_single above below = select_trigger 0x1d
  set_threshold ThresholdSelect.arm_edge_multi above below = select_trigger 0x1e
  set_threshold ThresholdSelect.arm_fast_multi above below = select_trigger 0x1f
  set_threshold ThresholdSelect.all above below = send_thresholds b'X' above below
  set_threshold (ThresholdSelect.channel ch) above below = send_thresholds ch above below

  -- acq32_SetUser
  pub set_user : ℕ → UserLed → Board L → Option UserError × Board L
  set_user user_led mode b = elim (led_flag user_led mode) [
    | none ↦ (some bad_opts, b)
    | some a3 ↦ user_error (send_args bus (set_funcode b'u') a3 none b)
  ]

  -- acq32_OnOpen, with the address and the length of the device's dmabuf; it returns 0 in any case.
  pub on_open : ℕ → ℕ → Board L → Board L
  on_open pa len b =
      let enabled = (send bus (set_funcode b'I' + set_a1 3) b).1 in
      let given = (send_args bus (set_funcode b'B') pa (some len) enabled).1 in
      let known =
        if (given.input_nchannels == 0) && (given.output_nchannels == 0)
        then (get_range (get_available_channels given).1).1
        else given in
      if b.device.use_interrupts
      then record known { device = (dev_get_status bus known.device).1 }
      else b

  -- acq32_OnRelease, which returns 0 as well
  pub on_release : Board L → Board L
  on_release b =
      let off = record b { device = record b.device { streaming = 0 } } in
      let quiet =
        if b.device.streaming_enabled
        then (on_device (dev_set_streaming bus 0 false) off).1
        else b in
      let polled = record quiet { device = record quiet.device { use_interrupts = false } } in
      if quiet.device.use_interrupts
      then (send bus (set_funcode b'I' + set_a1 0) polled).1
      else quiet
