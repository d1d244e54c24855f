-- ===== src/MboxSlave/Handlers.antt =====
-- The handlers of ARM/d-bug/mbox-slave.c for each command and query, mbox_setMode to
-- mbox_cpci_getRouteStatus.
pub mod Idle
pub mod Unchanged
pub mod Mask
use acq200_firmware.Prelude.{
  ℕ, zero, suc, ◌+◌, ◌-◌, ◌*◌, ◌/◌, ◌%◌, ◌^◌, Bool, true, false, ◌&&◌, ◌||◌, not, Option, none,
  some, bit_and, bit_or, bit_not, ◌==◌, ◌!=◌, leb, if◌then◌else◌,
}
use acq200_firmware.Busprot.{get_a1, get_a2, set_a1, set_a2, clear, has}
use acq200_firmware.Busprot.Ci
use acq200_firmware.Busprot.Mode
use acq200_firmware.MboxSlave.Types.{
  Slave, Hal, VRange, Outcome, returns, spins, Call, call, set_command, set_a3_box, set_a4_box,
  set_status, ack,
}
use acq200_firmware.MboxSlave.Report.{report_state, report_mode}

abbrev success : Slave → Outcome
success s = returns true s

pub do_set_mode : ℕ → ℕ → ℕ → Slave → Outcome
do_set_mode mode pre post s = success (report_mode mode (call (Call.set_mode mode pre post) s))

pub set_mode : Slave → Outcome
set_mode s =
    let mode = get_a1 s.mbox.command in
    if (mode == Mode.gated_transient) || (mode == Mode.soft_transient)
    then do_set_mode mode 0 s.mbox.a3 s
    else do_set_mode mode s.mbox.a4 s.mbox.a3 s

pub configure_trigger : Slave → Slave
configure_trigger s =
    let sel = get_a2 s.mbox.command in
    call (Call.set_ai_trig_dix (bit_and sel (bit_not (bit_or 0x80 0x40)))) s

pub set_mode_gated_continuous : Slave → Outcome
set_mode_gated_continuous s =
    let s' = configure_trigger s in do_set_mode Mode.gated_continuous s'.mbox.a4 s'.mbox.a3 s'

pub set_mode_triggered_continuous : Slave → Outcome
set_mode_triggered_continuous s =
    let s' = configure_trigger s in do_set_mode Mode.triggered_continuous s'.mbox.a4 s'.mbox.a3 s'

pub set_arm : Hal → Slave → Outcome
set_arm hal s =
    let acked = ack (record s { abort_received = false }) in
    let stopped =
      if hal.has_started && not hal.has_stopped then call Call.stop_postprocess acked else acked in
    success (call Call.set_arm stopped)

pub set_abort : Hal → Slave → Outcome
set_abort hal s = success (report_state hal.state (call Call.set_abort s))

-- With acq32_setChannelMask of dataHandling.c.
pub set_mask : Hal → Slave → Outcome
set_mask hal s =
    let mask = hal.available_mask s.mbox.a3 in
    success (call (Call.set_channel_mask s.mbox.a3) (record s { channel_mask = mask }))

-- The loop over the channels of mboxDoSetDataThreshold.
pub threshold_all : ℕ → ℕ → ℕ → ℕ → Slave → Slave
threshold_all zero ichan below above s = s
threshold_all (suc left) ichan below above s =
    threshold_all left (ichan + 1) below above (call (Call.set_data_threshold ichan below above) s)

pub set_data_threshold : Hal → Slave → Outcome
set_data_threshold hal s =
    let channel = get_a1 s.mbox.command in
    let below = s.mbox.a3 % 2 ^ 16 in
    let above = s.mbox.a4 % 2 ^ 16 in
    if channel == b'X'
    then success (threshold_all hal.ai_count 0 below above s)
    else success (call (Call.set_data_threshold channel below above) s)

-- `*mbox( BP_MB_A3 ) = value; *mbox( BP_MB_COMMAND ) |= BP_CI_A3`
abbrev pub answer_a3 : ℕ → Slave → Slave
answer_a3 value s = set_command (bit_or s.mbox.command Ci.a3) (set_a3_box value s)

pub get_mask : Slave → Outcome
get_mask s = success (answer_a3 s.channel_mask s)

pub get_dio : Hal → Slave → Outcome
get_dio hal s = success (answer_a3 hal.dio s)

pub get_num_samples : Hal → Slave → Outcome
get_num_samples hal s = success (answer_a3 hal.post_samples (set_a4_box hal.pre_samples s))

abbrev a1_a2 : ℕ
a1_a2 = bit_or (set_a1 0xff) (set_a2 0xff)

pub get_n_channels : Hal → Slave → Outcome
get_n_channels hal s =
    let command = clear s.mbox.command a1_a2 in
    success (set_command (bit_or command (set_a1 hal.ai_count + set_a2 hal.ao_count)) s)

-- The code of an acq200's input range.
pub range_code : VRange → ℕ
range_code ivr =
    if ivr.lt_1 || ivr.gt_5
    then 1
    else if ivr.lt_2
    then 4
    else if ivr.lt_2p5
    then 5
    else if ivr.le_5
    then 2
    else 0

pub get_range : Hal → Slave → Outcome
get_range hal s =
    let command = clear s.mbox.command a1_a2 in
    let range =
      if hal.is_acq32
      then set_a1 1 + set_a2 1
      else if hal.is_acq16
      then set_a1 5
      else set_a1 (range_code hal.v_range) in
    success (set_command (bit_or command range) s)

pub get_internal_clock : Hal → Slave → Outcome
get_internal_clock hal s = success (set_a3_box hal.internal_clock s)

pub set_host_dmabuf : Slave → Outcome
set_host_dmabuf s =
    let s' = call (Call.init_buffers s.mbox.a3 s.mbox.a4) s in
    success (
      call (Call.init_host_window_mapping s.mbox.a4)
        (record s' { hb_base = s.mbox.a3; hb_len = s.mbox.a4 }))

pub set_mode_low_latency_control : Hal → Slave → Outcome
set_mode_low_latency_control hal s =
    let a1 = get_a1 s.mbox.command in
    let clocked =
      if has a1 0x80
      then call (Call.ll_soft_clock (has a1 0x20) (has a1 0x10) (has a1 0x01)) s
      else call (Call.ll_ext_clock (has a1 0x20) (has a1 0x10) (has a1 0x02) s.mbox.a3) s in
    let timed = call (Call.ll_rt_clock_timing (has a1 0x04)) clocked in
    let cleared =
      set_status 0
        (let c = set_a3_box 0 (set_command 0 timed) in if has a1 0x08 then c else set_a4_box 0 c) in
    let ran = call Call.do_low_latency_control cleared in
    success (record ran { mbox = hal.after_llc ran.mbox })

pub get_fwrev : Slave → Outcome
get_fwrev s = success (call Call.get_fwrev (ack s))

pub get_config : Slave → Outcome
get_config s = success (call Call.get_config (ack s))

pub get_cal_info : Slave → Outcome
get_cal_info s = success (call Call.get_cal_info (ack s))

pub get_capture_stats : Slave → Outcome
get_capture_stats s =
    let s' = ack s in success (call (Call.get_capture_stats (get_a1 s'.mbox.command)) s')

pub cpci_set_route : Slave → Outcome
cpci_set_route s =
    let func = get_a1 s.mbox.command in
    let dest = get_a2 s.mbox.command in
    if leb func 5 && leb dest 0xff
    then success (call (Call.set_route func dest) s)
    else returns false s

-- convert_ACQ32_DIOSELECT_to_INT_CLKSRC and convert_ACQ32_DIOSELECT_to_CLKSEL: both give line n
-- for the mask of bit n, up to 5; `none` is a return of 0.
pub convert_dioselect : ℕ → Option ℕ
convert_dioselect mask =
    if mask == 1
    then some 0
    else if mask == 2
    then some 1
    else if mask == 4
    then some 2
    else if mask == 8
    then some 3
    else if mask == 16
    then some 4
    else if mask == 32
    then some 5
    else none

-- The loop of getBitNum over an int.
pub bit_num_from : ℕ → ℕ → ℕ → Option ℕ
bit_num_from zero mask dn = none
bit_num_from (suc fuel) mask dn = elim (bit_and (2 ^ dn) mask == 0) [
  | true ↦ bit_num_from fuel mask (dn + 1)
  | false ↦ some dn
]

-- getBitNum; `none` is -1.
pub get_bit_num : ℕ → Option ℕ
get_bit_num mask = if mask == 0 then none else bit_num_from 32 mask 0

pub set_internal_clock : Slave → Outcome
set_internal_clock s =
    let do_mask = get_a2 s.mbox.command in
    success (call (Call.set_internal_clock s.mbox.a3 (do_mask != 0) (get_bit_num do_mask)) s)

pub clock_from : ℕ → Option ℕ → ℕ → Slave → Slave
clock_from di none div s = call (Call.set_external_clock di div false 0) s
clock_from di (some out) div s = call (Call.set_external_clock di div true out) s

pub set_external_clock : Slave → Outcome
set_external_clock s =
    let di_mask = get_a1 s.mbox.command in
    let do_mask = get_a2 s.mbox.command in
    elim (convert_dioselect di_mask) [
      | none ↦ returns false s
      | some di ↦ success (
          call (Call.set_di_inputs di_mask) (clock_from di (convert_dioselect do_mask) s.mbox.a3 s))
    ]

pub set_debug : Slave → Outcome
set_debug s =
    let level = get_a1 s.mbox.command in
    success (call (Call.speed_debug level) (record s { debug = level }))

-- One LED of mbox_setUser: the flags for on, off and flip.
pub set_led : ℕ → ℕ → ℕ → ℕ → ℕ → Slave → Slave
set_led led flags on off flip s =
    if flags == on
    then call (Call.led_on led) s
    else if flags == off
    then call (Call.led_off led) s
    else if flags == flip
    then call (Call.led_flash led) s
    else s

pub set_user : Slave → Outcome
set_user s =
    let flags = s.mbox.a3 in
    let s' = set_led 3 (bit_and flags 3) 1 2 3 s in
    success (set_led 4 (bit_and flags 0xc) 4 8 0xc s')

pub cpci_get_route_status : Hal → Slave → Outcome
cpci_get_route_status hal s =
    success (set_command (bit_or s.mbox.command (set_a1 hal.func_state)) s)
