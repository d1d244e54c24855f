-- ===== src/MboxSlave/Types.antt =====
-- The state of ARM/d-bug/mbox-slave.c: the mailboxes, its globals and statics, and the calls that
-- it makes of the hardware layer (acq200_hal.c, acq32_drv.c, lowlatency.c, stream.c), in order.
pub mod Idle
use acq200_firmware.Prelude.{
  ℕ, Bool, true, false, Option, List, [], ◌∷◌, ◌++◌, bit_or, ◌==◌, if◌then◌else◌,
}
use acq200_firmware.Busprot.{Mailbox, State, has, int_command_ack}
use acq200_firmware.Busprot.Ci

pub data Call : Type 0 where
  assert_pci_interrupt : ℕ → Call
  set_mode : ℕ → ℕ → ℕ → Call
  set_ai_trig_dix : ℕ → Call
  stop_postprocess set_arm set_abort : Call
  set_channel_mask : ℕ → Call
  set_data_threshold : ℕ → ℕ → ℕ → Call
  init_buffers : ℕ → ℕ → Call
  init_host_window_mapping : ℕ → Call
  ll_soft_clock : Bool → Bool → Bool → Call
  ll_ext_clock : Bool → Bool → Bool → ℕ → Call
  ll_rt_clock_timing : Bool → Call
  do_low_latency_control : Call
  get_fwrev get_config get_cal_info : Call
  get_capture_stats : ℕ → Call
  set_route : ℕ → ℕ → Call
  -- The output line is `none` for -1.
  set_internal_clock : ℕ → Bool → Option ℕ → Call
  set_external_clock : ℕ → ℕ → Bool → ℕ → Call
  set_di_inputs : ℕ → Call
  speed_debug : ℕ → Call
  -- USER_LED_ON, _OFF and _FLASH
  led_on led_off led_flash : ℕ → Call
  set_dio : ℕ → ℕ → Call
  -- hasStopped and acq200_service, which the main loop calls
  poll_stopped service : Call

pub record Slave : Type 0 where
  pub mbox : Mailbox
  -- G_command_interrupt_ack
  pub interrupt_ack : ℕ
  -- mbox_abort_received
  pub abort_received : Bool
  -- G_mode
  pub mode : ℕ
  -- the static of mbox_reportMsecs
  pub msecs : ℕ
  -- P_debug
  pub debug : ℕ
  -- G_hb_base and G_hb_len
  pub hb_base : ℕ
  pub hb_len : ℕ
  -- S_channel_mask of dataHandling.c
  pub channel_mask : ℕ
  pub calls : List Call

-- The input range's bound `ivr[0]`, a float: what the code compares it with.
pub record VRange : Type 0 where
  pub lt_1 : Bool
  pub gt_5 : Bool
  pub lt_2 : Bool
  pub lt_2p5 : Bool
  pub le_5 : Bool

-- What the hardware layer answers while one command is processed.
pub record Hal : Type 0 where
  pub state : State
  pub has_started : Bool
  pub has_stopped : Bool
  pub ai_count : ℕ
  pub ao_count : ℕ
  pub dio : ℕ
  pub post_samples : ℕ
  pub pre_samples : ℕ
  pub internal_clock : ℕ
  pub func_state : ℕ
  pub is_acq32 : Bool
  pub is_acq16 : Bool
  pub v_range : VRange
  -- acq200_setChannelMask: the mask that is available for the one asked for
  pub available_mask : ℕ → ℕ
  -- the mailboxes when acq32_doLowLatencyControl returns
  pub after_llc : Mailbox → Mailbox

-- A handler returns what the code does, SUCCESS or 0, and the new state; mboxSpin never returns.
pub data Outcome : Type 0 where
  returns : Bool → Slave → Outcome
  spins : Outcome

abbrev pub call : Call → Slave → Slave
call c s = record s { calls = s.calls ++ c ∷ [] }

abbrev pub set_command : ℕ → Slave → Slave
set_command w s = record s {
  mbox = record { command = w; a3 = s.mbox.a3; a4 = s.mbox.a4; status = s.mbox.status };
}

abbrev pub set_a3_box : ℕ → Slave → Slave
set_a3_box w s = record s {
  mbox = record { command = s.mbox.command; a3 = w; a4 = s.mbox.a4; status = s.mbox.status };
}

abbrev pub set_a4_box : ℕ → Slave → Slave
set_a4_box w s = record s {
  mbox = record { command = s.mbox.command; a3 = s.mbox.a3; a4 = w; status = s.mbox.status };
}

abbrev pub set_status : ℕ → Slave → Slave
set_status w s = record s {
  mbox = record { command = s.mbox.command; a3 = s.mbox.a3; a4 = s.mbox.a4; status = w };
}

-- ack and nack
pub interrupt : Slave → Slave
interrupt s =
    if has s.interrupt_ack int_command_ack
    then call (Call.assert_pci_interrupt int_command_ack) s
    else s

pub ack : Slave → Slave
ack s = interrupt (set_command (bit_or s.mbox.command Ci.ack) s)

pub nack : Slave → Slave
nack s = interrupt s
