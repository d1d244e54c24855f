-- ===== src/MboxSlave/Handlers/Idle.antt =====
-- No handler of ARM/d-bug/mbox-slave.c leaves a command waiting in the command box.
use acq200_firmware.Prelude.{
  ℕ, zero, suc, ◌+◌, ◌<◌, refl, sym, ap, arith, Bool, true, false, ◌&&◌, not, Option, none, some,
  Option-cases, inl, inr, ◌==◌, leb, if◌then◌else◌,
}
use mathlib.Core.Path.{subst}
use acq200_firmware.Busprot.{Mailbox, get_a1, get_a2, set_a1, set_a2}
use acq200_firmware.Busprot.Ci
use acq200_firmware.MboxSlave.Types.{Slave, Hal, VRange, Outcome, returns, Call, call, ack}
use acq200_firmware.MboxSlave.Types.Idle.{Quiet-ack}
use acq200_firmware.MboxSlave.Report.Idle.{Quiet-report_mode, Quiet-report_state}
use acq200_firmware.MboxSlave.Idle.{Quiet, Idle, Quiet-bit_or, Quiet-bit_and, Quiet-if, Idle-if}
use acq200_firmware.MboxSlave.Handlers.{
  do_set_mode, set_mode, configure_trigger, set_mode_gated_continuous,
  set_mode_triggered_continuous, set_arm, set_abort, set_mask, threshold_all, set_data_threshold,
  get_mask, get_dio, get_num_samples, get_n_channels, range_code, get_range, get_internal_clock,
  set_host_dmabuf, set_mode_low_latency_control, get_fwrev, get_config, get_cal_info,
  get_capture_stats, cpci_set_route, convert_dioselect, set_internal_clock, clock_from,
  set_external_clock, set_debug, set_led, set_user, cpci_get_route_status,
}

-- What the hardware layer's answers have to fit: counts and route numbers that have a byte of the
-- command box, and a low latency control loop that ends with no command waiting.
pub record FitsBox (hal : Hal) : Type 0 where
  pub ai_fits : hal.ai_count < 256
  pub ao_fits : hal.ao_count < 256
  pub func_fits : hal.func_state < 256
  pub llc_quiet : (m : Mailbox) → Quiet (hal.after_llc m).command

-- A choice between words that have no bit in the upper half.
low_if : (b : Bool) (x y : ℕ) → x < 65536 → y < 65536 → (if b then x else y) < 65536
low_if true x y p q = p
low_if false x y p q = q

range_code_small : (ivr : VRange) → range_code ivr < 6
unfolding range_code
range_code_small ivr = ground arith

range_small :
    (hal : Hal)
    → (if hal.is_acq32
        then set_a1 1 + set_a2 1
        else if hal.is_acq16
        then set_a1 5
        else set_a1 (range_code hal.v_range))
      < 65536
range_small hal =
    low_if hal.is_acq32 _ _ (omega arith)
      (low_if hal.is_acq16 _ _ (omega arith) (omega (arith, range_code_small hal.v_range)))

low-Quiet : (x : ℕ) → x < 65536 → Quiet x
low-Quiet x h = omega arith

module _ (s : Slave) (p : Quiet s.mbox.command) where
  do_set_mode_lem : (mode pre post : ℕ) → Idle (do_set_mode mode pre post s)
  unfolding do_set_mode
  do_set_mode_lem mode pre post = Quiet-report_mode mode (call (Call.set_mode mode pre post) s) p

  pub set_mode-Idle : Idle (set_mode s)
  unfolding set_mode
  set_mode-Idle = Idle-if _ _ _ (do_set_mode_lem _ _ _) (do_set_mode_lem _ _ _)

  pub set_arm-Idle : (hal : Hal) → Idle (set_arm hal s)
  unfolding set_arm
  set_arm-Idle hal =
      let acked = ack (record s { abort_received = false }) in
      let q = Quiet-ack (record s { abort_received = false }) p in
      Quiet-if (hal.has_started && not hal.has_stopped) (call Call.stop_postprocess acked) acked q q

  pub set_abort-Idle : (hal : Hal) → Idle (set_abort hal s)
  unfolding set_abort
  set_abort-Idle hal = Quiet-report_state hal.state (call Call.set_abort s) p

  pub set_mask-Idle : (hal : Hal) → Idle (set_mask hal s)
  unfolding set_mask
  set_mask-Idle hal = p

  pub get_mask-Idle : Idle (get_mask s)
  unfolding get_mask
  get_mask-Idle = Quiet-bit_or s.mbox.command Ci.a3 p refl

  pub get_dio-Idle : (hal : Hal) → Idle (get_dio hal s)
  unfolding get_dio
  get_dio-Idle hal = Quiet-bit_or s.mbox.command Ci.a3 p refl

  pub get_num_samples-Idle : (hal : Hal) → Idle (get_num_samples hal s)
  unfolding get_num_samples
  get_num_samples-Idle hal = Quiet-bit_or s.mbox.command Ci.a3 p refl

  pub get_n_channels-Idle : (hal : Hal) → FitsBox hal → Idle (get_n_channels hal s)
  unfolding get_n_channels
  get_n_channels-Idle hal fits =
      Quiet-bit_or _ (set_a1 hal.ai_count + set_a2 hal.ao_count)
        (Quiet-bit_and s.mbox.command _ refl p) (omega (arith, fits.ai_fits, fits.ao_fits))

  pub get_range-Idle : (hal : Hal) → Idle (get_range hal s)
  unfolding get_range
  get_range-Idle hal =
      Quiet-bit_or _ _ (Quiet-bit_and s.mbox.command _ refl p) (low-Quiet _ (range_small hal))

  pub get_internal_clock-Idle : (hal : Hal) → Idle (get_internal_clock hal s)
  unfolding get_internal_clock
  get_internal_clock-Idle hal = p

  pub set_host_dmabuf-Idle : Idle (set_host_dmabuf s)
  unfolding set_host_dmabuf
  set_host_dmabuf-Idle = p

  pub low_latency-Idle : (hal : Hal) → FitsBox hal → Idle (set_mode_low_latency_control hal s)
  unfolding set_mode_low_latency_control
  low_latency-Idle hal fits = fits.llc_quiet _

  pub get_fwrev-Idle : Idle (get_fwrev s)
  unfolding get_fwrev
  get_fwrev-Idle = Quiet-ack s p

  pub get_config-Idle : Idle (get_config s)
  unfolding get_config
  get_config-Idle = Quiet-ack s p

  pub get_cal_info-Idle : Idle (get_cal_info s)
  unfolding get_cal_info
  get_cal_info-Idle = Quiet-ack s p

  pub get_capture_stats-Idle : Idle (get_capture_stats s)
  unfolding get_capture_stats
  get_capture_stats-Idle = Quiet-ack s p

  pub cpci_set_route-Idle : Idle (cpci_set_route s)
  unfolding cpci_set_route
  cpci_set_route-Idle =
      Idle-if (leb (get_a1 s.mbox.command) 5 && leb (get_a2 s.mbox.command) 0xff) _ _ p p

  pub set_internal_clock-Idle : Idle (set_internal_clock s)
  unfolding set_internal_clock
  set_internal_clock-Idle = p

  pub set_debug-Idle : Idle (set_debug s)
  unfolding set_debug
  set_debug-Idle = p

  pub route_status-Idle : (hal : Hal) → FitsBox hal → Idle (cpci_get_route_status hal s)
  unfolding cpci_get_route_status
  route_status-Idle hal fits =
      Quiet-bit_or s.mbox.command (set_a1 hal.func_state) p (omega (arith, fits.func_fits))

  set_led_lem : (led flags on off flip : ℕ) → Quiet (set_led led flags on off flip s).mbox.command
  unfolding set_led
  set_led_lem led flags on off flip =
      let flashed = if flags == flip then call (Call.led_flash led) s else s in
      let put_off = if flags == off then call (Call.led_off led) s else flashed in
      Quiet-if (flags == on) (call (Call.led_on led) s) put_off p (
        Quiet-if (flags == off) (call (Call.led_off led) s) flashed p
          (Quiet-if (flags == flip) (call (Call.led_flash led) s) s p p))

  clock_from_lem :
      (di : ℕ) (out : Option ℕ) (div : ℕ) → Quiet (clock_from di out div s).mbox.command
  unfolding clock_from
  clock_from_lem di none div = p
  clock_from_lem di (some out) div = p

  configure_trigger_lem : Quiet (configure_trigger s).mbox.command
  unfolding configure_trigger
  configure_trigger_lem = p

threshold_all_lem :
    (left ichan below above : ℕ) (s : Slave)
    → Quiet s.mbox.command
    → Quiet (threshold_all left ichan below above s).mbox.command
unfolding threshold_all
threshold_all_lem zero ichan below above s p = p
threshold_all_lem (suc left) ichan below above s p =
    threshold_all_lem left (ichan + 1) below above _ p

pub set_data_threshold-Idle :
    (hal : Hal) (s : Slave) → Quiet s.mbox.command → Idle (set_data_threshold hal s)
unfolding set_data_threshold
set_data_threshold-Idle hal s p =
    Idle-if (get_a1 s.mbox.command == b'X') _ _ (threshold_all_lem _ _ _ _ s p) p

pub gated_continuous-Idle : (s : Slave) → Quiet s.mbox.command → Idle (set_mode_gated_continuous s)
unfolding set_mode_gated_continuous
gated_continuous-Idle s p = do_set_mode_lem (configure_trigger s) (configure_trigger_lem s p) _ _ _

pub triggered_continuous-Idle :
    (s : Slave) → Quiet s.mbox.command → Idle (set_mode_triggered_continuous s)
unfolding set_mode_triggered_continuous
triggered_continuous-Idle s p =
    do_set_mode_lem (configure_trigger s) (configure_trigger_lem s p) _ _ _

pub set_user-Idle : (s : Slave) → Quiet s.mbox.command → Idle (set_user s)
unfolding set_user
set_user-Idle s p = set_led_lem _ (set_led_lem s p _ _ _ _ _) _ _ _ _ _

-- set_external_clock by the input line that is found.
abbrev clocked : Slave → Option ℕ → Outcome
clocked s line = elim line [
  | none ↦ returns false s
  | some di ↦ returns true (
      call (Call.set_di_inputs (get_a1 s.mbox.command))
        (clock_from di (convert_dioselect (get_a2 s.mbox.command)) s.mbox.a3 s))
]

pub set_external_clock-Idle : (s : Slave) → Quiet s.mbox.command → Idle (set_external_clock s)
unfolding set_external_clock
set_external_clock-Idle s p = elim (Option-cases (convert_dioselect (get_a1 s.mbox.command))) [
  | inl e ↦ subst Idle (sym (ap (clocked s) e)) p
  | inr (di, e) ↦
      subst Idle (sym (ap (clocked s) e))
        (clock_from_lem s p di (convert_dioselect (get_a2 s.mbox.command)) s.mbox.a3)
]
