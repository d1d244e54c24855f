-- ===== src/MboxSlave/Handlers/Unchanged.antt =====
-- Which handlers of ARM/d-bug/mbox-slave.c can refuse a command, and that one which refuses has
-- changed nothing.
use acq200_firmware.Prelude.{
  ℕ, ◌%◌, ◌^◌, ◌&&◌, ◌||◌, ◌≡◌, refl, Bool, true, false, Option, none, some, ◌==◌, leb,
  if◌then◌else◌,
}
use acq200_firmware.Busprot.{get_a1, get_a2}
use acq200_firmware.Busprot.Mode
use acq200_firmware.MboxSlave.Types.{Slave, Hal, Outcome, returns, spins, Call, call}
use acq200_firmware.MboxSlave.Handlers.{
  threshold_all, set_mode_gated_continuous, set_mode_triggered_continuous, set_arm, set_abort,
  set_mask, get_mask, get_dio, get_num_samples, get_n_channels, get_range, get_internal_clock,
  set_host_dmabuf, set_mode_low_latency_control, get_fwrev, get_config, get_cal_info,
  get_capture_stats, set_internal_clock, set_debug, set_user, cpci_get_route_status, set_mode,
  do_set_mode, set_data_threshold, cpci_set_route, set_external_clock, convert_dioselect,
  clock_from,
}

-- If the outcome is a refusal, its state is `s`.
abbrev pub Unchanged : Slave → Outcome → Type 0
Unchanged s (returns true t) = Unit
Unchanged s (returns false t) = t ≡ s
Unchanged s spins = Unit

pub Unchanged-if :
    (s : Slave) (b : Bool) (x y : Outcome)
    → Unchanged s x
    → Unchanged s y
    → Unchanged s (if b then x else y)
Unchanged-if s true x y p q = p
Unchanged-if s false x y p q = q

module _ (s : Slave) where
  pub set_mode_gated_continuous-Unchanged : Unchanged s (set_mode_gated_continuous s)
  unfolding set_mode_gated_continuous do_set_mode
  set_mode_gated_continuous-Unchanged = tt

  pub set_mode_triggered_continuous-Unchanged : Unchanged s (set_mode_triggered_continuous s)
  unfolding set_mode_triggered_continuous do_set_mode
  set_mode_triggered_continuous-Unchanged = tt

  pub set_arm-Unchanged : (hal : Hal) → Unchanged s (set_arm hal s)
  unfolding set_arm
  set_arm-Unchanged hal = tt

  pub set_abort-Unchanged : (hal : Hal) → Unchanged s (set_abort hal s)
  unfolding set_abort
  set_abort-Unchanged hal = tt

  pub set_mask-Unchanged : (hal : Hal) → Unchanged s (set_mask hal s)
  unfolding set_mask
  set_mask-Unchanged hal = tt

  pub get_mask-Unchanged : Unchanged s (get_mask s)
  unfolding get_mask
  get_mask-Unchanged = tt

  pub get_dio-Unchanged : (hal : Hal) → Unchanged s (get_dio hal s)
  unfolding get_dio
  get_dio-Unchanged hal = tt

  pub get_num_samples-Unchanged : (hal : Hal) → Unchanged s (get_num_samples hal s)
  unfolding get_num_samples
  get_num_samples-Unchanged hal = tt

  pub get_n_channels-Unchanged : (hal : Hal) → Unchanged s (get_n_channels hal s)
  unfolding get_n_channels
  get_n_channels-Unchanged hal = tt

  pub get_range-Unchanged : (hal : Hal) → Unchanged s (get_range hal s)
  unfolding get_range
  get_range-Unchanged hal = tt

  pub get_internal_clock-Unchanged : (hal : Hal) → Unchanged s (get_internal_clock hal s)
  unfolding get_internal_clock
  get_internal_clock-Unchanged hal = tt

  pub set_host_dmabuf-Unchanged : Unchanged s (set_host_dmabuf s)
  unfolding set_host_dmabuf
  set_host_dmabuf-Unchanged = tt

  pub set_mode_low_latency_control-Unchanged :
      (hal : Hal) → Unchanged s (set_mode_low_latency_control hal s)
  unfolding set_mode_low_latency_control
  set_mode_low_latency_control-Unchanged hal = tt

  pub get_fwrev-Unchanged : Unchanged s (get_fwrev s)
  unfolding get_fwrev
  get_fwrev-Unchanged = tt

  pub get_config-Unchanged : Unchanged s (get_config s)
  unfolding get_config
  get_config-Unchanged = tt

  pub get_cal_info-Unchanged : Unchanged s (get_cal_info s)
  unfolding get_cal_info
  get_cal_info-Unchanged = tt

  pub get_capture_stats-Unchanged : Unchanged s (get_capture_stats s)
  unfolding get_capture_stats
  get_capture_stats-Unchanged = tt

  pub set_internal_clock-Unchanged : Unchanged s (set_internal_clock s)
  unfolding set_internal_clock
  set_internal_clock-Unchanged = tt

  pub set_debug-Unchanged : Unchanged s (set_debug s)
  unfolding set_debug
  set_debug-Unchanged = tt

  pub set_user-Unchanged : Unchanged s (set_user s)
  unfolding set_user
  set_user-Unchanged = tt

  pub cpci_get_route_status-Unchanged : (hal : Hal) → Unchanged s (cpci_get_route_status hal s)
  unfolding cpci_get_route_status
  cpci_get_route_status-Unchanged hal = tt

  pub set_mode-Unchanged : Unchanged s (set_mode s)
  unfolding set_mode do_set_mode
  set_mode-Unchanged =
      let mode = get_a1 s.mbox.command in
      Unchanged-if s ((mode == Mode.gated_transient) || (mode == Mode.soft_transient))
        (do_set_mode mode 0 s.mbox.a3 s) (do_set_mode mode s.mbox.a4 s.mbox.a3 s) tt tt

  pub set_data_threshold-Unchanged : (hal : Hal) → Unchanged s (set_data_threshold hal s)
  unfolding set_data_threshold
  set_data_threshold-Unchanged hal =
      let channel = get_a1 s.mbox.command in
      let below = s.mbox.a3 % 2 ^ 16 in
      let above = s.mbox.a4 % 2 ^ 16 in
      Unchanged-if s (channel == b'X') (returns true (threshold_all hal.ai_count 0 below above s))
        (returns true (call (Call.set_data_threshold channel below above) s)) tt tt

  pub cpci_set_route-Unchanged : Unchanged s (cpci_set_route s)
  unfolding cpci_set_route
  cpci_set_route-Unchanged =
      let func = get_a1 s.mbox.command in
      let dest = get_a2 s.mbox.command in
      Unchanged-if s (leb func 5 && leb dest 0xff)
        (returns true (call (Call.set_route func dest) s)) (returns false s) tt refl

  pub set_external_clock-Unchanged : Unchanged s (set_external_clock s)
  unfolding set_external_clock
  set_external_clock-Unchanged = by_line (convert_dioselect (get_a1 s.mbox.command))
    where
      by_line :
          (line : Option ℕ)
          → Unchanged s (elim line [
            | none ↦ returns false s
            | some di ↦ returns true (
                call
                  (Call.set_di_inputs (get_a1 s.mbox.command))
                  (clock_from di (convert_dioselect (get_a2 s.mbox.command)) s.mbox.a3 s))
          ])
      by_line none = refl
      by_line (some di) = tt
