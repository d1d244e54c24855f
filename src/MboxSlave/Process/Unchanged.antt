-- ===== src/MboxSlave/Process/Unchanged.antt =====
-- A command or query that processMboxCommand refuses has changed nothing.
use acq200_firmware.Prelude.{ℕ, Bool, true, false, refl, ◌==◌, if◌then◌else◌}
use acq200_firmware.Busprot.{get_a1, get_funcode}
use acq200_firmware.MboxSlave.Types.{Slave, Hal, Call, call, Outcome, returns, spins}
use acq200_firmware.MboxSlave.Handlers
use acq200_firmware.MboxSlave.Handlers.Unchanged.{
  Unchanged, set_mode_gated_continuous-Unchanged, set_mode_triggered_continuous-Unchanged,
  set_arm-Unchanged, set_abort-Unchanged, set_mask-Unchanged, get_mask-Unchanged, get_dio-Unchanged,
  get_num_samples-Unchanged, get_n_channels-Unchanged, get_range-Unchanged,
  get_internal_clock-Unchanged, set_host_dmabuf-Unchanged, set_mode_low_latency_control-Unchanged,
  get_fwrev-Unchanged, get_config-Unchanged, get_cal_info-Unchanged, get_capture_stats-Unchanged,
  set_internal_clock-Unchanged, set_debug-Unchanged, set_user-Unchanged,
  cpci_get_route_status-Unchanged, set_mode-Unchanged, set_data_threshold-Unchanged,
  cpci_set_route-Unchanged, set_external_clock-Unchanged,
}
use acq200_firmware.MboxSlave.Process.{short_command, long_command, short_query, long_query}

-- Unchanged, as a type that stays shut where the outcome is a choice.
pub record Keeps (s : Slave) (outcome : Outcome) : Type 0 where
  pub unchanged : Unchanged s outcome

ends : (s : Slave) (outcome : Outcome) → Unchanged s outcome → Keeps s outcome
ends s outcome p = record { unchanged = p }

either :
    (s : Slave) (b : Bool) (x y : Outcome) → Keeps s x → Keeps s y → Keeps s (if b then x else y)
either s true x y p q = p
either s false x y p q = q

module _ (hal : Hal) (command : ℕ) (s : Slave) where
  pub short_command-Keeps : Keeps s (short_command hal command s)
  unfolding short_command
  short_command-Keeps =
      either s (get_funcode command == b'I') _ _
        (ends s (returns true (record s { interrupt_ack = get_a1 s.mbox.command })) tt)
        (either s (get_funcode command == b'd') _ _
          (ends s (returns true (call (Call.set_dio s.mbox.a3 s.mbox.a4) s)) tt)
          (either s (get_funcode command == b'Z') _ _
            (ends s (returns true (record (call Call.set_abort s) { abort_received = true })) tt)
            (either s (get_funcode command == b'S') _ _ (ends s (returns true s) tt) (
              either s (get_funcode command == b'b') _ _
                (ends s (Handlers.set_debug s) (set_debug-Unchanged s))
                (ends s (returns false s) refl)))))

  pub long_command-Keeps : Keeps s (long_command hal command s)
  unfolding long_command
  long_command-Keeps =
      either s (get_funcode command == b'M') _ _
        (ends s (Handlers.set_mode s) (set_mode-Unchanged s))
        (either s (get_funcode command == b'G') _ _
          (ends s (Handlers.set_mode_gated_continuous s) (set_mode_gated_continuous-Unchanged s))
          (either s (get_funcode command == b'H') _ _
            (ends s (Handlers.set_mode_triggered_continuous s)
              (set_mode_triggered_continuous-Unchanged s))
            (either s (get_funcode command == b'L') _ _
              (ends s (Handlers.set_mode_low_latency_control hal s)
                (set_mode_low_latency_control-Unchanged s hal))
              (either s (get_funcode command == b'A') _ _
                (ends s (Handlers.set_arm hal s) (set_arm-Unchanged s hal))
                (either s (get_funcode command == b'Z') _ _
                  (ends s (Handlers.set_abort hal s) (set_abort-Unchanged s hal))
                  (either s (get_funcode command == b'K') _ _
                    (ends s (Handlers.set_mask hal s) (set_mask-Unchanged s hal))
                    (either s (get_funcode command == b'I') _ _
                      (ends s (returns true (record s { interrupt_ack = get_a1 s.mbox.command }))
                        tt)
                      (either s (get_funcode command == b'i') _ _
                        (ends s (Handlers.set_internal_clock s) (set_internal_clock-Unchanged s))
                        (either s (get_funcode command == b'e') _ _
                          (ends s (Handlers.set_external_clock s) (set_external_clock-Unchanged s))
                          (either s (get_funcode command == b'T') _ _ (ends s (returns true s) tt) (
                            either s (get_funcode command == b'B') _ _
                              (ends s (Handlers.set_host_dmabuf s) (set_host_dmabuf-Unchanged s))
                              (either s (get_funcode command == b'S') _ _
                                (ends s (returns true s) tt)
                                (either s (get_funcode command == b'Y') _ _ (ends s spins tt) (
                                  either s (get_funcode command == b'U') _ _
                                    (ends s (returns true s) tt)
                                    (either s (get_funcode command == b't') _ _
                                      (ends s (Handlers.set_data_threshold hal s)
                                        (set_data_threshold-Unchanged s hal))
                                      (either s (get_funcode command == b'y') _ _
                                        (ends s (Handlers.cpci_set_route s)
                                          (cpci_set_route-Unchanged s))
                                        (either s (get_funcode command == b'u') _ _
                                          (ends s (Handlers.set_user s) (set_user-Unchanged s))
                                          (either s (get_funcode command == b'b') _ _
                                            (ends s (Handlers.set_debug s) (set_debug-Unchanged s))
                                            (either s (get_funcode command == 0x80) _ _
                                              (ends s (returns true s) tt)
                                              (ends s (returns false s) refl))))))))))))))))))))

  pub short_query-Keeps : Keeps s (short_query hal command s)
  unfolding short_query
  short_query-Keeps =
      either s (get_funcode command == b'N') _ _
        (ends s (Handlers.get_num_samples hal s) (get_num_samples-Unchanged s hal))
        (either s (get_funcode command == b'K') _ _
          (ends s (Handlers.get_mask s) (get_mask-Unchanged s))
          (either s (get_funcode command == b'd') _ _
            (ends s (Handlers.get_dio hal s) (get_dio-Unchanged s hal))
            (either s (get_funcode command == b'i') _ _
              (ends s (Handlers.get_internal_clock hal s) (get_internal_clock-Unchanged s hal))
              (either s (get_funcode command == b'e') _ _ (ends s (returns true s) tt) (
                either s (get_funcode command == b'y') _ _
                  (ends s (Handlers.cpci_get_route_status hal s)
                    (cpci_get_route_status-Unchanged s hal))
                  (either s (get_funcode command == b'u') _ _ (ends s (returns true s) tt) (
                    either s (get_funcode command == b'n') _ _
                      (ends s (Handlers.get_n_channels hal s) (get_n_channels-Unchanged s hal))
                      (either s (get_funcode command == b'm') _ _
                        (ends s (Handlers.get_range hal s) (get_range-Unchanged s hal))
                        (ends s (returns false s) refl)))))))))

  pub long_query-Keeps : Keeps s (long_query command s)
  unfolding long_query
  long_query-Keeps =
      either s (get_funcode command == b'R') _ _
        (ends s (Handlers.get_fwrev s) (get_fwrev-Unchanged s))
        (either s (get_funcode command == b'V') _ _
          (ends s (Handlers.get_config s) (get_config-Unchanged s))
          (either s (get_funcode command == b'W') _ _
            (ends s (Handlers.get_cal_info s) (get_cal_info-Unchanged s))
            (either s (get_funcode command == b'E') _ _
              (ends s (Handlers.get_capture_stats s) (get_capture_stats-Unchanged s))
              (ends s (returns false s) refl))))
