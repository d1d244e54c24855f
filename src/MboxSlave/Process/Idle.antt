-- ===== src/MboxSlave/Process/Idle.antt =====
-- Whatever command or query processMboxCommand runs, none waits in the command box afterwards.
use acq200_firmware.Prelude.{ℕ, Bool, true, false, ◌==◌, if◌then◌else◌}
use acq200_firmware.Busprot.{get_a1, get_funcode}
use acq200_firmware.MboxSlave.Types.{Slave, Hal, Call, call, Outcome, returns, spins}
use acq200_firmware.MboxSlave.Handlers
use acq200_firmware.MboxSlave.Handlers.Idle.{
  FitsBox, set_mode-Idle, gated_continuous-Idle, triggered_continuous-Idle, low_latency-Idle,
  set_arm-Idle, set_abort-Idle, set_mask-Idle, set_internal_clock-Idle, set_external_clock-Idle,
  set_host_dmabuf-Idle, set_data_threshold-Idle, cpci_set_route-Idle, set_user-Idle, set_debug-Idle,
  get_num_samples-Idle, get_mask-Idle, get_dio-Idle, get_internal_clock-Idle, route_status-Idle,
  get_n_channels-Idle, get_range-Idle, get_fwrev-Idle, get_config-Idle, get_cal_info-Idle,
  get_capture_stats-Idle,
}
use acq200_firmware.MboxSlave.Idle.{Quiet, Idle}
use acq200_firmware.MboxSlave.Process.{short_command, long_command, short_query, long_query}

-- Idle, as a type that stays shut where the outcome is a choice.
pub record Rests (outcome : Outcome) : Type 0 where
  pub idle : Idle outcome

kept : (b : Bool) (s : Slave) → Quiet s.mbox.command → Rests (returns b s)
kept b s p = record { idle = p }

ends : (outcome : Outcome) → Idle outcome → Rests outcome
ends outcome p = record { idle = p }

either : (b : Bool) (x y : Outcome) → Rests x → Rests y → Rests (if b then x else y)
either true x y p q = p
either false x y p q = q

module _ (hal : Hal) (fits : FitsBox hal) (command : ℕ) (s : Slave) (p : Quiet s.mbox.command) where
  pub short_command-Rests : Rests (short_command hal command s)
  unfolding short_command
  short_command-Rests =
      either (get_funcode command == b'I') _ _
        (kept true (record s { interrupt_ack = get_a1 s.mbox.command }) p)
        (either (get_funcode command == b'd') _ _
          (kept true (call (Call.set_dio s.mbox.a3 s.mbox.a4) s) p)
          (either (get_funcode command == b'Z') _ _
            (kept true (record (call Call.set_abort s) { abort_received = true }) p)
            (either (get_funcode command == b'S') _ _ (kept true s p) (
              either (get_funcode command == b'b') _ _
                (ends (Handlers.set_debug s) (set_debug-Idle s p)) (kept false s p)))))

  pub long_command-Rests : Rests (long_command hal command s)
  unfolding long_command
  long_command-Rests =
      either (get_funcode command == b'M') _ _ (ends (Handlers.set_mode s) (set_mode-Idle s p)) (
        either (get_funcode command == b'G') _ _
          (ends (Handlers.set_mode_gated_continuous s) (gated_continuous-Idle s p))
          (either (get_funcode command == b'H') _ _
            (ends (Handlers.set_mode_triggered_continuous s) (triggered_continuous-Idle s p))
            (either (get_funcode command == b'L') _ _
              (ends (Handlers.set_mode_low_latency_control hal s) (low_latency-Idle s p hal fits))
              (either (get_funcode command == b'A') _ _
                (ends (Handlers.set_arm hal s) (set_arm-Idle s p hal))
                (either (get_funcode command == b'Z') _ _
                  (ends (Handlers.set_abort hal s) (set_abort-Idle s p hal))
                  (either (get_funcode command == b'K') _ _
                    (ends (Handlers.set_mask hal s) (set_mask-Idle s p hal))
                    (either (get_funcode command == b'I') _ _
                      (kept true (record s { interrupt_ack = get_a1 s.mbox.command }) p)
                      (either (get_funcode command == b'i') _ _
                        (ends (Handlers.set_internal_clock s) (set_internal_clock-Idle s p))
                        (either (get_funcode command == b'e') _ _
                          (ends (Handlers.set_external_clock s) (set_external_clock-Idle s p))
                          (either (get_funcode command == b'T') _ _ (kept true s p) (
                            either (get_funcode command == b'B') _ _
                              (ends (Handlers.set_host_dmabuf s) (set_host_dmabuf-Idle s p))
                              (either (get_funcode command == b'S') _ _ (kept true s p) (
                                either (get_funcode command == b'Y') _ _ (ends spins tt) (
                                  either (get_funcode command == b'U') _ _ (kept true s p) (
                                    either (get_funcode command == b't') _ _
                                      (ends (Handlers.set_data_threshold hal s)
                                        (set_data_threshold-Idle hal s p))
                                      (either (get_funcode command == b'y') _ _
                                        (ends (Handlers.cpci_set_route s) (cpci_set_route-Idle s p))
                                        (either (get_funcode command == b'u') _ _
                                          (ends (Handlers.set_user s) (set_user-Idle s p))
                                          (either (get_funcode command == b'b') _ _
                                            (ends (Handlers.set_debug s) (set_debug-Idle s p))
                                            (either (get_funcode command == 0x80) _ _
                                              (kept true s p) (kept false s p))))))))))))))))))))

  pub short_query-Rests : Rests (short_query hal command s)
  unfolding short_query
  short_query-Rests =
      either (get_funcode command == b'N') _ _
        (ends (Handlers.get_num_samples hal s) (get_num_samples-Idle s p hal))
        (either (get_funcode command == b'K') _ _ (ends (Handlers.get_mask s) (get_mask-Idle s p)) (
          either (get_funcode command == b'd') _ _
            (ends (Handlers.get_dio hal s) (get_dio-Idle s p hal))
            (either (get_funcode command == b'i') _ _
              (ends (Handlers.get_internal_clock hal s) (get_internal_clock-Idle s p hal))
              (either (get_funcode command == b'e') _ _ (kept true s p) (
                either (get_funcode command == b'y') _ _
                  (ends (Handlers.cpci_get_route_status hal s) (route_status-Idle s p hal fits))
                  (either (get_funcode command == b'u') _ _ (kept true s p) (
                    either (get_funcode command == b'n') _ _
                      (ends (Handlers.get_n_channels hal s) (get_n_channels-Idle s p hal fits))
                      (either (get_funcode command == b'm') _ _
                        (ends (Handlers.get_range hal s) (get_range-Idle s p hal))
                        (kept false s p)))))))))

  pub long_query-Rests : Rests (long_query command s)
  unfolding long_query
  long_query-Rests =
      either (get_funcode command == b'R') _ _ (ends (Handlers.get_fwrev s) (get_fwrev-Idle s p)) (
        either (get_funcode command == b'V') _ _
          (ends (Handlers.get_config s) (get_config-Idle s p))
          (either (get_funcode command == b'W') _ _
            (ends (Handlers.get_cal_info s) (get_cal_info-Idle s p))
            (either (get_funcode command == b'E') _ _
              (ends (Handlers.get_capture_stats s) (get_capture_stats-Idle s p)) (kept false s p))))
