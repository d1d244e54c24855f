-- ===== src/MboxSlave/Report/Modes.antt =====
-- The interrupts of mbox_reportState, and what mbox_reportMode and mbox_reportMsecs do to the status
-- word.
use acq200_firmware.Prelude.{
  ℕ, ◌+◌, ◌%◌, ◌^◌, ◌≡◌, ◌≢◌, refl, sym, ◌∙◌, arith, Bool, true, false, bit_or, bit_and_mask, ◌&&◌,
  not, ◌++◌, ◌∷◌, [], inl, inr, Bool-cases, ◌==◌, if◌then◌else◌,
}
use acq200_firmware.Busprot.{
  State, state_code, get_state, get_mode, get_cycle, get_heartbeat, set_heartbeat, clear, has,
  int_status_change,
}
use acq200_firmware.Busprot.Fields.{get_state_lem, get_mode_lem, get_cycle_lem}
use acq200_firmware.Busprot.Masking.{field_kept, field_cleared, field_beside, field_filled}
use acq200_firmware.MboxSlave.Types.{Slave, call, assert_pci_interrupt, set_status}
use acq200_firmware.MboxSlave.Report.{new_status, report_change, report_state, report_msecs}
use acq200_firmware.MboxSlave.Report.Fields.{heartbeat_field}
use acq200_firmware.MboxSlave.Report.Status.{same_state, same_state_lem}

told_calls :
    (b : Bool) (w : ℕ) (s : Slave)
    → (if b
        then call (assert_pci_interrupt int_status_change) (set_status w s)
        else set_status w s).calls
      ≡ (if b then s.calls ++ assert_pci_interrupt int_status_change ∷ [] else s.calls)
told_calls true w s = refl
told_calls false w s = refl

change_calls :
    (state : State) (s : Slave)
    → state ≢ State.unknown
    → (report_change state s).calls ≡ (
        if has s.interrupt_ack int_status_change
        then s.calls ++ assert_pci_interrupt int_status_change ∷ []
        else s.calls)
unfolding report_change
change_calls State.stop s h =
    told_calls (has s.interrupt_ack int_status_change) (new_status State.stop s.mbox.status) s
change_calls State.arm s h =
    told_calls (has s.interrupt_ack int_status_change) (new_status State.arm s.mbox.status) s
change_calls State.run s h =
    told_calls (has s.interrupt_ack int_status_change) (new_status State.run s.mbox.status) s
change_calls State.trigger s h =
    told_calls (has s.interrupt_ack int_status_change) (new_status State.trigger s.mbox.status) s
change_calls State.postprocess s h =
    told_calls (has s.interrupt_ack int_status_change) (new_status State.postprocess s.mbox.status)
      s
change_calls State.capdone s h =
    told_calls (has s.interrupt_ack int_status_change) (new_status State.capdone s.mbox.status) s
change_calls State.unknown s h = absurd (h refl)

-- For a known state, mbox_reportState raises the status change interrupt when the state field
-- changes and the host's mask asks for it, and makes no other call.
pub report_state-calls :
    (state : State) (s : Slave)
    → state ≢ State.unknown
    → (report_state state s).calls ≡ (
        if not (get_state s.mbox.status == state_code state)
          && has s.interrupt_ack int_status_change
        then s.calls ++ assert_pci_interrupt int_status_change ∷ []
        else s.calls)
unfolding report_state
report_state-calls state s h = elim (Bool-cases (same_state state s.mbox.status)) [
  | inl same ↦ rw (sym (same_state_lem state s.mbox.status h) ∙ same, same) refl
  | inr other ↦
      rw (sym (same_state_lem state s.mbox.status h) ∙ other, other) (change_calls state s h)
]

-- mbox_reportMsecs counts in its static and shows the low 12 bits of the count.
pub report_msecs_lem :
    (s : Slave)
    → let new = (report_msecs s).mbox.status in
      (get_heartbeat new ≡ (s.msecs + 1) % 4096)
      × (get_mode new ≡ get_mode s.mbox.status)
      × (get_cycle new ≡ get_cycle s.mbox.status)
      × (get_state new ≡ get_state s.mbox.status)
      × ((report_msecs s).msecs ≡ (s.msecs + 1) % 2 ^ 32)
unfolding report_msecs
report_msecs_lem s =
    let old = s.mbox.status in
    let cleared = clear old (set_heartbeat 0xffff) in
    let count = (s.msecs + 1) % 2 ^ 32 in
    let masked = bit_and_mask 12 count in
    let new = bit_or cleared (set_heartbeat count) in
    (
      heartbeat_field new
          ∙ field_filled 0 12 cleared _ (field_cleared 0 12 old _ refl)
          ∙ omega (arith, masked),
      get_mode_lem new
          ∙ field_beside 24 7 cleared _ (omega (arith, masked))
          ∙ field_kept 24 7 old _ refl
          ∙ sym (get_mode_lem old),
      get_cycle_lem new
          ∙ field_beside 12 4 cleared _ (omega (arith, masked))
          ∙ field_kept 12 4 old _ refl
          ∙ sym (get_cycle_lem old),
      get_state_lem new
          ∙ field_beside 16 8 cleared _ (omega (arith, masked))
          ∙ field_kept 16 8 old _ refl
          ∙ sym (get_state_lem old),
      refl,
    )
