-- ===== src/MboxSlave/Report/Status.antt =====
-- What mbox_reportState does to the fields of the status word.
use acq200_firmware.Prelude.{
  ℕ, ◌+◌, ◌*◌, ◌/◌, ◌%◌, ◌<◌, ◌≡◌, ◌≢◌, refl, sym, ap, ◌∙◌, arith, Bool, true, false, bit_and,
  bit_and-mod, bit_and-div, bit_and-zero, ◌&&◌, not, inl, inr, Bool-cases, ◌==◌, ==_iff,
  if◌then◌else◌,
}
use acq200_firmware.Busprot.{State, state_code, get_state, get_cycle, set_state}
use acq200_firmware.Busprot.Fields.{get_cycle_lem}
use acq200_firmware.MboxSlave.Types.{Slave, Call, call}
use acq200_firmware.MboxSlave.Report.{new_status, report_change, report_state}
use acq200_firmware.MboxSlave.Report.Fields.{
  is_arm, Shows, Shows-fields, stated, cycled, stated_state, stated_mode, stated_cycle,
  stated_heartbeat, stated-Shows, cycled_cycle, cycled_mode, cycled_heartbeat, cycled_state,
}

arm_status : (old : ℕ) → Shows State.arm ((get_cycle old + 1) % 16) old (new_status State.arm old)
unfolding new_status
arm_status old =
    let mid = stated 1 old in
    let cycle_mid : get_cycle mid ≡ get_cycle old =
      get_cycle_lem mid ∙ stated_cycle 1 old (omega arith) ∙ sym (get_cycle_lem old) in
    let small : get_cycle mid < 16 = omega (arith, get_cycle_lem mid) in
    let armed = stated_state 1 old (omega arith) in
    Shows-fields State.arm ((get_cycle old + 1) % 16) old (cycled (get_cycle mid) mid)
      (cycled_state (get_cycle mid) mid small armed)
      (cycled_cycle (get_cycle mid) mid small armed ∙ ap (λ c. (c + 1) % 16) cycle_mid)
      (cycled_mode (get_cycle mid) mid small armed ∙ stated_mode 1 old (omega arith))
      (cycled_heartbeat (get_cycle mid) mid small armed ∙ stated_heartbeat 1 old (omega arith))

abbrev next_cycle : State → ℕ → ℕ
next_cycle state old = if is_arm state then (get_cycle old + 1) % 16 else get_cycle old

new_status-Shows :
    (state : State) (old : ℕ)
    → state ≢ State.unknown
    → Shows state (next_cycle state old) old (new_status state old)
unfolding new_status
new_status-Shows State.stop old h = stated-Shows 0 old (omega arith) State.stop refl
new_status-Shows State.arm old h = arm_status old
new_status-Shows State.run old h = stated-Shows 2 old (omega arith) State.run refl
new_status-Shows State.trigger old h = stated-Shows 3 old (omega arith) State.trigger refl
new_status-Shows State.postprocess old h = stated-Shows 4 old (omega arith) State.postprocess refl
new_status-Shows State.capdone old h = stated-Shows 5 old (omega arith) State.capdone refl
new_status-Shows State.unknown old h = absurd (h refl)

-- The word that mbox_reportState compares.
masked_state : (old : ℕ) → bit_and old (set_state 0xff) ≡ get_state old * 65536
masked_state old =
    let low : bit_and old (set_state 0xff) % 65536 ≡ 0 =
      bit_and-mod 16 old (set_state 0xff) ∙ ap (λ t. t % 65536) (bit_and-zero (old % 65536)) in
    let high : bit_and old (set_state 0xff) / 65536 ≡ get_state old =
      bit_and-div 16 old (set_state 0xff) in
    omega (arith, low, high)

code_small : (state : State) → state ≢ State.unknown → state_code state < 256
code_small State.stop h = omega arith
code_small State.arm h = omega arith
code_small State.run h = omega arith
code_small State.trigger h = omega arith
code_small State.postprocess h = omega arith
code_small State.capdone h = omega arith
code_small State.unknown h = absurd (h refl)

-- The test of mbox_reportState.
abbrev pub same_state : State → ℕ → Bool
same_state state old = bit_and old (set_state 0xff) == set_state (state_code state)

pub same_state_lem :
    (state : State) (old : ℕ)
    → state ≢ State.unknown
    → same_state state old ≡ (get_state old == state_code state)
same_state_lem state old h =
    let small = code_small state h in let masked = masked_state old in ground arith

told_status :
    (b : Bool) (c : Call) (s : Slave) → (if b then call c s else s).mbox.status ≡ s.mbox.status
told_status true c s = refl
told_status false c s = refl

report_change_status :
    (state : State) (s : Slave)
    → state ≢ State.unknown
    → (report_change state s).mbox.status ≡ new_status state s.mbox.status
unfolding report_change
report_change_status State.stop s h = told_status _ _ _
report_change_status State.arm s h = told_status _ _ _
report_change_status State.run s h = told_status _ _ _
report_change_status State.trigger s h = told_status _ _ _
report_change_status State.postprocess s h = told_status _ _ _
report_change_status State.capdone s h = told_status _ _ _
report_change_status State.unknown s h = absurd (h refl)

-- The cycle once `state` is reported over `old`.
abbrev pub cycle_after : State → ℕ → ℕ
cycle_after state old =
    if is_arm state && not (get_state old == 1) then (get_cycle old + 1) % 16 else get_cycle old

cycle_kept :
    (state : State) (old : ℕ)
    → (get_state old == state_code state) ≡ true
    → cycle_after state old ≡ get_cycle old
cycle_kept State.arm old e = rw e refl
cycle_kept State.stop old e = refl
cycle_kept State.run old e = refl
cycle_kept State.trigger old e = refl
cycle_kept State.postprocess old e = refl
cycle_kept State.capdone old e = refl
cycle_kept State.unknown old e = refl

cycle_counted :
    (state : State) (old : ℕ)
    → (get_state old == state_code state) ≡ false
    → cycle_after state old ≡ next_cycle state old
cycle_counted State.arm old e = rw e refl
cycle_counted State.stop old e = refl
cycle_counted State.run old e = refl
cycle_counted State.trigger old e = refl
cycle_counted State.postprocess old e = refl
cycle_counted State.capdone old e = refl
cycle_counted State.unknown old e = refl

shown_already :
    (state : State) (old : ℕ)
    → state ≢ State.unknown
    → (get_state old == state_code state) ≡ true
    → Shows state (cycle_after state old) old old
shown_already state old h e = record {
  state_is = (==_iff (get_state old) (state_code state)).0 e;
  cycle_is = sym (cycle_kept state old e);
  mode_kept = refl;
  heartbeat_kept = refl;
}

shown_now :
    (state : State) (old : ℕ)
    → state ≢ State.unknown
    → (get_state old == state_code state) ≡ false
    → Shows state (cycle_after state old) old (new_status state old)
shown_now state old h e = rw (cycle_counted state old e) (new_status-Shows state old h)

-- Whatever known state the hardware is in, the word that mbox_reportState leaves shows that state
-- with the mode and heartbeat as they were, and the cycle has gone up by one, modulo 16, exactly
-- when the state has become ST_ARM.
pub report_state-Shows :
    (state : State) (s : Slave)
    → state ≢ State.unknown
    → Shows state (cycle_after state s.mbox.status) s.mbox.status (report_state state s).mbox.status
unfolding report_state
report_state-Shows state s h =
    let old = s.mbox.status in
    elim (Bool-cases (same_state state old)) [
      | inl same ↦ rw same (shown_already state old h (sym (same_state_lem state old h) ∙ same))
      | inr other ↦
          rw (other, report_change_status state s h)
            (shown_now state old h (sym (same_state_lem state old h) ∙ other))
    ]
