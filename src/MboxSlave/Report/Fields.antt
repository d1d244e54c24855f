-- ===== src/MboxSlave/Report/Fields.antt =====
-- The fields of a status word when mbox_reportState puts a state, and the next cycle, into it.
use acq200_firmware.Prelude.{
  ℕ, ◌+◌, ◌-◌, ◌%◌, ◌^◌, ◌<◌, ◌≡◌, refl, sym, ap, ◌∙◌, arith, Bool, true, false, bit_or,
  bit_and_mask, bit_not, zero, suc,
}
use acq200_firmware.Busprot.{
  State, state_code, get_state, get_mode, get_cycle, get_heartbeat, set_state, set_cycle, clear,
}
use acq200_firmware.Busprot.Fields.{field, get_state_lem, get_mode_lem, get_cycle_lem, field-bit_or}
use acq200_firmware.Busprot.Masking.{field_kept, field_cleared, field_beside, field_filled}

abbrev pub is_arm : State → Bool
is_arm State.arm = true
is_arm _ = false

-- A status word `new` that shows `state` where `old` stood, with `count` as its cycle.
pub record Shows (state : State) (count old new : ℕ) : Type 0 where
  pub state_is : get_state new ≡ state_code state
  pub cycle_is : get_cycle new ≡ count
  pub mode_kept : get_mode new ≡ get_mode old
  pub heartbeat_kept : get_heartbeat new ≡ get_heartbeat old

pub heartbeat_field : (w : ℕ) → get_heartbeat w ≡ field 0 12 w
heartbeat_field w = bit_and_mask 12 w ∙ omega arith

pub Shows-fields :
    (state : State) (count old new : ℕ)
    → field 16 8 new ≡ state_code state
    → field 12 4 new ≡ count
    → field 24 7 new ≡ field 24 7 old
    → field 0 12 new ≡ field 0 12 old
    → Shows state count old new
Shows-fields state count old new st cy mo he = record {
  state_is = get_state_lem new ∙ st;
  cycle_is = get_cycle_lem new ∙ cy;
  mode_kept = get_mode_lem new ∙ mo ∙ sym (get_mode_lem old);
  heartbeat_kept = heartbeat_field new ∙ he ∙ sym (heartbeat_field old);
}

abbrev pub stated : ℕ → ℕ → ℕ
stated code old = bit_or (clear old (set_state 0xff)) (set_state code)

-- A field apart from the state's.
pub stated_other :
    (k w code old : ℕ)
    → field k w (bit_not (set_state 0xff)) ≡ 2 ^ w - 1
    → field k w (set_state code) ≡ 0
    → field k w (stated code old) ≡ field k w old
stated_other k w code old e f = field_beside k w _ _ f ∙ field_kept k w old _ e

module _ (code old : ℕ) (small : code < 256) where
  pub stated_state : field 16 8 (stated code old) ≡ code
  stated_state = field_filled 16 8 _ _ (field_cleared 16 8 old _ refl) ∙ omega arith

  pub stated_mode : field 24 7 (stated code old) ≡ field 24 7 old
  stated_mode = stated_other 24 7 code old refl (omega arith)

  pub stated_cycle : field 12 4 (stated code old) ≡ field 12 4 old
  stated_cycle = stated_other 12 4 code old refl (omega arith)

  pub stated_heartbeat : field 0 12 (stated code old) ≡ field 0 12 old
  stated_heartbeat = stated_other 0 12 code old refl (omega arith)

  pub stated-Shows :
      (state : State) → state_code state ≡ code → Shows state (get_cycle old) old (stated code old)
  stated-Shows state e =
      Shows-fields state (get_cycle old) old (stated code old) (stated_state ∙ sym e)
        (stated_cycle ∙ sym (get_cycle_lem old)) stated_mode stated_heartbeat

abbrev pub cycled : ℕ → ℕ → ℕ
cycled cycle old = bit_or (clear old (set_cycle 0xf)) (set_cycle (cycle + 1))

-- The increment of the cycle field; a cycle of 15 carries into the state's lowest bit, which
-- ST_ARM has set.
module _ (cycle old : ℕ) (small : cycle < 16) (armed : field 16 8 old ≡ 1) where
  pub cycled_cycle : field 12 4 (cycled cycle old) ≡ (cycle + 1) % 16
  cycled_cycle = field_filled 12 4 _ _ (field_cleared 12 4 old _ refl) ∙ omega arith

  pub cycled_mode : field 24 7 (cycled cycle old) ≡ field 24 7 old
  cycled_mode = field_beside 24 7 _ _ (omega arith) ∙ field_kept 24 7 old _ refl

  pub cycled_heartbeat : field 0 12 (cycled cycle old) ≡ field 0 12 old
  cycled_heartbeat = field_beside 0 12 _ _ (omega arith) ∙ field_kept 0 12 old _ refl

  pub carry_is : field 16 8 (set_cycle (cycle + 1)) < 2
  carry_is = omega arith

  pub one_or : (n : ℕ) → n < 2 → bit_or 1 n % 256 ≡ 1
  one_or zero h = refl
  one_or (suc zero) h = refl
  one_or (suc (suc n)) h = absurd (omega arith)

  pub cycled_state : field 16 8 (cycled cycle old) ≡ 1
  cycled_state =
      field-bit_or 16 8 _ _
      ∙ ap (λ t. bit_or t (field 16 8 (set_cycle (cycle + 1))) % 256)
          (field_kept 16 8 old _ refl ∙ armed)
      ∙ one_or _ carry_is
