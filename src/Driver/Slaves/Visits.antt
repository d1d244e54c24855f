-- ===== src/Driver/Slaves/Visits.antt =====
-- The while loop over acq32_getNextSlave reaches the boards that the path selects.
use native.Mathlib.Decide.{ℕ_discrete}
use acq200_firmware.Prelude.{
  ℕ, zero, suc, ◌+◌, ◌-◌, ◌^◌, ◌≤◌, ◌<◌, ◌≡◌, inl, inr, refl, sym, ap, ◌∙◌, Bool-cases, true, false,
  Option, none, some, List, [], ◌∷◌, ◌++◌, arith, bit, ◌==◌, pow-two, pow_pos,
}
use acq200_firmware.Driver.Slaves.{
  SlaveIterState, sis, is_master_all, fill_slave_mask, scan_slaves, do_self, start_slaves,
  begin_slaves, get_next_slave, each_slave, unless_stopped, rounds,
}
use acq200_firmware.Driver.Slaves.Selected.{
  selected, path_mask, visited, unless_ended, each_of, each_of-nil, each_of-cons, selected_clear,
  selected_own, selected_set, selected_zero, selected-zero, path_mask_all, path_mask_some,
  visited_lem,
}
use acq200_firmware.Driver.Slaves.Steps.{
  max_boards, fill_slave_mask_lem, fill_slave_mask_none, at, scan_past, scan_clear, scan_own,
  scan_set, next_at, next_done,
}

unless_stopped_lem {ℓ ℓ'} :
    {R : Type ℓ} {W : Type ℓ'} (result : Option R × W) (next : W → Option (Option R × W))
    (next' : W → Option R × W)
    → ((w : W) → next w ≡ some (next' w))
    → unless_stopped result next ≡ some (unless_ended result next')
unless_stopped_lem (some stop, w) next next' h = refl
unless_stopped_lem (none, w) next next' h = h w

module _ {ℓ ℓ'} {R : Type ℓ} {W : Type ℓ'} (ndevs minor own : ℕ) (act : ℕ → W → Option R × W) where
  round_on :
      (fuel : ℕ) (state next : SlaveIterState) (iboard : ℕ) (w : W)
      → get_next_slave ndevs minor own state ≡ (some iboard, next)
      → each_slave ndevs minor own act (suc fuel) state w
        ≡ unless_stopped (act iboard w) (λ w'. each_slave ndevs minor own act fuel next w')
  unfolding each_slave
  round_on fuel state next iboard w e = rw (ap (λ p. p.0) e, each_slave) (rw (ap (λ p. p.1) e) refl)

  round_end :
      (fuel : ℕ) (state next : SlaveIterState) (w : W)
      → get_next_slave ndevs minor own state ≡ (none, next)
      → each_slave ndevs minor own act (suc fuel) state w ≡ some (none, w)
  unfolding each_slave
  round_end fuel state next w e = rw (ap (λ p. p.0) e, each_slave) refl

  -- The round on `iboard`, when the loop behind it does what `each_of` does on `boards`.
  round_of :
      (fuel : ℕ) (state next : SlaveIterState) (iboard : ℕ) (boards : List ℕ)
      → get_next_slave ndevs minor own state ≡ (some iboard, next)
      → ((w : W) → each_slave ndevs minor own act fuel next w ≡ some (each_of act boards w))
      → (w : W)
      → each_slave ndevs minor own act (suc fuel) state w ≡ some (each_of act (iboard ∷ boards) w)
  round_of fuel state next iboard boards e rest w =
      round_on fuel state next iboard w e
      ∙ unless_stopped_lem (act iboard w) (each_slave ndevs minor own act fuel next)
          (each_of act boards) rest
      ∙ ap some (sym (each_of-cons act iboard boards w))

  module _ (mask : ℕ) (few : ndevs ≤ max_boards) (some_slaves : (mask == 0) ≡ false) where
    -- The path's own device comes when the cursor has passed the boards.
    own_round :
        (fuel scan_fuel : ℕ) (state : SlaveIterState)
        → get_next_slave ndevs minor own state
          ≡ scan_slaves ndevs minor own (suc scan_fuel) (at ndevs mask ndevs)
        → (w : W)
        → each_slave ndevs minor own act (suc (suc fuel)) state w ≡ some (each_of act (own ∷ []) w)
    own_round fuel scan_fuel state e =
        let past = scan_past ndevs minor own mask few scan_fuel in
        let done = record (at ndevs mask ndevs) { done_self = true } in
        round_of (suc fuel) state done own [] (e ∙ past) λ w.
          round_end fuel done _ w (next_done ndevs minor own mask few some_slaves)
          ∙ ap some (sym (each_of-nil act w))

    -- From board `i` on, with `left` boards to look at.
    rounds_from :
        (left i fuel scan_fuel : ℕ) (state : SlaveIterState)
        → i + left ≡ ndevs
        → left ≤ fuel
        → left ≤ scan_fuel
        → get_next_slave ndevs minor own state
          ≡ scan_slaves ndevs minor own (suc scan_fuel) (at ndevs mask i)
        → (w : W)
        → each_slave ndevs minor own act (suc (suc fuel)) state w
          ≡ some (each_of act (selected own mask left i ++ own ∷ []) w)
    rounds_from zero i fuel scan_fuel state here enough enough' e w =
        let last : i ≡ ndevs = omega arith in
        own_round fuel scan_fuel state
          (e ∙ ap (λ j. scan_slaves ndevs minor own (suc scan_fuel) (at ndevs mask j)) last) w
        ∙ ap (λ bs. some (each_of act (bs ++ own ∷ []) w)) (sym (selected-zero own mask i))
    rounds_from (suc left) i zero scan_fuel state here enough enough' e w = absurd (omega arith)
    rounds_from (suc left) i (suc fuel) zero state here enough enough' e w = absurd (omega arith)
    rounds_from (suc left) i (suc fuel) (suc scan_fuel) state here enough enough' e w =
        let below : i < ndevs = omega arith in
        let further =
          λ (passed : scan_slaves ndevs minor own (suc (suc scan_fuel)) (at ndevs mask i)
              ≡ scan_slaves ndevs minor own (suc scan_fuel) (at ndevs mask (suc i))).
            rounds_from left (suc i) (suc fuel) scan_fuel state (omega arith) (omega arith)
              (omega arith) (e ∙ passed) w in
        let on = λ (boards : List ℕ). each_of act (boards ++ own ∷ []) w in
        elim (ℕ_discrete (bit mask i) 0) [
          | yes clear ↦
              further (scan_clear ndevs minor own mask few (suc scan_fuel) i below clear)
              ∙ ap (λ bs. some (on bs)) (sym (selected_clear own mask left i clear))
          | no not_clear ↦ elim (ℕ_discrete i own) [
            | yes own_board ↦
                further (
                  scan_own ndevs minor own mask few (suc scan_fuel) i below own_board (omega arith))
                ∙ ap (λ bs. some (on bs))
                    (sym (selected_own own mask left i own_board (omega arith)))
            | no other ↦
                let hit =
                  scan_set ndevs minor own mask few (suc scan_fuel) i below other (omega arith) in
                round_of (suc (suc fuel)) state (at ndevs mask i) i
                  (selected own mask left (suc i) ++ own ∷ []) (e ∙ hit)
                  (rounds_from left (suc i) fuel 16 (at ndevs mask i) (omega arith) (omega arith)
                    (omega arith) (next_at ndevs minor own mask few i (omega arith) some_slaves))
                  w
                ∙ ap (λ bs. some (on bs)) (sym (selected_set own mask left i other (omega arith)))
          ]
        ]

-- The first call's mask of slaves; the loop does not change it when it is 0.
abbrev begun : ℕ → ℕ → SlaveIterState
begun ndevs mask = record {
  slaves = mask;
  full_mask = 2 ^ ndevs - 1;
  iter_cursor = 0;
  done_self = false;
}

no_boards : (n : ℕ) → (2 ^ n - 1 == 0) ≡ true → n ≡ 0
no_boards zero h = refl
no_boards (suc n) h = absurd (ground (arith, pow-two n, pow_pos n))

module _ (ndevs minor own : ℕ) (few : ndevs ≤ max_boards) where
  start_slaves-sis : start_slaves ndevs minor own sis ≡ begun ndevs (path_mask ndevs minor)
  unfolding start_slaves
  start_slaves-sis = elim (Bool-cases (is_master_all minor)) [
    | inl all ↦ rw (all, fill_slave_mask_lem ndevs few, path_mask_all ndevs minor all) refl
    | inr only ↦ rw (only, fill_slave_mask_lem ndevs few, path_mask_some ndevs minor only) refl
  ]

  start_slaves-again :
      (state : SlaveIterState)
      → (path_mask ndevs minor == 0) ≡ true
      → state.slaves ≡ path_mask ndevs minor
      → (start_slaves ndevs minor own state).slaves ≡ path_mask ndevs minor
  unfolding start_slaves
  start_slaves-again state no_slaves same = elim (Bool-cases (is_master_all minor)) [
    | inr only ↦ rw (only, path_mask_some ndevs minor only) refl
    | inl all ↦
        let none_there : ndevs ≡ 0 =
          no_boards ndevs (ap (λ m. m == 0) (sym (path_mask_all ndevs minor all)) ∙ no_slaves) in
        rw all (
          ap (λ n. fill_slave_mask n state.slaves) none_there
          ∙ fill_slave_mask_none state.slaves
          ∙ same)
  ]

  -- A call on a state that has no slaves yet.
  next_first :
      (state : SlaveIterState)
      → (state.slaves == 0) ≡ true
      → get_next_slave ndevs minor own state
        ≡ begin_slaves ndevs minor own (start_slaves ndevs minor own state)
  unfolding get_next_slave
  next_first state no_slaves = rw no_slaves refl

  module _ (no_slaves : (path_mask ndevs minor == 0) ≡ true) where
    first_self :
        get_next_slave ndevs minor own sis
        ≡ (some own, record (begun ndevs (path_mask ndevs minor)) { done_self = true })
    unfolding do_self
    first_self =
        next_first sis refl ∙ ap (begin_slaves ndevs minor own) start_slaves-sis ∙ rw no_slaves refl

    then_nothing :
        let done = record (begun ndevs (path_mask ndevs minor)) { done_self = true } in
        get_next_slave ndevs minor own done ≡ (none, start_slaves ndevs minor own done)
    unfolding do_self start_slaves
    then_nothing =
        let done = record (begun ndevs (path_mask ndevs minor)) { done_self = true } in
        next_first done no_slaves ∙ rw (start_slaves-again done no_slaves refl) (rw no_slaves refl)

module _ {ℓ ℓ'} {R : Type ℓ} {W : Type ℓ'} (ndevs minor own : ℕ) (act : ℕ → W → Option R × W)
    (few : ndevs ≤ max_boards) where
  without_slaves :
      (path_mask ndevs minor == 0) ≡ true
      → (w : W)
      → each_slave ndevs minor own act (suc (suc ndevs)) sis w ≡ some (each_of act (own ∷ []) w)
  without_slaves no_slaves =
      round_of ndevs minor own act (suc ndevs) sis _ own []
        (first_self ndevs minor own few no_slaves)
        λ w.
          round_end ndevs minor own act ndevs _ _ w (then_nothing ndevs minor own few no_slaves)
          ∙ ap some (sym (each_of-nil act w))

  with_slaves :
      (path_mask ndevs minor == 0) ≡ false
      → (w : W)
      → each_slave ndevs minor own act (suc (suc ndevs)) sis w
        ≡ some (each_of act (selected own (path_mask ndevs minor) ndevs 0 ++ own ∷ []) w)
  with_slaves some_slaves =
      let mask = path_mask ndevs minor in
      let first : get_next_slave ndevs minor own sis
          ≡ scan_slaves ndevs minor own rounds (at ndevs mask 0) =
        next_first ndevs minor own few sis refl
        ∙ ap (begin_slaves ndevs minor own) (start_slaves-sis ndevs minor own few)
        ∙ rw some_slaves refl in
      rounds_from ndevs minor own act mask few some_slaves ndevs 0 ndevs 16 sis (omega arith)
        (omega arith) (omega arith) first

  -- A loop over acq32_getNextSlave ends in at most two rounds more than there are boards, for up to 8
  -- boards, any minor number and any body: it runs the body on the boards that the minor number
  -- selects, in rising order and without the path's own, and then on the path's own board, and
  -- stops at the first result of the body.
  pub each_slave-visited :
      (w : W)
      → each_slave ndevs minor own act (suc (suc ndevs)) sis w
        ≡ some (each_of act (visited ndevs minor own) w)
  each_slave-visited w = elim (Bool-cases (path_mask ndevs minor == 0)) [
    | inl no_slaves ↦
        let zero_mask : path_mask ndevs minor ≡ 0 = ground arith in
        without_slaves no_slaves w
        ∙ ap (λ bs. some (each_of act (bs ++ own ∷ []) w))
            (sym (ap (λ m. selected own m ndevs 0) zero_mask ∙ selected_zero own ndevs 0))
        ∙ ap (λ bs. some (each_of act bs w)) (sym (visited_lem ndevs minor own))
    | inr some_slaves ↦
        with_slaves some_slaves w
        ∙ ap (λ bs. some (each_of act bs w)) (sym (visited_lem ndevs minor own))
  ]
