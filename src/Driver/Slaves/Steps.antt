-- ===== src/Driver/Slaves/Steps.antt =====
-- One call of acq32_getNextSlave.
use native.Mathlib.Nat.{pow-le-pow_right, mod-eq_of_lt, mod_self, mul-mod_left}
use acq200_firmware.Prelude.{
  ℕ, zero, suc, ◌-◌, ◌*◌, ◌%◌, ◌^◌, ◌≤◌, ◌<◌, ◌≡◌, ◌≢◌, refl, ap, ◌∙◌, true, false, none, some,
  arith, bit_and, bit, bit_and_mask, bit_and_pow, bit-bit_and, eq_of_bits, pow-two, pow_pos, ◌==◌,
  leb,
}
use acq200_firmware.Driver.Slaves.{
  SlaveIterState, fill_slave_mask, fill_from, board_of, board_from, do_self, scan_slaves,
  shift_cursor, rounds, get_next_slave,
}

bit_and_comm : (a b : ℕ) → bit_and a b ≡ bit_and b a
bit_and_comm a b = eq_of_bits _ _ λ k. omega (arith, bit-bit_and k a b, bit-bit_and k b a)

-- The driver has at most ACQ32_MAX_BOARDS boards.
abbrev pub max_boards : ℕ
max_boards = 8

pub fill_slave_mask_lem : (ndevs : ℕ) → ndevs ≤ max_boards → fill_slave_mask ndevs 0 ≡ 2 ^ ndevs - 1
unfolding fill_slave_mask fill_from
fill_slave_mask_lem zero h = refl
fill_slave_mask_lem (suc zero) h = refl
fill_slave_mask_lem (suc (suc zero)) h = refl
fill_slave_mask_lem (suc (suc (suc zero))) h = refl
fill_slave_mask_lem (suc (suc (suc (suc zero)))) h = refl
fill_slave_mask_lem (suc (suc (suc (suc (suc zero))))) h = refl
fill_slave_mask_lem (suc (suc (suc (suc (suc (suc zero)))))) h = refl
fill_slave_mask_lem (suc (suc (suc (suc (suc (suc (suc zero))))))) h = refl
fill_slave_mask_lem (suc (suc (suc (suc (suc (suc (suc (suc zero)))))))) h = refl
fill_slave_mask_lem (suc (suc (suc (suc (suc (suc (suc (suc (suc n))))))))) h = absurd (omega arith)

pub fill_slave_mask_none : (mask : ℕ) → fill_slave_mask 0 mask ≡ mask
unfolding fill_slave_mask fill_from
fill_slave_mask_none mask = refl

board_of_lem : (i : ℕ) → i < max_boards → board_of (2 ^ i) ≡ i
unfolding board_of board_from
board_of_lem zero h = refl
board_of_lem (suc zero) h = refl
board_of_lem (suc (suc zero)) h = refl
board_of_lem (suc (suc (suc zero))) h = refl
board_of_lem (suc (suc (suc (suc zero)))) h = refl
board_of_lem (suc (suc (suc (suc (suc zero))))) h = refl
board_of_lem (suc (suc (suc (suc (suc (suc zero)))))) h = refl
board_of_lem (suc (suc (suc (suc (suc (suc (suc zero))))))) h = refl
board_of_lem (suc (suc (suc (suc (suc (suc (suc (suc n)))))))) h = absurd (omega arith)

pub shifted : (i : ℕ) → i ≤ max_boards → 2 ^ i * 2 % 2 ^ 32 ≡ 2 ^ suc i
shifted i h = omega (arith, pow-two i, pow-le-pow_right {n = 2} (omega arith) {i = i} {j = 8} h)

in_mask : (ndevs i : ℕ) → i < ndevs → (bit_and (2 ^ i) (2 ^ ndevs - 1) == 0) ≡ false
in_mask ndevs i h =
    let below : 2 ^ suc i ≤ 2 ^ ndevs = pow-le-pow_right {n = 2} (omega arith) h in
    let small : 2 ^ i % 2 ^ ndevs ≡ 2 ^ i =
      mod-eq_of_lt (omega (arith, below, pow_pos i, pow-two i)) in
    ground (arith, bit_and_mask ndevs (2 ^ i), pow_pos i)

past_mask : (ndevs : ℕ) → (bit_and (2 ^ ndevs) (2 ^ ndevs - 1) == 0) ≡ true
past_mask ndevs = ground (arith, bit_and_mask ndevs (2 ^ ndevs), mod_self (2 ^ ndevs))

pub past_mask_suc : (ndevs : ℕ) → (bit_and (2 ^ suc ndevs) (2 ^ ndevs - 1) == 0) ≡ true
past_mask_suc ndevs =
    let wraps : 2 ^ suc ndevs % 2 ^ ndevs ≡ 0 =
      ap (λ t. t % 2 ^ ndevs) (pow-two ndevs) ∙ mul-mod_left 2 (2 ^ ndevs) in
    ground (arith, bit_and_mask ndevs (2 ^ suc ndevs))

cursor_clear : (mask i : ℕ) → bit mask i ≡ 0 → (bit_and (2 ^ i) mask == 0) ≡ true
cursor_clear mask i h = ground (arith, bit_and_comm (2 ^ i) mask, bit_and_pow i mask)

cursor_set : (mask i : ℕ) → bit mask i ≡ 1 → (bit_and (2 ^ i) mask == 0) ≡ false
cursor_set mask i h = ground (arith, bit_and_comm (2 ^ i) mask, bit_and_pow i mask, pow_pos i)

-- The iterator with its cursor on board `i`, its own device not yet given.
abbrev pub at : ℕ → ℕ → ℕ → SlaveIterState
at ndevs mask i = record {
  slaves = mask;
  full_mask = 2 ^ ndevs - 1;
  iter_cursor = 2 ^ i;
  done_self = false;
}

module _ (ndevs minor own mask : ℕ) (few : ndevs ≤ max_boards) where
  shift_at : (i : ℕ) → i ≤ max_boards → shift_cursor (at ndevs mask i) ≡ at ndevs mask (suc i)
  shift_at i h = ap (λ c. record (at ndevs mask i) { iter_cursor = c }) (shifted i h)

  scan_ends :
      (fuel : ℕ) (state : SlaveIterState)
      → (bit_and state.iter_cursor state.full_mask == 0) ≡ true
      → scan_slaves ndevs minor own (suc fuel) state ≡ do_self ndevs minor own state
  unfolding scan_slaves
  scan_ends fuel state past = rw past refl

  pub scan_past :
      (fuel : ℕ)
      → scan_slaves ndevs minor own (suc fuel) (at ndevs mask ndevs)
        ≡ (some own, record (at ndevs mask ndevs) { done_self = true })
  unfolding do_self
  scan_past fuel = scan_ends fuel (at ndevs mask ndevs) (past_mask ndevs)

  module _ (fuel i : ℕ) (below : i < ndevs) where
    pub scan_clear :
        bit mask i ≡ 0
        → scan_slaves ndevs minor own (suc fuel) (at ndevs mask i)
          ≡ scan_slaves ndevs minor own fuel (at ndevs mask (suc i))
    unfolding scan_slaves
    scan_clear clear =
        rw (in_mask ndevs i below, cursor_clear mask i clear)
          (ap (scan_slaves ndevs minor own fuel) (shift_at i (omega arith)))

    pub scan_own :
        i ≡ own
        → bit mask i ≡ 1
        → scan_slaves ndevs minor own (suc fuel) (at ndevs mask i)
          ≡ scan_slaves ndevs minor own fuel (at ndevs mask (suc i))
    unfolding scan_slaves
    scan_own own_board set =
        let found : board_of (2 ^ i) ≡ i = board_of_lem i (omega arith) in
        let known : leb ndevs i ≡ false = ground arith in
        let same : (i == own) ≡ true = ground arith in
        rw (in_mask ndevs i below, cursor_set mask i set, found, known, same)
          (ap (scan_slaves ndevs minor own fuel) (shift_at i (omega arith)))

    pub scan_set :
        i ≢ own
        → bit mask i ≡ 1
        → scan_slaves ndevs minor own (suc fuel) (at ndevs mask i) ≡ (some i, at ndevs mask i)
    unfolding scan_slaves
    scan_set other set =
        let found : board_of (2 ^ i) ≡ i = board_of_lem i (omega arith) in
        let known : leb ndevs i ≡ false = ground arith in
        let differs : (i == own) ≡ false = ground arith in
        rw (in_mask ndevs i below, cursor_set mask i set, found, known, differs) refl

  -- The next call goes on from the next board.
  pub next_at :
      (i : ℕ)
      → i ≤ max_boards
      → (mask == 0) ≡ false
      → get_next_slave ndevs minor own (at ndevs mask i)
        ≡ scan_slaves ndevs minor own rounds (at ndevs mask (suc i))
  unfolding get_next_slave
  next_at i h some_slaves = rw some_slaves (ap (scan_slaves ndevs minor own rounds) (shift_at i h))

  -- After the path's own device there is nothing.
  pub next_done :
      (mask == 0) ≡ false
      → get_next_slave ndevs minor own (record (at ndevs mask ndevs) { done_self = true })
        ≡ (none, record (at ndevs mask (suc ndevs)) { done_self = true })
  unfolding get_next_slave do_self
  next_done some_slaves =
      let after = record (at ndevs mask (suc ndevs)) { done_self = true } in
      rw (some_slaves, shifted ndevs few) (scan_ends 16 after (past_mask_suc ndevs))
