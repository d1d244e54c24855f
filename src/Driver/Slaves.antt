-- ===== src/Driver/Slaves.antt =====
-- acq32_getNextSlave of acq32_core.c, which names the boards of a path one by one, and the loop
-- `while( (device = acq32_getNextSlave( path, &sis )) != NULL )` of the driver's commands. A device
-- stands for its board's number.
pub mod Selected
pub mod Steps
pub mod Visits
use acq200_firmware.Prelude.{
  ℕ, zero, suc, ◌+◌, ◌%◌, ◌^◌, Bool, true, false, Option, none, some, bit_and, bit_or, u32, ◌<<<◌,
  ◌==◌, ◌!=◌, leb, if◌then◌else◌,
}

-- SlaveIterState; `slaves` and `full_mask` are unsigned shorts.
pub record SlaveIterState : Type 0 where
  pub slaves : ℕ
  pub full_mask : ℕ
  pub iter_cursor : ℕ
  pub done_self : Bool

-- `SlaveIterState sis = {}`
abbrev pub sis : SlaveIterState
sis = record { slaves = 0; full_mask = 0; iter_cursor = 0; done_self = false }

-- SLAVES and IS_MASTER_ALL of a minor number
unfoldable pub slaves_of : ℕ → ℕ
slaves_of minor = if bit_and minor 0x80 != 0 then bit_and minor 0x7f else 0

unfoldable pub is_master_all : ℕ → Bool
is_master_all minor = slaves_of minor == 0x7f

-- The loop of fillSlaveMask, with the boards that are left.
pub fill_from : ℕ → ℕ → ℕ → ℕ
fill_from zero cursor mask = mask
fill_from (suc left) cursor mask = fill_from left (u32 (cursor <<< 1)) (bit_or mask cursor % 2 ^ 16)

-- fillSlaveMask on the mask's value, `ndevs` being what acq32_getDeviceCount returns
pub fill_slave_mask : ℕ → ℕ → ℕ
fill_slave_mask ndevs mask = fill_from ndevs 0x1 mask

-- The loop that finds the board of a cursor: 32 rounds reach every bit.
pub board_from : ℕ → ℕ → ℕ → ℕ → ℕ
board_from zero cursor isbit iboard = iboard
board_from (suc fuel) cursor isbit iboard =
    let rest = board_from fuel cursor (u32 (isbit <<< 1)) (iboard + 1) in
    if bit_and isbit cursor == 0 then rest else iboard

pub board_of : ℕ → ℕ
board_of cursor = board_from 32 cursor 0x1 0

-- The rounds of the loop over the cursor: a cursor has left the 16 bits of the mask before.
abbrev pub rounds : ℕ
rounds = 17

abbrev pub shift_cursor : SlaveIterState → SlaveIterState
shift_cursor state = record state { iter_cursor = u32 (state.iter_cursor <<< 1) }

-- A path is its minor number with `own`, the board of path->device.
module _ (ndevs minor own : ℕ) where
  -- The end of the function, from the label do_self.
  pub do_self : SlaveIterState → Option ℕ × SlaveIterState
  do_self state = elim state.done_self [
    | true ↦ (none, state)
    | false ↦ (some own, record state { done_self = true })
  ]

  -- The loop over the cursor.
  pub scan_slaves : ℕ → SlaveIterState → Option ℕ × SlaveIterState
  scan_slaves zero state = do_self state
  scan_slaves (suc fuel) state =
      let rest = scan_slaves fuel (shift_cursor state) in
      let iboard = board_of state.iter_cursor in
      if bit_and state.iter_cursor state.full_mask == 0
      then do_self state
      else if bit_and state.iter_cursor state.slaves == 0
      then rest
      else if leb ndevs iboard
      then (none, state)
      else if iboard == own
      then rest
      else (some iboard, state)

  -- What the first call makes of the state; `slaves` is 0 again when the path has no slaves.
  pub start_slaves : SlaveIterState → SlaveIterState
  start_slaves state = record state {
    full_mask = fill_slave_mask ndevs state.full_mask;
    slaves = if is_master_all minor then fill_slave_mask ndevs state.slaves else slaves_of minor;
  }

  abbrev pub begin_slaves : SlaveIterState → Option ℕ × SlaveIterState
  begin_slaves state =
      if state.slaves == 0
      then do_self state
      else scan_slaves rounds (record state { iter_cursor = 0x1 })

  -- acq32_getNextSlave: the board, or `none` for NULL, and the state after it
  pub get_next_slave : SlaveIterState → Option ℕ × SlaveIterState
  get_next_slave state =
      if state.slaves == 0
      then begin_slaves (start_slaves state)
      else scan_slaves rounds (shift_cursor state)

-- A round's body ends the loop with a result, or the loop goes on.
abbrev pub unless_stopped {ℓ ℓ'} :
    {R : Type ℓ} {W : Type ℓ'} → Option R × W → (W → Option (Option R × W)) → Option (Option R × W)
unless_stopped (some stop, w) next = some (some stop, w)
unless_stopped (none, w) next = next w

module _ {ℓ ℓ'} {R : Type ℓ} {W : Type ℓ'} (ndevs minor own : ℕ) (act : ℕ → W → Option R × W) where
  -- The while loop with the body `act` from a state of the iterator. `none` is that the rounds ran
  -- out; a result `none` is that the loop reached NULL.
  pub each_slave : ℕ → SlaveIterState → W → Option (Option R × W)
  each_slave zero state w = none
  each_slave (suc fuel) state w =
      let (device, next) = get_next_slave ndevs minor own state in
      elim device [
        | none ↦ some (none, w)
        | some iboard ↦ unless_stopped (act iboard w) (λ w'. each_slave fuel next w')
      ]
