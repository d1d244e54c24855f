-- ===== src/MaskIterator.antt =====
-- `struct MASK_ITERATOR` of Linux/Drivers/acq32_utils.c: hasNext, getNext, and the loops of
-- acq32_intsDisable and acq32_intsEnable that drive it.
pub mod Scan
pub mod Laws
mod Tests
use acq200_firmware.Prelude.{
  ℕ, zero, suc, ◌+◌, ◌-◌, ◌*◌, ◌/◌, ◌%◌, ◌^◌, Bool, true, false, Option, none, some, List, [], ◌∷◌,
  map, bit_and, bit, ◌==◌, ltb, if◌then◌else◌,
}
use mathlib.Core.Option

pub data State : Type 0 where
  idle started finished : State

pub record MaskIterator : Type 0 where
  pub mask : ℕ
  pub icursor : ℕ
  pub state : State

-- `1 << icursor`, an int; a shift by 32 or more is undefined.
pub shl_one : ℕ → Option ℕ
shl_one i = if ltb i 32 then some (2 ^ i) else none

-- `>> 1` of an int: the sign bit, bit 31, stays.
pub sar_one : ℕ → ℕ
sar_one x = x / 2 + (if ltb x (2 ^ 31) then 0 else 2 ^ 31)

-- `--icursor` of an unsigned.
pub decrement : ℕ → ℕ
decrement i = (i + 2 ^ 32 - 1) % 2 ^ 32

-- The loop of hasNext; 33 rounds bring any cursor to 0.
pub scan_has : ℕ → ℕ → ℕ → Bool
scan_has zero mask cursor = false
scan_has (suc fuel) mask cursor = elim (cursor == 0) [
  | true ↦ false
  | false ↦ elim (bit_and mask cursor == 0) [
    | false ↦ true
    | true ↦ scan_has fuel mask (cursor / 2)
  ]
]

abbrev pub rounds : ℕ
rounds = 33

-- hasNext: the answer and the iterator after it; `none` is an undefined shift.
pub has_next_in : State → MaskIterator → Option (Bool × MaskIterator)
has_next_in State.idle it = some (scan_has rounds it.mask 0x80000000, record it { icursor = 31 })
has_next_in State.started it =
    Option.map (λ c. (scan_has rounds it.mask (sar_one c), it)) (shl_one it.icursor)
has_next_in State.finished it = some (false, it)

pub has_next : MaskIterator → Option (Bool × MaskIterator)
has_next it = has_next_in it.state it

-- The loop of getNext; an index, or `none` for the -1, and the iterator after it.
pub scan_next : ℕ → ℕ → MaskIterator → Option ℕ × MaskIterator
scan_next zero cursor it = (none, record it { state = State.finished })
scan_next (suc fuel) cursor it = elim (cursor == 0) [
  | true ↦ (none, record it { state = State.finished })
  | false ↦ elim (bit_and it.mask cursor == 0) [
    | false ↦ (some it.icursor, it)
    | true ↦ scan_next fuel (cursor / 2) (record it { icursor = decrement it.icursor })
  ]
]

pub get_next_in : State → MaskIterator → Option (Option ℕ × MaskIterator)
get_next_in State.idle it =
    some (scan_next rounds 0x80000000 (record it { state = State.started; icursor = 31 }))
get_next_in State.started it =
    let i = decrement it.icursor in
    Option.map (λ c. scan_next rounds c (record it { icursor = i })) (shl_one i)
get_next_in State.finished it = some (none, it)

pub get_next : MaskIterator → Option (Option ℕ × MaskIterator)
get_next it = get_next_in it.state it

-- `while ( hasNext( &it ) ) f( getNext( &it ) )`: the arguments of `f` in order. `none` is an
-- undefined shift, or that the rounds ran out.
pub iterate : ℕ → MaskIterator → Option (List (Option ℕ))
iterate zero it = none
iterate (suc fuel) it = elim (has_next it) [
  | none ↦ none
  | some (false, it') ↦ some []
  | some (true, it') ↦ elim (get_next it') [
    | none ↦ none
    | some (i, it'') ↦ Option.map (λ is. i ∷ is) (iterate fuel it'')
  ]
]

-- `struct MASK_ITERATOR it = { irqs }`
pub start : ℕ → MaskIterator
start irqs = record { mask = irqs; icursor = 0; state = State.idle }

-- The calls of the kernel that the two loops make.
pub data IrqCall : Type 0 where
  disable_irq_nosync : Option ℕ → IrqCall
  enable_irq : Option ℕ → IrqCall

-- acq32_intsDisable and acq32_intsEnable
pub ints_disable : ℕ → Option (List IrqCall)
ints_disable irqs = Option.map (map disable_irq_nosync) (iterate (rounds + 1) (start irqs))

pub ints_enable : ℕ → Option (List IrqCall)
ints_enable irqs = Option.map (map enable_irq) (iterate (rounds + 1) (start irqs))

-- num_enabled_channels and acq32_devGetNumChannelsFromMask of Linux/Drivers/acq32_core.c
pub count_from : ℕ → ℕ → ℕ → ℕ → ℕ
count_from zero pmask mask nenabled = nenabled
count_from (suc fuel) pmask mask nenabled = elim (mask == 0) [
  | true ↦ nenabled
  | false ↦
      count_from fuel pmask (mask / 2) (if bit_and pmask mask == 0 then nenabled else nenabled + 1)
]

pub num_enabled_channels : ℕ → ℕ
num_enabled_channels pmask = count_from rounds pmask 0x80000000 0
