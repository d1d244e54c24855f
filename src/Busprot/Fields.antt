-- ===== src/Busprot/Fields.antt =====
-- Reading and writing the fields of a command or status word, as arithmetic.
use acq200_firmware.Prelude.{
  ℕ, ◌/◌, ◌%◌, ◌^◌, ◌≡◌, ap, ◌∙◌, bit_and, bit_or, bit_and-div, bit_or-div, bit_and-mod, bit_or-mod,
  bit_and_mask,
}
use acq200_firmware.Busprot.{get_funcode, get_a1, get_a2, get_state, get_mode, get_cycle}

-- `w` bits from position `k` on.
abbrev pub field : ℕ → ℕ → ℕ → ℕ
field k w word = word / 2 ^ k % 2 ^ w

-- A field of `x & m` and of `x | y`.
pub field-bit_and :
    (k w x m : ℕ) → field k w (bit_and x m) ≡ bit_and (field k w x) (field k w m) % 2 ^ w
field-bit_and k w x m =
    ap (λ t. t % 2 ^ w) (bit_and-div k x m) ∙ bit_and-mod w (x / 2 ^ k) (m / 2 ^ k)

pub field-bit_or :
    (k w x y : ℕ) → field k w (bit_or x y) ≡ bit_or (field k w x) (field k w y) % 2 ^ w
field-bit_or k w x y = ap (λ t. t % 2 ^ w) (bit_or-div k x y) ∙ bit_or-mod w (x / 2 ^ k) (y / 2 ^ k)

-- The readers of the protocol's fields.
pub get_funcode_lem : (c : ℕ) → get_funcode c ≡ field 16 8 c
get_funcode_lem c = bit_and_mask 8 (c / 2 ^ 16)

pub get_a1_lem : (c : ℕ) → get_a1 c ≡ field 8 8 c
get_a1_lem c = bit_and_mask 8 (c / 2 ^ 8)

pub get_a2_lem : (c : ℕ) → get_a2 c ≡ c % 2 ^ 8
get_a2_lem c = bit_and_mask 8 c

pub get_state_lem : (c : ℕ) → get_state c ≡ field 16 8 c
get_state_lem c = bit_and_mask 8 (c / 2 ^ 16)

pub get_mode_lem : (c : ℕ) → get_mode c ≡ field 24 7 c
get_mode_lem c = bit_and_mask 7 (c / 2 ^ 24)

pub get_cycle_lem : (c : ℕ) → get_cycle c ≡ field 12 4 c
get_cycle_lem c = bit_and_mask 4 (c / 2 ^ 12)
