-- ===== src/Busprot/Masking.antt =====
-- A field of a word after `&`, `|` and the clearing of another field.
use acq200_firmware.Prelude.{
  ℕ, ◌-◌, ◌/◌, ◌%◌, ◌^◌, ◌<◌, ◌≡◌, ap, ◌∙◌, arith, bit_and, bit_or, bit_and_mask, bit_and-zero,
  bit_or-zero, zero-bit_or, pow_pos,
}
use acq200_firmware.Busprot.Fields.{field, field-bit_and, field-bit_or}

mod_twice : (p a : ℕ) → 0 < p → a % p % p ≡ a % p
mod_twice p a h = grind arith

field_small : (k w x : ℕ) → field k w x % 2 ^ w ≡ field k w x
field_small k w x = mod_twice (2 ^ w) (x / 2 ^ k) (pow_pos w)

-- `m` holds the whole field.
pub field_kept : (k w x m : ℕ) → field k w m ≡ 2 ^ w - 1 → field k w (bit_and x m) ≡ field k w x
field_kept k w x m e =
    field-bit_and k w x m
    ∙ ap (λ t. bit_and (field k w x) t % 2 ^ w) e
    ∙ ap (λ t. t % 2 ^ w) (bit_and_mask w (field k w x))
    ∙ ap (λ t. t % 2 ^ w) (field_small k w x)
    ∙ field_small k w x

-- `m` holds none of the field.
pub field_cleared : (k w x m : ℕ) → field k w m ≡ 0 → field k w (bit_and x m) ≡ 0
field_cleared k w x m e =
    field-bit_and k w x m
    ∙ ap (λ t. bit_and (field k w x) t % 2 ^ w) e
    ∙ ap (λ t. t % 2 ^ w) (bit_and-zero (field k w x))
    ∙ zero_mod w
  where
    zero_mod : (w : ℕ) → 0 % 2 ^ w ≡ 0
    zero_mod w = omega (arith, pow_pos w)

pub field_beside : (k w x y : ℕ) → field k w y ≡ 0 → field k w (bit_or x y) ≡ field k w x
field_beside k w x y e =
    field-bit_or k w x y
    ∙ ap (λ t. bit_or (field k w x) t % 2 ^ w) e
    ∙ ap (λ t. t % 2 ^ w) (bit_or-zero (field k w x))
    ∙ field_small k w x

pub field_filled : (k w x y : ℕ) → field k w x ≡ 0 → field k w (bit_or x y) ≡ field k w y
field_filled k w x y e =
    field-bit_or k w x y
    ∙ ap (λ t. bit_or t (field k w y) % 2 ^ w) e
    ∙ ap (λ t. t % 2 ^ w) (zero-bit_or (field k w y))
    ∙ field_small k w y
