-- ===== src/Prelude/Bits.antt =====
-- `&` and `|` of C words at variables: they split at every bit position.
use Prim.Native.Nat.{ℕ, zero, suc, ◌+◌, ◌-◌, ◌*◌, ◌/◌, ◌%◌, ◌^◌, ◌≤◌, min, max}
use Prim.Native.Nat.{digits, bitwise, bit_and, bit_or, bit_and-bitwise, bit_or-bitwise}
use mathlib.Core.Path.{◌≡◌, refl, sym, ap, ◌∙◌}
use native.Mathlib.Nat.{le_refl}
use native.Mathlib.Omega.{arith}

-- `~m` of a 32-bit word.
abbrev pub bit_not : ℕ → ℕ
bit_not m = 2 ^ 32 - 1 - m

-- `x << k` and `x >> k`; what does not fit 32 bits is cut off by `u32`.
infixl 75 ◌<<<◌ ◌>>>◌
abbrev pub ◌<<<◌ : ℕ → ℕ → ℕ
x <<< k = x * 2 ^ k

abbrev pub ◌>>>◌ : ℕ → ℕ → ℕ
x >>> k = x / 2 ^ k

abbrev pub u32 : ℕ → ℕ
u32 n = n % 2 ^ 32

-- The digit at position `k`.
abbrev pub bit : ℕ → ℕ → ℕ
bit w k = w / 2 ^ k % 2

-- An operation on words that works digit by digit, by `g`.
abbrev pub Digitwise : (ℕ → ℕ → ℕ) → (ℕ → ℕ → ℕ) → Type 0
Digitwise op g = (x y : ℕ) → op x y ≡ op (x / 2) (y / 2) * 2 + g (x % 2) (y % 2)

-- The native operations are recursions on digits with fuel, `z` being what is left when the first
-- word has none; any fuel that is enough gives the same.
module _ (z : ℕ → ℕ) (g : ℕ → ℕ → ℕ) where
  no_digits : (m n y : ℕ) → digits z g m zero y ≡ digits z g n zero y
  no_digits zero zero y = refl
  no_digits zero (suc n) y = refl
  no_digits (suc m) zero y = refl
  no_digits (suc m) (suc n) y = refl

  more_fuel : (m n x y : ℕ) → x ≤ m → x ≤ n → digits z g m x y ≡ digits z g n x y
  more_fuel m n zero y p q = no_digits m n y
  more_fuel zero n (suc x) y p q = absurd (omega (arith, p))
  more_fuel (suc m) zero (suc x) y p q = absurd (omega (arith, q))
  more_fuel (suc m) (suc n) (suc x) y p q =
      let fits : suc x / 2 ≤ m = omega (arith, p) in
      let half = more_fuel m n (suc x / 2) (y / 2) fits (omega (arith, q)) in rw half

  module _ (op : ℕ → ℕ → ℕ) (is : (x y : ℕ) → op x y ≡ bitwise z g x y)
      (rest : (y : ℕ) → z y ≡ z (y / 2) * 2 + g 0 (y % 2)) where
    digitwise : Digitwise op g
    digitwise zero y = is zero y ∙ rest y ∙ ap (λ t. t * 2 + g 0 (y % 2)) (sym (is zero (y / 2)))
    digitwise (suc x) y =
        let low = suc x % 2 in
        let half = suc x / 2 in
        let fuel = more_fuel x half half (y / 2) (omega arith) (le_refl half) in
        is (suc x) y
        ∙ ap (λ t. t * 2 + g low (y % 2)) fuel
        ∙ ap (λ t. t * 2 + g low (y % 2)) (sym (is half (y / 2)))

pub bit_and_step : Digitwise bit_and min
bit_and_step = digitwise (λ y. 0) min bit_and bit_and-bitwise λ y. omega arith

pub bit_or_step : Digitwise bit_or max
bit_or_step = digitwise (λ y. y) max bit_or bit_or-bitwise λ y. omega arith
