-- ===== src/Prelude/Words.antt =====
-- `&` and `|` of C words split at any bit position, so that fields can be read and written.
use Prim.Native.Nat.{ℕ, zero, suc, ◌+◌, ◌-◌, ◌*◌, ◌/◌, ◌%◌, ◌^◌, ◌<◌, ◌≤◌, min, max}
use Prim.Native.Nat.{bit_and, bit_or}
use mathlib.Core.Path.{◌≡◌, refl, sym, ap, ap₂, ◌∙◌}
use native.Mathlib.Nat.{
  pow-suc, one-le-pow, div-div-eq-div-mul, mul_comm, div-one, zero-div, le_refl,
}
use native.Mathlib.Nat.{div_self, mod_self, zero-mod, div-add-mod}
use native.Mathlib.Omega.{arith}
use acq200_firmware.Prelude.Bits.{bit, bit_and_step, bit_or_step}

two_mod : (a p : ℕ) → 0 < p → a % (2 * p) ≡ a / 2 % p * 2 + a % 2
two_mod a p h = grind arith

top_mod : (a p : ℕ) → 0 < p → a % (2 * p) ≡ a / p % 2 * p + a % p
top_mod a p h =
    let halved : a / p ≡ 2 * (a / p / 2) + a / p % 2 = omega arith in
    omega (
      arith,
      div-add-mod a p,
      div-add-mod a (2 * p),
      ap (λ t. p * t) (ap (λ q. a / q) (mul_comm 2 p) ∙ sym (div-div-eq-div-mul a p 2)),
      ap (λ t. p * t) halved,
    )

two_div : (a p : ℕ) → a / (2 * p) ≡ a / 2 / p
two_div a p = rw (← div-div-eq-div-mul a 2 p)

pub pow-two : (k : ℕ) → 2 ^ suc k ≡ 2 * 2 ^ k
pow-two k = rw (pow-suc 2 k) (mul_comm (2 ^ k) 2)

mod_two_half : (a p : ℕ) → 0 < p → a % (2 * p) / 2 ≡ a / 2 % p
mod_two_half a p h = omega (arith, two_mod a p h)

mod_two_low : (a p : ℕ) → 0 < p → a % (2 * p) % 2 ≡ a % 2
mod_two_low a p h = omega (arith, two_mod a p h)

pub pow_pos : (k : ℕ) → 0 < 2 ^ k
pow_pos k = one-le-pow k 2 (omega arith)

module _ (f : ℕ → ℕ → ℕ) (g : ℕ → ℕ → ℕ) (g-lt : (a b : ℕ) → a < 2 → b < 2 → g a b < 2)
    (step : (a b : ℕ) → f a b ≡ f (a / 2) (b / 2) * 2 + g (a % 2) (b % 2)) where
  half : (a b : ℕ) → f a b / 2 ≡ f (a / 2) (b / 2)
  half a b = omega (arith, step a b, g-lt (a % 2) (b % 2))

  low : (a b : ℕ) → f a b % 2 ≡ g (a % 2) (b % 2)
  low a b = omega (arith, step a b, g-lt (a % 2) (b % 2))

  div_digits : (k a b : ℕ) → f a b / 2 ^ k ≡ f (a / 2 ^ k) (b / 2 ^ k)
  div_digits zero a b = rw (div-one, div-one, div-one)
  div_digits (suc k) a b =
      rw (pow-two k, two_div, two_div, two_div, half a b) (div_digits k (a / 2) (b / 2))

  mod_two : (a b p : ℕ) → 0 < p → f a b % (2 * p) ≡ f (a / 2) (b / 2) % p * 2 + g (a % 2) (b % 2)
  mod_two a b p h = rw (two_mod (f a b) p h, half a b, low a b)

  mod_digits : (k a b : ℕ) → f a b % 2 ^ k ≡ f (a % 2 ^ k) (b % 2 ^ k) % 2 ^ k
  mod_digits zero a b = omega arith
  mod_digits (suc k) a b =
      let h : 0 < 2 ^ k = one-le-pow k 2 (omega arith) in
      rw (
        pow-two k,
        mod_two a b (2 ^ k) h,
        mod_two (a % (2 * 2 ^ k)) (b % (2 * 2 ^ k)) (2 ^ k) h,
        mod_two_half a (2 ^ k) h,
        mod_two_half b (2 ^ k) h,
        mod_two_low a (2 ^ k) h,
        mod_two_low b (2 ^ k) h,
        ← mod_digits k (a / 2) (b / 2),
      )

  bit_digits : (k a b : ℕ) → bit (f a b) k ≡ g (bit a k) (bit b k)
  bit_digits k a b = rw (div_digits k a b) (low (a / 2 ^ k) (b / 2 ^ k))

min-lt-two : (a b : ℕ) → a < 2 → b < 2 → min a b < 2
min-lt-two a b p q = omega arith

max-lt-two : (a b : ℕ) → a < 2 → b < 2 → max a b < 2
max-lt-two a b p q = omega arith

pub bit_and-div : (k a b : ℕ) → bit_and a b / 2 ^ k ≡ bit_and (a / 2 ^ k) (b / 2 ^ k)
bit_and-div = div_digits bit_and min min-lt-two bit_and_step

pub bit_or-div : (k a b : ℕ) → bit_or a b / 2 ^ k ≡ bit_or (a / 2 ^ k) (b / 2 ^ k)
bit_or-div = div_digits bit_or max max-lt-two bit_or_step

pub bit_and-mod : (k a b : ℕ) → bit_and a b % 2 ^ k ≡ bit_and (a % 2 ^ k) (b % 2 ^ k) % 2 ^ k
bit_and-mod = mod_digits bit_and min min-lt-two bit_and_step

pub bit_or-mod : (k a b : ℕ) → bit_or a b % 2 ^ k ≡ bit_or (a % 2 ^ k) (b % 2 ^ k) % 2 ^ k
bit_or-mod = mod_digits bit_or max max-lt-two bit_or_step

pub bit-bit_and : (k a b : ℕ) → bit (bit_and a b) k ≡ min (bit a k) (bit b k)
bit-bit_and = bit_digits bit_and min min-lt-two bit_and_step

pub bit-bit_or : (k a b : ℕ) → bit (bit_or a b) k ≡ max (bit a k) (bit b k)
bit-bit_or = bit_digits bit_or max max-lt-two bit_or_step

bit-half : (a k : ℕ) → bit (a / 2) k ≡ bit a (suc k)
bit-half a k = rw (pow-two k, two_div a (2 ^ k))

-- Two words with the same digits are the same.
zero_of_bits : (n a : ℕ) → a ≤ n → ((k : ℕ) → bit a k ≡ 0) → a ≡ 0
zero_of_bits n zero le h = refl
zero_of_bits zero (suc a) le h = absurd (omega arith)
zero_of_bits (suc n) (suc a) le h =
    let lowest : suc a % 2 ≡ 0 = rw div-one at (h 0) in
    let higher : suc a / 2 ≡ 0 =
      zero_of_bits n (suc a / 2) (omega arith) λ k. bit-half (suc a) k ∙ h (suc k) in
    absurd (omega arith)

eq_of_bits_fuel : (n a b : ℕ) → a ≤ n → ((k : ℕ) → bit a k ≡ bit b k) → a ≡ b
eq_of_bits_fuel n zero b le h =
    sym (zero_of_bits b b (le_refl b) λ k. omega (arith, h k, zero-div (2 ^ k)))
eq_of_bits_fuel zero (suc a) b le h = absurd (omega arith)
eq_of_bits_fuel (suc n) (suc a) b le h =
    let lowest : suc a % 2 ≡ b % 2 = rw (div-one, div-one) at (h 0) in
    let higher : suc a / 2 ≡ b / 2 =
      eq_of_bits_fuel n (suc a / 2) (b / 2) (omega arith)
        λ k. bit-half (suc a) k ∙ h (suc k) ∙ sym (bit-half b k) in
    omega arith

pub eq_of_bits : (a b : ℕ) → ((k : ℕ) → bit a k ≡ bit b k) → a ≡ b
eq_of_bits a b = eq_of_bits_fuel a a b (le_refl a)

pub bit_and-zero : (a : ℕ) → bit_and a 0 ≡ 0
bit_and-zero a = eq_of_bits _ _ λ k. omega (arith, bit-bit_and k a 0, zero-div (2 ^ k))

pub zero-bit_and : (a : ℕ) → bit_and 0 a ≡ 0
zero-bit_and a = eq_of_bits _ _ λ k. omega (arith, bit-bit_and k 0 a, zero-div (2 ^ k))

pub bit_or-zero : (a : ℕ) → bit_or a 0 ≡ a
bit_or-zero a = eq_of_bits _ _ λ k. omega (arith, bit-bit_or k a 0, zero-div (2 ^ k))

pub zero-bit_or : (a : ℕ) → bit_or 0 a ≡ a
zero-bit_or a = eq_of_bits _ _ λ k. omega (arith, bit-bit_or k 0 a, zero-div (2 ^ k))

-- A mask of `k` low ones keeps the remainder.
pub bit_and_mask : (k a : ℕ) → bit_and a (2 ^ k - 1) ≡ a % 2 ^ k
bit_and_mask zero a = rw bit_and-zero (omega arith)
bit_and_mask (suc k) a =
    let h : 0 < 2 ^ k = one-le-pow k 2 (omega arith) in
    let halved : (2 ^ suc k - 1) / 2 ≡ 2 ^ k - 1 = omega (arith, pow-two k) in
    let odd : (2 ^ suc k - 1) % 2 ≡ 1 = omega (arith, pow-two k) in
    let ih : bit_and (a / 2) ((2 ^ suc k - 1) / 2) ≡ a / 2 % 2 ^ k =
      rw halved (bit_and_mask k (a / 2)) in
    let split : a % 2 ^ suc k ≡ a / 2 % 2 ^ k * 2 + a % 2 = rw (pow-two k) (two_mod a (2 ^ k) h) in
    omega (arith, bit_and_step a (2 ^ suc k - 1))

-- A mask of one bit reads that digit.
pub bit_and_pow : (k a : ℕ) → bit_and a (2 ^ k) ≡ bit a k * 2 ^ k
bit_and_pow k a =
    let h : 0 < 2 ^ k = one-le-pow k 2 (omega arith) in
    let high : bit_and a (2 ^ k) / 2 ^ k ≡ bit a k =
      bit_and-div k a (2 ^ k)
      ∙ ap (bit_and (a / 2 ^ k)) (div_self h)
      ∙ bit_and_mask 1 (a / 2 ^ k) in
    let low_part : bit_and a (2 ^ k) % 2 ^ k ≡ 0 =
      bit_and-mod k a (2 ^ k)
      ∙ ap (λ t. bit_and (a % 2 ^ k) t % 2 ^ k) (mod_self (2 ^ k))
      ∙ ap (λ t. t % 2 ^ k) (bit_and-zero (a % 2 ^ k))
      ∙ zero-mod (2 ^ k) in
    sym (div-add-mod (bit_and a (2 ^ k)) (2 ^ k))
    ∙ ap₂ (λ q r. 2 ^ k * q + r) high low_part
    ∙ omega arith

-- The remainder by `2 ^ suc k` is the digit at `k` over the remainder by `2 ^ k`.
pub mod-pow_suc : (k a : ℕ) → a % 2 ^ suc k ≡ bit a k * 2 ^ k + a % 2 ^ k
mod-pow_suc k a = ap (λ p. a % p) (pow-two k) ∙ top_mod a (2 ^ k) (pow_pos k)
