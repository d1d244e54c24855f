-- ===== src/Command/Threshold/Bits.antt =====
-- acq32_volts2bits within the range of a board.
use native.Mathlib.Nat.{div-le_self, div-lt_iff_lt-mul, zero-div, mul-div_cancel}
use mathlib.Core.Path.{subst}
use acq200_firmware.Prelude.{ℕ, ◌+◌, ◌*◌, ◌/◌, ◌^◌, ◌<◌, ◌≤◌, ◌≡◌, refl, ap, ap₂, sym, ◌∙◌, arith}
use acq200_firmware.Prelude.Int.{ℤ, pos, sub_ℕ, ◌+ℤ◌, ◌-ℤ◌, ◌*ℤ◌, ◌/ℤ◌, ◌≤ℤ◌, int_of, word_of}
use acq200_firmware.Command.Threshold.{volts2bits, wrap, clamp16, max16, min16}

-- An int that fits does not wrap.
wrap_pos : (n : ℕ) → n < 2 ^ 31 → wrap (pos n) ≡ pos n
unfolding int_of word_of
wrap_pos n h = ground arith

difference : (a : ℤ) (n : ℕ) → (a +ℤ pos n) -ℤ a ≡ pos n
unfolding ◌+ℤ◌ ◌-ℤ◌
difference a n = ground arith

scale : (x : ℕ) → pos 0xffff *ℤ pos x ≡ pos (0xffff * x)
unfolding ◌*ℤ◌
scale x = ground arith

below_range : (a : ℤ) (n : ℕ) → (a -ℤ pos n) -ℤ a ≡ sub_ℕ 0 n
unfolding ◌-ℤ◌
below_range a n = ground arith

offset_lem : (n : ℕ) → n < 2 ^ 31 → wrap (pos n -ℤ pos 32768) ≡ sub_ℕ n 32768
unfolding ◌-ℤ◌ int_of word_of
offset_lem n h = ground arith

quotient_pos : (a b : ℕ) → pos a /ℤ pos b ≡ pos (a / b)
unfolding ◌/ℤ◌
quotient_pos a b = refl

-- The share of the range, as far as 0xffff, before the clamp
pub share : ℕ → ℕ → ℕ
share x r = 0xffff * x / r

share_small : (x r : ℕ) → 0 < r → x ≤ 32768 → share x r < 2 ^ 31
unfolding share
share_small x r h k = omega (arith, div-le_self (0xffff * x) r)

module _ (vmin : ℤ) (r : ℕ) (some_range : 0 < r) (small : r ≤ 32768) where
  unclamped :
      (x : ℕ)
      → x ≤ 32768
      → volts2bits (vmin +ℤ pos x) vmin (vmin +ℤ pos r) ≡ clamp16 (sub_ℕ (share x r) 32768)
  unfolding volts2bits share
  unclamped x h =
      let top = ap wrap (difference vmin x) ∙ wrap_pos x (omega arith) in
      let range = ap wrap (difference vmin r) ∙ wrap_pos r (omega arith) in
      let scaled =
        ap (λ t. wrap (pos 0xffff *ℤ t)) top
        ∙ ap wrap (scale x)
        ∙ wrap_pos (0xffff * x) (omega arith) in
      ap clamp16 (
        ap (λ t. wrap (t -ℤ pos 32768)) (ap₂ ◌/ℤ◌ scaled range ∙ quotient_pos (0xffff * x) r)
        ∙ offset_lem (share x r) (share_small x r some_range h))

clamped-le : (n m : ℕ) → n ≤ m → clamp16 (sub_ℕ n 32768) ≤ℤ clamp16 (sub_ℕ m 32768)
unfolding clamp16
clamped-le n m h = ground arith

clamped_bounds : (n : ℕ) → (min16 ≤ℤ clamp16 (sub_ℕ n 32768)) × (clamp16 (sub_ℕ n 32768) ≤ℤ max16)
unfolding clamp16
clamped_bounds n = ground arith

div_mono : (a b r : ℕ) → 0 < r → a ≤ b → a / r ≤ b / r
div_mono a b r h le =
    let above : b < (b / r + 1) * r = (div-lt_iff_lt-mul h).0 (omega arith) in
    let below : a / r < b / r + 1 = (div-lt_iff_lt-mul h).1 (omega (arith, above, le)) in
    omega (arith, below)

share_mono : (x y r : ℕ) → 0 < r → x ≤ y → share x r ≤ share y r
unfolding share
share_mono x y r h le = div_mono (0xffff * x) (0xffff * y) r h (omega (arith, le))

share_zero : (r : ℕ) → share 0 r ≡ 0
unfolding share
share_zero r = zero-div r

share_full : (r : ℕ) → 0 < r → share r r ≡ 0xffff
unfolding share
share_full r h = mul-div_cancel 0xffff h

clamp_low : clamp16 (sub_ℕ 0 32768) ≡ min16
unfolding clamp16
clamp_low = refl

clamp_high : clamp16 (sub_ℕ 0xffff 32768) ≡ max16
unfolding clamp16
clamp_high = refl

-- For a board whose range is up to 32768 mV wide, acq32_volts2bits gives a 16-bit number for every
-- voltage from the bottom of the range to 32768 mV above it, and never a smaller one for a larger
-- voltage; it is -32768 at the bottom and 32767 at the top of the range.
pub volts2bits_range :
    (vmin : ℤ) (r x y : ℕ)
    → 0 < r
    → r ≤ 32768
    → x ≤ y
    → y ≤ 32768
    → (min16 ≤ℤ volts2bits (vmin +ℤ pos x) vmin (vmin +ℤ pos r))
      × (volts2bits (vmin +ℤ pos x) vmin (vmin +ℤ pos r)
          ≤ℤ volts2bits (vmin +ℤ pos y) vmin (vmin +ℤ pos r))
      × (volts2bits (vmin +ℤ pos y) vmin (vmin +ℤ pos r) ≤ℤ max16)
      × (volts2bits (vmin +ℤ pos 0) vmin (vmin +ℤ pos r) ≡ min16)
      × (volts2bits (vmin +ℤ pos r) vmin (vmin +ℤ pos r) ≡ max16)
volts2bits_range vmin r x y h small le fits =
    let at = unclamped vmin r h small in
    let at_x = sym (at x (omega (arith, le, fits))) in
    let at_y = sym (at y fits) in
    (
      subst (λ v. min16 ≤ℤ v) at_x (clamped_bounds (share x r)).0,
      subst (λ v. v ≤ℤ volts2bits (vmin +ℤ pos y) vmin (vmin +ℤ pos r)) at_x
          (subst (λ v. clamp16 (sub_ℕ (share x r) 32768) ≤ℤ v) at_y
            (clamped-le (share x r) (share y r) (share_mono x y r h le))),
      subst (λ v. v ≤ℤ max16) at_y (clamped_bounds (share y r)).1,
      at 0 (omega arith) ∙ ap (λ n. clamp16 (sub_ℕ n 32768)) (share_zero r) ∙ clamp_low,
      at r small ∙ ap (λ n. clamp16 (sub_ℕ n 32768)) (share_full r h) ∙ clamp_high,
    )
