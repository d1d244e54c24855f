-- ===== src/Hex/Binary.antt =====
-- abtoi reads what itoba writes.
use native.Mathlib.Nat.{div_self, mod_self, div-add-mod, pow-le-pow_right}
use native.Mathlib.Nat.{div-eq_of_lt, mod-lt}
use acq200_firmware.Prelude.{
  ℕ, zero, suc, ◌+◌, ◌*◌, ◌/◌, ◌%◌, ◌^◌, ◌<◌, ◌≤◌, ◌≡◌, ◌⊎◌, refl, sym, ap, ap₂, ◌∙◌, arith, true,
  false, bit_or, bit, u32, bit_or-div, bit_or-mod, bit_or-zero, bit_and_pow, mod-pow_suc, pow-two,
  pow_pos, ◌!=◌, if◌then◌else◌, inl, inr, ◌∷◌,
}
use acq200_firmware.Busprot.{has}
use acq200_firmware.Hex.{abtoi_from, abtoi, itoba_from, itoba}

-- The bit at `k` put into the bits below it.
bit_put : (k xx : ℕ) → bit_or (xx % 2 ^ k) (2 ^ k) ≡ 2 ^ k + xx % 2 ^ k
bit_put k xx =
    let p = pow_pos k in
    let below : xx % 2 ^ k < 2 ^ k = mod-lt xx p in
    let word = bit_or (xx % 2 ^ k) (2 ^ k) in
    let high : word / 2 ^ k ≡ 1 =
      bit_or-div k (xx % 2 ^ k) (2 ^ k) ∙ ap₂ bit_or (div-eq_of_lt below) (div_self p) in
    let low : word % 2 ^ k ≡ xx % 2 ^ k =
      bit_or-mod k (xx % 2 ^ k) (2 ^ k)
      ∙ ap (λ t. bit_or (xx % 2 ^ k % 2 ^ k) t % 2 ^ k) (mod_self (2 ^ k))
      ∙ ap (λ t. t % 2 ^ k) (bit_or-zero (xx % 2 ^ k % 2 ^ k))
      ∙ twice (2 ^ k) (xx % 2 ^ k) p
      ∙ twice (2 ^ k) xx p in
    sym (div-add-mod word (2 ^ k)) ∙ ap₂ (λ q r. 2 ^ k * q + r) high low ∙ omega arith
  where
    twice : (q a : ℕ) → 0 < q → a % q % q ≡ a % q
    twice q a h = grind arith

clear_bit : (k xx : ℕ) → bit xx k ≡ 0 → has xx (2 ^ k) ≡ false
clear_bit k xx e = ap (λ w. w != 0) (bit_and_pow k xx ∙ ap (λ d. d * 2 ^ k) e ∙ no_times (2 ^ k))
  where
    no_times : (p : ℕ) → 0 * p ≡ 0
    no_times p = omega arith

set_bit : (k xx : ℕ) → bit xx k ≡ 1 → has xx (2 ^ k) ≡ true
set_bit k xx e =
    ap (λ w. w != 0) (bit_and_pow k xx ∙ ap (λ d. d * 2 ^ k) e) ∙ one_bit (2 ^ k) (pow_pos k)
  where
    one_bit : (p : ℕ) → 0 < p → (1 * p != 0) ≡ true
    one_bit p h = ground arith

bit_cases : (k xx : ℕ) → (bit xx k ≡ 0) ⊎ (bit xx k ≡ 1)
bit_cases k xx = two_cases (bit xx k) (omega arith)
  where
    two_cases : (d : ℕ) → d < 2 → (d ≡ 0) ⊎ (d ≡ 1)
    two_cases d h = ground arith

-- The remainder by the next power, by the bit.
next_clear : (k xx : ℕ) → bit xx k ≡ 0 → xx % 2 ^ k ≡ xx % 2 ^ (k + 1)
next_clear k xx e =
    let one_more : suc k ≡ k + 1 = omega arith in
    let none_here : bit xx k * 2 ^ k ≡ 0 * 2 ^ k = ap (λ d. d * 2 ^ k) e in
    let zero_times : 0 * 2 ^ k ≡ 0 = omega arith in
    omega (arith, mod-pow_suc k xx, none_here, zero_times) ∙ ap (λ n. xx % 2 ^ n) one_more

next_set : (k xx : ℕ) → bit xx k ≡ 1 → bit_or (xx % 2 ^ k) (2 ^ k) ≡ xx % 2 ^ (k + 1)
next_set k xx e =
    let one_more : suc k ≡ k + 1 = omega arith in
    bit_put k xx
    ∙ ap (λ t. t + xx % 2 ^ k) (one_times (2 ^ k) ∙ ap (λ d. d * 2 ^ k) (sym e))
    ∙ sym (mod-pow_suc k xx)
    ∙ ap (λ n. xx % 2 ^ n) one_more
  where
    one_times : (p : ℕ) → p ≡ 1 * p
    one_times p = omega arith

next_cursor : (k cursor : ℕ) → k + 2 ≤ 32 → cursor ≡ 2 ^ k → u32 (cursor * 2) ≡ 2 ^ (k + 1)
next_cursor k cursor room is =
    let one_more : suc k ≡ k + 1 = omega arith in
    let small : 2 ^ (k + 1) ≤ 2 ^ 31 =
      pow-le-pow_right {n = 2} (omega arith) {i = k + 1} {j = 31} (omega arith) in
    let doubled : cursor * 2 ≡ 2 ^ (k + 1) =
      omega (arith, is, pow-two k, ap (λ n. 2 ^ n) one_more) in
    ap u32 doubled ∙ omega (arith, small)

abtoi_from-itoba_from :
    (left k cursor xx : ℕ)
    → k + left ≤ 32
    → (0 < left → cursor ≡ 2 ^ k)
    → abtoi_from (itoba_from left k xx) cursor (xx % 2 ^ k) ≡ xx % 2 ^ (k + left)
unfolding abtoi_from itoba_from
abtoi_from-itoba_from zero k cursor xx room is = ap (λ n. xx % 2 ^ n) (omega arith)
abtoi_from-itoba_from (suc left) k cursor xx room is =
    let rest = itoba_from left (k + 1) xx in
    let acc = xx % 2 ^ k in
    let ih =
      abtoi_from-itoba_from left (k + 1) (u32 (cursor * 2)) xx (omega arith)
        λ more. next_cursor k cursor (omega arith) (is (omega arith)) in
    let ends : xx % 2 ^ (k + 1 + left) ≡ xx % 2 ^ (k + suc left) =
      ap (λ n. xx % 2 ^ n) (omega arith) in
    elim (bit_cases k xx) [
      | inl e ↦
          ap (λ b. abtoi_from ((if b then b'1' else b'0') ∷ rest) cursor acc) (clear_bit k xx e)
          ∙ ap (abtoi_from rest (u32 (cursor * 2))) (next_clear k xx e)
          ∙ ih
          ∙ ends
      | inr e ↦
          ap (λ b. abtoi_from ((if b then b'1' else b'0') ∷ rest) cursor acc) (set_bit k xx e)
          ∙ ap (λ c. abtoi_from rest (u32 (cursor * 2)) (bit_or acc c)) (is (omega arith))
          ∙ ap (abtoi_from rest (u32 (cursor * 2))) (next_set k xx e)
          ∙ ih
          ∙ ends
    ]

-- abtoi gives back every 32-bit word from the string that itoba makes of it.
pub abtoi-itoba : (xx : ℕ) → xx < 2 ^ 32 → abtoi (itoba xx) ≡ xx
unfolding abtoi itoba
abtoi-itoba xx small =
    ap (abtoi_from (itoba_from 32 0 xx) 1) (omega arith)
    ∙ abtoi_from-itoba_from 32 0 1 xx (omega arith) (λ h. refl)
    ∙ omega arith
