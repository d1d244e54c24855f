-- ===== src/MaskIterator/Scan.antt =====
-- The set bits of a mask from the highest down, and what one scan of the iterator finds of them.
use acq200_firmware.Prelude.{
  ℕ, zero, suc, ◌+◌, ◌*◌, ◌/◌, ◌%◌, ◌^◌, ◌≤◌, ◌<◌, ◌≡◌, refl, sym, ap, ap₂, ◌∙◌, Bool, true, false,
  ◌⊎◌, Option, some, List, [], ◌∷◌, inl, inr, arith, bit_and, bit, bit_and_pow, ◌==◌, if◌then◌else◌,
  pow-two, pow_pos, mod-pow_suc, length,
}
use acq200_firmware.MaskIterator.{State, MaskIterator, decrement, scan_has, scan_next, count_from}

bit_cases : (mask i : ℕ) → (bit mask i ≡ 0) ⊎ (bit mask i ≡ 1)
bit_cases mask i = omega arith

-- The positions below `n` whose bit is set, highest first.
pub bits_below : ℕ → ℕ → List ℕ
bits_below mask zero = []
bits_below mask (suc n) = let rest = bits_below mask n in if bit mask n == 0 then rest else n ∷ rest

abbrev pub nonempty : List ℕ → Bool
nonempty [] = false
nonempty (x ∷ xs) = true

pub bits_below_zero : (mask : ℕ) → bits_below mask 0 ≡ []
unfolding bits_below
bits_below_zero mask = refl

pub bits_below_clear : (mask n : ℕ) → bit mask n ≡ 0 → bits_below mask (suc n) ≡ bits_below mask n
unfolding bits_below
bits_below_clear mask n h = rw h

pub bits_below_set : (mask n : ℕ) → bit mask n ≡ 1 → bits_below mask (suc n) ≡ n ∷ bits_below mask n
unfolding bits_below
bits_below_set mask n h = rw h

-- No set bit below `n` means that the low `n` bits are 0.
pub mod_of_no_bits : (mask n : ℕ) → nonempty (bits_below mask n) ≡ false → mask % 2 ^ n ≡ 0
mod_of_no_bits mask zero h = omega arith
mod_of_no_bits mask (suc n) h = elim (bit_cases mask n) [
  | inr one ↦ absurd (cc (h, ap nonempty (bits_below_set mask n one)))
  | inl clear ↦
      let less : nonempty (bits_below mask n) ≡ false =
        ap nonempty (sym (bits_below_clear mask n clear)) ∙ h in
      omega (arith, mod-pow_suc n mask, mod_of_no_bits mask n less, ap (λ b. b * 2 ^ n) clear)
]

-- A cursor on a clear bit, and on a set one.
masked_clear : (mask i : ℕ) → bit mask i ≡ 0 → (bit_and mask (2 ^ i) == 0) ≡ true
masked_clear mask i h = ground (arith, bit_and_pow i mask)

masked_set : (mask i : ℕ) → bit mask i ≡ 1 → (bit_and mask (2 ^ i) == 0) ≡ false
masked_set mask i h = ground (arith, bit_and_pow i mask, pow_pos i)

cursor_live : (i : ℕ) → (2 ^ i == 0) ≡ false
cursor_live i = ground (arith, pow_pos i)

pub half_cursor : (i : ℕ) → 2 ^ suc i / 2 ≡ 2 ^ i
half_cursor i = omega (arith, pow-two i)

pub scan_has_zero : (fuel mask : ℕ) → scan_has fuel mask 0 ≡ false
unfolding scan_has
scan_has_zero zero mask = refl
scan_has_zero (suc fuel) mask = refl

module _ (fuel mask i : ℕ) where
  scan_has_hit : bit mask i ≡ 1 → scan_has (suc fuel) mask (2 ^ i) ≡ true
  unfolding scan_has
  scan_has_hit h = rw (cursor_live i, scan_has) (rw (masked_set mask i h, scan_has))

  scan_has_miss : bit mask i ≡ 0 → scan_has (suc fuel) mask (2 ^ i) ≡ scan_has fuel mask (2 ^ i / 2)
  unfolding scan_has
  scan_has_miss h = rw (cursor_live i, scan_has) (rw (masked_clear mask i h, scan_has))

-- From bit `i` down hasNext finds whether a bit is set.
pub scan_has_lem :
    (fuel mask i : ℕ) → i < fuel → scan_has fuel mask (2 ^ i) ≡ nonempty (bits_below mask (suc i))
scan_has_lem zero mask i h = absurd (omega arith)
scan_has_lem (suc fuel) mask zero h = elim (bit_cases mask 0) [
  | inr one ↦ rw (scan_has_hit fuel mask 0 one, bits_below_set mask 0 one)
  | inl clear ↦
      scan_has_miss fuel mask 0 clear
      ∙ scan_has_zero fuel mask
      ∙ ap nonempty (sym (bits_below_clear mask 0 clear ∙ bits_below_zero mask))
]
scan_has_lem (suc fuel) mask (suc i) h = elim (bit_cases mask (suc i)) [
  | inr one ↦ rw (scan_has_hit fuel mask (suc i) one, bits_below_set mask (suc i) one)
  | inl clear ↦
      scan_has_miss fuel mask (suc i) clear
      ∙ ap (scan_has fuel mask) (half_cursor i)
      ∙ scan_has_lem fuel mask i (omega arith)
      ∙ ap nonempty (sym (bits_below_clear mask (suc i) clear))
]

module _ (fuel i : ℕ) (it : MaskIterator) where
  scan_next_hit : bit it.mask i ≡ 1 → scan_next (suc fuel) (2 ^ i) it ≡ (some it.icursor, it)
  unfolding scan_next
  scan_next_hit h = rw (cursor_live i, scan_next) (rw (masked_set it.mask i h, scan_next))

  scan_next_miss :
      bit it.mask i ≡ 0
      → scan_next (suc fuel) (2 ^ i) it
        ≡ scan_next fuel (2 ^ i / 2) (record it { icursor = decrement it.icursor })
  unfolding scan_next
  scan_next_miss h = rw (cursor_live i, scan_next) (rw (masked_clear it.mask i h, scan_next))

pub decrement-suc : (i : ℕ) → i < 32 → decrement (suc i) ≡ i
unfolding decrement
decrement-suc i h = omega arith

abbrev pub at : ℕ → State → ℕ → MaskIterator
at mask s i = record { mask = mask; icursor = i; state = s }

-- `out` stops at the highest set bit up to `i`.
pub record Found (mask : ℕ) (s : State) (i : ℕ) (out : Option ℕ × MaskIterator) : Type 0 where
  pub n : ℕ
  pub below : n ≤ i
  pub is_set : bit mask n ≡ 1
  pub highest : bits_below mask (suc i) ≡ n ∷ bits_below mask n
  pub returns : out ≡ (some n, at mask s n)

Found-here :
    (fuel mask : ℕ) (s : State) (i : ℕ)
    → bit mask i ≡ 1
    → Found mask s i (scan_next (suc fuel) (2 ^ i) (at mask s i))
Found-here fuel mask s i one = record {
  n = i;
  below = omega arith;
  is_set = one;
  highest = bits_below_set mask i one;
  returns = scan_next_hit fuel i (at mask s i) one;
}

-- From bit `i` down getNext stops at the highest set bit, if there is one.
pub scan_next_lem :
    (fuel mask : ℕ) (s : State) (i : ℕ)
    → i < fuel
    → i < 32
    → (bits_below mask (suc i) ≡ []) ⊎ Found mask s i (scan_next fuel (2 ^ i) (at mask s i))
scan_next_lem zero mask s i h w = absurd (omega arith)
scan_next_lem (suc fuel) mask s zero h w = elim (bit_cases mask 0) [
  | inr one ↦ inr (Found-here fuel mask s 0 one)
  | inl clear ↦ inl (bits_below_clear mask 0 clear ∙ bits_below_zero mask)
]
scan_next_lem (suc fuel) mask s (suc i) h w = elim (bit_cases mask (suc i)) [
  | inr one ↦ inr (Found-here fuel mask s (suc i) one)
  | inl clear ↦ elim (scan_next_lem fuel mask s i (omega arith) (omega arith)) [
    | inl empty ↦ inl (bits_below_clear mask (suc i) clear ∙ empty)
    | inr f ↦ inr (record {
      n = f.n;
      below = omega (arith, f.below);
      is_set = f.is_set;
      highest = bits_below_clear mask (suc i) clear ∙ f.highest;
      returns =
          scan_next_miss fuel (suc i) (at mask s (suc i)) clear
          ∙ ap₂ (λ c k. scan_next fuel c (at mask s k)) (half_cursor i)
              (decrement-suc i (omega arith))
          ∙ f.returns;
    })
  ]
]

module _ (fuel mask i n : ℕ) where
  count_from_set :
      bit mask i ≡ 1
      → count_from (suc fuel) mask (2 ^ i) n ≡ count_from fuel mask (2 ^ i / 2) (n + 1)
  unfolding count_from
  count_from_set h = rw (cursor_live i, count_from) (rw (masked_set mask i h))

  count_from_clear :
      bit mask i ≡ 0 → count_from (suc fuel) mask (2 ^ i) n ≡ count_from fuel mask (2 ^ i / 2) n
  unfolding count_from
  count_from_clear h = rw (cursor_live i, count_from) (rw (masked_clear mask i h))

count_from_zero : (fuel mask n : ℕ) → count_from fuel mask 0 n ≡ n
unfolding count_from
count_from_zero zero mask n = refl
count_from_zero (suc fuel) mask n = refl

length-bits_below_set :
    (mask i : ℕ)
    → bit mask i ≡ 1
    → length (bits_below mask (suc i)) ≡ suc (length (bits_below mask i))
length-bits_below_set mask i one = ap length (bits_below_set mask i one)

length-bits_below_clear :
    (mask i : ℕ) → bit mask i ≡ 0 → length (bits_below mask (suc i)) ≡ length (bits_below mask i)
length-bits_below_clear mask i clear = ap length (bits_below_clear mask i clear)

count_from_half :
    (fuel mask i n : ℕ)
    → i ≤ fuel
    → count_from fuel mask (2 ^ i / 2) n ≡ n + length (bits_below mask i)
count_from_half fuel mask zero n h =
    count_from_zero fuel mask n ∙ omega (arith, ap length (bits_below_zero mask))
count_from_half zero mask (suc i) n h = absurd (omega arith)
count_from_half (suc fuel) mask (suc i) n h =
    ap (λ c. count_from (suc fuel) mask c n) (half_cursor i) ∙ elim (bit_cases mask i) [
      | inr one ↦
          count_from_set fuel mask i n one
          ∙ omega (
            arith,
            count_from_half fuel mask i (n + 1) (omega arith),
            length-bits_below_set mask i one,
          )
      | inl clear ↦
          count_from_clear fuel mask i n clear
          ∙ omega (
            arith,
            count_from_half fuel mask i n (omega arith),
            length-bits_below_clear mask i clear,
          )
    ]

-- A scan from bit `i` down counts the set bits.
pub count_from_lem :
    (fuel mask i n : ℕ)
    → i < fuel
    → count_from fuel mask (2 ^ i) n ≡ n + length (bits_below mask (suc i))
count_from_lem fuel mask i n h =
    ap (λ c. count_from fuel mask c n) (sym (half_cursor i))
    ∙ count_from_half fuel mask (suc i) n (omega arith)
