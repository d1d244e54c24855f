-- ===== src/MaskIterator/Laws.antt =====
-- The loop over a mask visits the set bits from the highest down, and ends.
use native.Mathlib.Nat.{pow-le-pow_right}
use native.Mathlib.Decide.{dec_lt}
use mathlib.Core.List.{map-map}
use acq200_firmware.Prelude.{
  ℕ, zero, suc, ◌+◌, ◌^◌, ◌≤◌, ◌<◌, ◌≡◌, refl, sym, ap, ◌∙◌, ◌≢◌, ◌⊎◌, true, false, Option, some,
  [], ◌∷◌, Bool-cases, inl, inr, arith, bit, bit-bit_and, map,
}
use mathlib.Core.Option
use acq200_firmware.MaskIterator.{
  idle, started, MaskIterator, shl_one, sar_one, scan_has, scan_next, rounds, has_next, has_next_in,
  get_next, get_next_in, iterate, start, disable_irq_nosync, enable_irq, ints_disable, ints_enable,
}
use acq200_firmware.MaskIterator.Scan.{
  bits_below, bits_below_zero, nonempty, at, scan_has_lem, scan_next_lem, scan_has_zero,
  half_cursor, decrement-suc, mod_of_no_bits,
}

-- Behind index `i` the iterator can go on rightly: below 31, or with bits left.
abbrev Ready : ℕ → ℕ → Type 0
Ready mask i = (i < 31) ⊎ ((i ≡ 31) × (bit mask 31 ≡ 1) × (nonempty (bits_below mask 31) ≡ true))

top_pair : (mask fuel : ℕ) → bit mask 31 ≡ 1 → scan_has (suc fuel) mask 0xC0000000 ≡ true
unfolding scan_has
top_pair mask fuel h = ground (arith, bit-bit_and 31 mask 0xC0000000)

small_pow : (j : ℕ) → j < 31 → 2 ^ j < 2 ^ 31
small_pow j h = omega (arith, pow-le-pow_right {n = 2} (omega arith) {i = j} {j = 30} (omega arith))

shl_one_lem : (i : ℕ) → i < 32 → shl_one i ≡ some (2 ^ i)
unfolding shl_one
shl_one_lem i h = ground arith

zero_has : (mask : ℕ) → scan_has rounds mask (sar_one 1) ≡ nonempty []
unfolding sar_one
zero_has mask = scan_has_zero rounds mask

top_has : (mask : ℕ) → bit mask 31 ≡ 1 → scan_has rounds mask (sar_one (2 ^ 31)) ≡ true
unfolding sar_one
top_has mask h = top_pair mask 32 h

sar_one_lem : (j : ℕ) → suc j < 31 → sar_one (2 ^ suc j) ≡ 2 ^ j
unfolding sar_one
sar_one_lem j h = ground (arith, small_pow (suc j) h, half_cursor j)

-- hasNext behind index `i` says whether a lower bit is set, and moves nothing.
has_next_started :
    (mask i : ℕ)
    → Ready mask i
    → has_next (at mask started i) ≡ some (nonempty (bits_below mask i), at mask started i)
unfolding has_next has_next_in
has_next_started mask zero (inl low) =
    rw (shl_one_lem 0 (omega arith)) (cc (zero_has mask, bits_below_zero mask))
has_next_started mask (suc j) (inl low) =
    rw (shl_one_lem (suc j) (omega arith), sar_one_lem j low)
      (ap (λ b. some (b, at mask started (suc j))) (scan_has_lem rounds mask j (omega arith)))
has_next_started mask i (inr (e, top, more)) =
    rw (e, shl_one_lem 31 (omega arith))
      (ap (λ b. some (b, at mask started 31)) (top_has mask top ∙ sym more))

get_next_started :
    (mask j : ℕ)
    → j < 31
    → get_next (at mask started (suc j)) ≡ some (scan_next rounds (2 ^ j) (at mask started j))
unfolding get_next get_next_in
get_next_started mask j h = rw (decrement-suc j (omega arith), shl_one_lem j (omega arith))

module _ (fuel : ℕ) (it it' : MaskIterator) where
  iterate_end : has_next it ≡ some (false, it') → iterate (suc fuel) it ≡ some []
  unfolding iterate
  iterate_end e = rw (e, iterate)

  iterate_next :
      (i : Option ℕ) (it'' : MaskIterator)
      → has_next it ≡ some (true, it')
      → get_next it' ≡ some (i, it'')
      → iterate (suc fuel) it ≡ Option.map (λ is. i ∷ is) (iterate fuel it'')
  unfolding iterate
  iterate_next i it'' e f = rw (e, iterate) (rw f)

iterate_started :
    (fuel mask i : ℕ)
    → Ready mask i
    → i < 32
    → i < fuel
    → iterate fuel (at mask started i) ≡ some (map some (bits_below mask i))
iterate_started zero mask i r w h = absurd (omega arith)
iterate_started (suc fuel) mask zero r w h =
    iterate_end fuel (at mask started 0) (at mask started 0) (
      has_next_started mask 0 r
      ∙ ap (λ l. some (nonempty l, at mask started 0)) (bits_below_zero mask))
    ∙ ap (λ l. some (map some l)) (sym (bits_below_zero mask))
iterate_started (suc fuel) mask (suc j) r w h =
    elim (scan_next_lem rounds mask started j (omega arith) (omega arith)) [
      | inl empty ↦
          iterate_end fuel (at mask started (suc j)) (at mask started (suc j)) (
            has_next_started mask (suc j) r
            ∙ ap (λ l. some (nonempty l, at mask started (suc j))) empty)
          ∙ ap (λ l. some (map some l)) (sym empty)
      | inr f ↦
          iterate_next fuel (at mask started (suc j)) (at mask started (suc j)) (some f.n)
            (at mask started f.n)
            (has_next_started mask (suc j) r
              ∙ ap (λ l. some (nonempty l, at mask started (suc j))) f.highest)
            (get_next_started mask j (omega arith) ∙ ap some f.returns)
          ∙ ap (Option.map (λ is. some f.n ∷ is)) (
              iterate_started fuel mask f.n (inl (omega (arith, f.below))) (omega (arith, f.below))
                (omega (arith, f.below)))
          ∙ ap (λ l. some (map some l)) (sym f.highest)
    ]

has_next_idle :
    (mask : ℕ) → has_next (start mask) ≡ some (nonempty (bits_below mask 32), at mask idle 31)
unfolding has_next has_next_in start
has_next_idle mask = ap (λ b. some (b, at mask idle 31)) (scan_has_lem rounds mask 31 (omega arith))

get_next_idle :
    (mask : ℕ) → get_next (at mask idle 31) ≡ some (scan_next rounds (2 ^ 31) (at mask started 31))
unfolding get_next get_next_in
get_next_idle mask = refl

-- With more than bit 31 set, the iterator goes on behind any index that it finds.
Ready-Found : (mask n : ℕ) → mask < 2 ^ 32 → mask ≢ 2 ^ 31 → n ≤ 31 → bit mask n ≡ 1 → Ready mask n
Ready-Found mask n small other le one = elim (dec_lt n 31) [
  | yes low ↦ inl low
  | no high ↦
      let top : n ≡ 31 = omega arith in
      let one' : bit mask 31 ≡ 1 = rw top at one in
      elim (Bool-cases (nonempty (bits_below mask 31))) [
        | inl more ↦ inr (top, one', more)
        | inr none_left ↦ absurd (other (omega (arith, mod_of_no_bits mask 31 none_left)))
      ]
]

iterate_lem :
    (mask : ℕ)
    → mask < 2 ^ 32
    → mask ≢ 2 ^ 31
    → iterate (rounds + 1) (start mask) ≡ some (map some (bits_below mask 32))
iterate_lem mask small other =
    elim (scan_next_lem rounds mask started 31 (omega arith) (omega arith)) [
      | inl empty ↦
          iterate_end rounds (start mask) (at mask idle 31)
            (has_next_idle mask ∙ ap (λ l. some (nonempty l, at mask idle 31)) empty)
          ∙ ap (λ l. some (map some l)) (sym empty)
      | inr f ↦
          iterate_next rounds (start mask) (at mask idle 31) (some f.n) (at mask started f.n)
            (has_next_idle mask ∙ ap (λ l. some (nonempty l, at mask idle 31)) f.highest)
            (get_next_idle mask ∙ ap some f.returns)
          ∙ ap (Option.map (λ is. some f.n ∷ is)) (
              iterate_started rounds mask f.n (Ready-Found mask f.n small other f.below f.is_set)
                (omega (arith, f.below)) (omega (arith, f.below)))
          ∙ ap (λ l. some (map some l)) (sym f.highest)
    ]

-- For a 32-bit mask other than 0x80000000 alone, acq32_intsDisable and acq32_intsEnable end, and
-- call the kernel once for each set bit, from the highest to the lowest, and for nothing else.
pub ints_disable-enable :
    (irqs : ℕ)
    → irqs < 2 ^ 32
    → irqs ≢ 2 ^ 31
    → (ints_disable irqs ≡ some (map (λ i. disable_irq_nosync (some i)) (bits_below irqs 32)))
      × (ints_enable irqs ≡ some (map (λ i. enable_irq (some i)) (bits_below irqs 32)))
unfolding ints_disable ints_enable
ints_disable-enable irqs small other = (
  ap (Option.map (map disable_irq_nosync)) (iterate_lem irqs small other)
      ∙ ap some (map-map disable_irq_nosync some (bits_below irqs 32)),
  ap (Option.map (map enable_irq)) (iterate_lem irqs small other)
      ∙ ap some (map-map enable_irq some (bits_below irqs 32)),
)
