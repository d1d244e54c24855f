-- ===== src/LlProtocol/Clock.antt =====
-- llv2_extend32 keeps a 32-bit count of time from a 12-bit one.
use acq200_firmware.Prelude.{
  ℕ, ◌+◌, ◌*◌, ◌/◌, ◌%◌, ◌^◌, ◌<◌, ◌≤◌, ◌≡◌, refl, ap, ◌∙◌, arith, bit_and, bit_or, bit_not,
  bit_and_mask, bit_and-div, bit_or-div, bit_and-mod, bit_or-mod, bit_and-zero, bit_or-zero,
  zero-bit_or, ltb, List, [], ◌∷◌, if◌then◌else◌,
}
use acq200_firmware.LlProtocol.{tcr_mask, extend32}

-- The low 12 bits replaced.
replaced_lem :
    (y t : ℕ)
    → y < 2 ^ 32
    → t < 4096
    → bit_or (bit_and y (bit_not tcr_mask)) t ≡ y / 4096 * 4096 + t
replaced_lem y t small low =
    let kept = bit_and y (bit_not tcr_mask) in
    let kept_high : kept / 4096 ≡ y / 4096 =
      bit_and-div 12 y (bit_not tcr_mask) ∙ bit_and_mask 20 (y / 4096) ∙ omega arith in
    let kept_low : kept % 4096 ≡ 0 =
      bit_and-mod 12 y (bit_not tcr_mask) ∙ ap (λ m. m % 4096) (bit_and-zero (y % 4096)) in
    let no_high : t / 4096 ≡ 0 = omega arith in
    let high : bit_or kept t / 4096 ≡ kept / 4096 =
      bit_or-div 12 kept t ∙ ap (bit_or (kept / 4096)) no_high ∙ bit_or-zero (kept / 4096) in
    let under : bit_or kept t % 4096 ≡ t =
      bit_or-mod 12 kept t
      ∙ ap (λ k. bit_or k (t % 4096) % 4096) kept_low
      ∙ ap (λ m. m % 4096) (zero-bit_or (t % 4096))
      ∙ omega arith in
    omega (arith, high, under, kept_high)

extended : ℕ → ℕ → ℕ
extended y t =
    if ltb t (y % 4096) then (y / 4096 * 4096 + t + 4096) % 2 ^ 32 else y / 4096 * 4096 + t

extend32_lem : (y new12 : ℕ) → y < 2 ^ 32 → extend32 y new12 ≡ extended y (new12 % 4096)
unfolding extend32 extended
extend32_lem y new12 small =
    let t : bit_and new12 tcr_mask ≡ new12 % 4096 = bit_and_mask 12 new12 in
    let old : bit_and y tcr_mask ≡ y % 4096 = bit_and_mask 12 y in
    rw (t, old, replaced_lem y (new12 % 4096) small (omega arith)) refl

extended_time :
    (y count t : ℕ)
    → y < 2 ^ 32
    → y ≤ count
    → count < y + 4096
    → t ≡ count % 4096
    → extended y t ≡ count % 2 ^ 32
unfolding extended
extended_time y count t small from near low = ground arith

-- When less than 4096 ticks have passed since a 32-bit count was taken, llv2_extend32 gives the
-- count that it is now, modulo 2^32, from any word whose low 12 bits are those of the count.
pub extend32-count :
    (old32 count new12 : ℕ)
    → old32 < 2 ^ 32
    → old32 ≤ count
    → count < old32 + 4096
    → new12 % 4096 ≡ count % 4096
    → extend32 old32 new12 ≡ count % 2 ^ 32
extend32-count old32 count new12 small from near low =
    extend32_lem old32 new12 small ∙ extended_time old32 count (new12 % 4096) small from near low

-- The host's count after one sample follows another, each that many ticks after the last, when all
-- it is shown is each time's low 12 bits.
pub track : ℕ → ℕ → List ℕ → ℕ
track count time [] = count
track count time (ticks ∷ rest) = track (extend32 count ((time + ticks) % 4096)) (time + ticks) rest

abbrev pub total : List ℕ → ℕ
total [] = 0
total (ticks ∷ rest) = ticks + total rest

abbrev pub AllNear : List ℕ → Type 0
AllNear [] = Unit
AllNear (ticks ∷ rest) = (ticks < 4096) × AllNear rest

-- However long a run of samples is, if no two are 4096 ticks or more apart then the host's count,
-- kept with llv2_extend32 from the 12-bit times alone, is the true time modulo 2^32.
pub track-total :
    (steps : List ℕ) (time : ℕ)
    → AllNear steps
    → track (time % 2 ^ 32) time steps ≡ (time + total steps) % 2 ^ 32
unfolding track
track-total [] time near = omega arith
track-total (ticks ∷ rest) time (close, near) =
    let base = time % 2 ^ 32 in
    let step : extend32 base ((time + ticks) % 4096) ≡ (time + ticks) % 2 ^ 32 =
      extend32-count base (base + ticks) ((time + ticks) % 4096) (omega arith) (omega arith)
        (omega arith) (omega arith)
      ∙ omega arith in
    ap (λ c. track c (time + ticks) rest) step ∙ track-total rest (time + ticks) near ∙ omega arith
