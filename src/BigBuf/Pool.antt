-- ===== src/BigBuf/Pool.antt =====
-- acq200_bb_pool_alloc comes to an end, and hands out only what is free.
use mathlib.Core.Path.{subst}
use acq200_firmware.Prelude.{
  ℕ, zero, suc, ◌+◌, ◌-◌, ◌%◌, ◌<◌, ◌≤◌, ◌≡◌, refl, sym, arith, Bool, true, false, Option, none,
  some, List, [], ◌∷◌, set, ◌==◌, ==_iff, Bool-cases, inl, inr,
}
use acq200_firmware.BigBuf.{
  incr, Sleep, timeout, woken, wake, Alloc, allocated, timed_out, sleeping, out_of_fuel,
  is_reserved, alloc_from, rounds_for, pool_alloc, ndatamapping,
}

-- What the wakes that the loop has come to have made of the marks.
pub data Woken : List Sleep → List Bool → List Bool → Type 0 where
  at_once : {sleeps : List Sleep} {reserved : List Bool} → Woken sleeps reserved reserved
  after_wake :
      {freed : List ℕ} {later : List Sleep} {reserved before : List Bool}
      → Woken later (wake freed reserved) before
      → Woken (woken freed ∷ later) reserved before

-- A buffer that is handed out is a data buffer that was free after the wakes, and is reserved with
-- all else as it was; a timeout comes at a data buffer that is reserved after the wakes, and changes
-- no mark; the loop never runs out of rounds.
abbrev pub Handed : List Sleep → List Bool → Alloc → Type 0
Handed sleeps reserved (allocated ibuf after) =
    (ibuf < ndatamapping)
    × ((before : List Bool) × Woken sleeps reserved before
        × (is_reserved ibuf before ≡ false)
        × (after ≡ set before ibuf true))
Handed sleeps reserved (timed_out ibuf after) =
    (ibuf < ndatamapping) × Woken sleeps reserved after × (is_reserved ibuf after ≡ true)
Handed sleeps reserved sleeping = Unit
Handed sleeps reserved out_of_fuel = ⊥

Handed-wake :
    (freed : List ℕ) (later : List Sleep) (reserved : List Bool) (result : Alloc)
    → Handed later (wake freed reserved) result
    → Handed (woken freed ∷ later) reserved result
Handed-wake freed later reserved (allocated ibuf after) (p, (before, w, e, f)) =
    (p, (before, after_wake w, e, f))
Handed-wake freed later reserved (timed_out ibuf after) (p, w, e) = (p, after_wake w, e)
Handed-wake freed later reserved sleeping h = h
Handed-wake freed later reserved out_of_fuel h = h

rounds_enough : (sleeps : List Sleep) → 16 ≤ rounds_for sleeps
unfolding rounds_for
rounds_enough [] = omega arith
rounds_enough (sleep ∷ later) = omega (arith, rounds_enough later)

rounds_next :
    (sleep : Sleep) (later : List Sleep) → rounds_for (sleep ∷ later) ≡ 15 + rounds_for later
unfolding rounds_for
rounds_next sleep later = refl

incr_small : (ibuf : ℕ) → ibuf < 15 → incr (some ibuf) < 15
unfolding incr
incr_small ibuf h = ground arith

-- INCR brings the loop one nearer to where it began, or away from it to the far end.
incr_nearer :
    (ibuf1 ibuf : ℕ)
    → ibuf1 < 15
    → ibuf < 15
    → (ibuf == ibuf1) ≡ false
    → (ibuf1 + 15 - incr (some ibuf)) % 15 + 1 ≡ (ibuf1 + 15 - ibuf) % 15
unfolding incr
incr_nearer ibuf1 ibuf p q other = ground arith

incr_far : (ibuf1 : ℕ) → ibuf1 < 15 → (ibuf1 + 15 - incr (some ibuf1)) % 15 ≡ 14
unfolding incr
incr_far ibuf1 p = ground arith

-- The steps of the loop.
module _ (fuel : ℕ) (sleeps : List Sleep) (ibuf1 ibuf : ℕ) (reserved : List Bool) where
  alloc_free :
      is_reserved ibuf reserved ≡ false
      → alloc_from (suc fuel) sleeps ibuf1 ibuf reserved ≡ allocated ibuf (set reserved ibuf true)
  unfolding alloc_from
  alloc_free e = rw (e, alloc_from) refl

  alloc_next :
      is_reserved ibuf reserved ≡ true
      → (ibuf == ibuf1) ≡ false
      → alloc_from (suc fuel) sleeps ibuf1 ibuf reserved
        ≡ alloc_from fuel sleeps ibuf1 (incr (some ibuf)) reserved
  unfolding alloc_from
  alloc_next e f = rw (e, alloc_from) (rw f refl)

-- What a round at the start does, by the sleeps.
abbrev slept : ℕ → List Sleep → ℕ → ℕ → List Bool → Alloc
slept fuel [] ibuf1 ibuf reserved = sleeping
slept fuel (timeout ∷ later) ibuf1 ibuf reserved = timed_out ibuf reserved
slept fuel (woken freed ∷ later) ibuf1 ibuf reserved =
    alloc_from fuel later ibuf1 (incr (some ibuf)) (wake freed reserved)

alloc_sleep :
    (fuel : ℕ) (sleeps : List Sleep) (ibuf1 ibuf : ℕ) (reserved : List Bool)
    → is_reserved ibuf reserved ≡ true
    → (ibuf == ibuf1) ≡ true
    → alloc_from (suc fuel) sleeps ibuf1 ibuf reserved ≡ slept fuel sleeps ibuf1 ibuf reserved
unfolding alloc_from
alloc_sleep fuel [] ibuf1 ibuf reserved e f = rw (e, alloc_from) (rw f refl)
alloc_sleep fuel (timeout ∷ later) ibuf1 ibuf reserved e f = rw (e, alloc_from) (rw f refl)
alloc_sleep fuel (woken freed ∷ later) ibuf1 ibuf reserved e f = rw (e, alloc_from) (rw f refl)

incr_back : (ibuf1 ibuf : ℕ) → ibuf1 < 15 → ibuf ≡ ibuf1 → (ibuf1 + 15 - incr (some ibuf)) % 15 ≡ 14
incr_back ibuf1 ibuf p same =
    subst (λ i. (ibuf1 + 15 - incr (some i)) % 15 ≡ 14) (sym same) (incr_far ibuf1 p)

-- The round that sleeps, when the loop that a wake starts again is known to do well.
Handed-slept :
    (fuel : ℕ) (sleeps : List Sleep) (ibuf1 ibuf : ℕ) (reserved : List Bool)
    → ibuf1 < 15
    → ibuf ≡ ibuf1
    → is_reserved ibuf reserved ≡ true
    → rounds_for sleeps ≤ fuel + 16
    → ((later : List Sleep) (after : List Bool)
        → (ibuf1 + 15 - incr (some ibuf)) % 15 + rounds_for later ≤ fuel + 15
        → Handed later after (alloc_from fuel later ibuf1 (incr (some ibuf)) after))
    → Handed sleeps reserved (slept fuel sleeps ibuf1 ibuf reserved)
Handed-slept fuel [] ibuf1 ibuf reserved p same e enough again = tt
Handed-slept fuel (timeout ∷ later) ibuf1 ibuf reserved p same e enough again =
    (omega (arith, p, same), at_once, e)
Handed-slept fuel (woken freed ∷ later) ibuf1 ibuf reserved p same e enough again =
    Handed-wake freed later reserved
      (alloc_from fuel later ibuf1 (incr (some ibuf)) (wake freed reserved))
      (again later (wake freed reserved)
        (omega (arith, enough, rounds_next (woken freed) later, incr_back ibuf1 ibuf p same)))

alloc_from-Handed :
    (fuel : ℕ) (sleeps : List Sleep) (ibuf1 ibuf : ℕ) (reserved : List Bool)
    → ibuf1 < 15
    → ibuf < 15
    → (ibuf1 + 15 - ibuf) % 15 + rounds_for sleeps ≤ fuel + 15
    → Handed sleeps reserved (alloc_from fuel sleeps ibuf1 ibuf reserved)
alloc_from-Handed zero sleeps ibuf1 ibuf reserved p q enough =
    absurd (omega (arith, enough, rounds_enough sleeps))
alloc_from-Handed (suc fuel) sleeps ibuf1 ibuf reserved p q enough =
    elim (Bool-cases (is_reserved ibuf reserved)) [
      | inr free ↦
          subst (Handed sleeps reserved) (sym (alloc_free fuel sleeps ibuf1 ibuf reserved free))
            (q, (reserved, at_once, free, refl))
      | inl taken ↦ elim (Bool-cases (ibuf == ibuf1)) [
        | inr other ↦
            subst (Handed sleeps reserved)
              (sym (alloc_next fuel sleeps ibuf1 ibuf reserved taken other))
              (alloc_from-Handed fuel sleeps ibuf1 (incr (some ibuf)) reserved p (incr_small ibuf q)
                (omega (arith, enough, incr_nearer ibuf1 ibuf p q other)))
        | inl same ↦
            subst (Handed sleeps reserved)
              (sym (alloc_sleep fuel sleeps ibuf1 ibuf reserved taken same))
              (Handed-slept fuel sleeps ibuf1 ibuf reserved p ((==_iff ibuf ibuf1).0 same) taken
                (omega (arith, enough))
                (λ later after near.
                  alloc_from-Handed fuel later ibuf1 (incr (some ibuf)) after p (incr_small ibuf q)
                    near))
      ]
    ]

mod_self : (ibuf : ℕ) → ibuf < 15 → (ibuf + 15 - ibuf) % 15 ≡ 0
mod_self ibuf p = ground arith

incr_in_range : (last : Option ℕ) → ((ibuf : ℕ) → last ≡ some ibuf → ibuf < 15) → incr last < 15
unfolding incr
incr_in_range none p = omega arith
incr_in_range (some ibuf) p = incr_small ibuf (p ibuf refl)

-- Whenever the static index is -1 or that of a data buffer, acq200_bb_pool_alloc does not run on:
-- for any list of sleeps, each timed out or woken by frees, it goes round often enough to return, or
-- still sleeps when the list is used up. What it returns is a data buffer that the marks, less those
-- freed by the wakes it came to, show as free; it is then reserved and the other marks stay. It times
-- out only at a data buffer that those marks show as reserved, and changes no mark.
pub pool_alloc-Handed :
    (sleeps : List Sleep) (last : Option ℕ) (reserved : List Bool)
    → ((ibuf : ℕ) → last ≡ some ibuf → ibuf < 15)
    → Handed sleeps reserved (pool_alloc sleeps last reserved)
unfolding pool_alloc
pool_alloc-Handed sleeps last reserved p =
    let small = incr_in_range last p in
    alloc_from-Handed (rounds_for sleeps) sleeps (incr last) (incr last) reserved small small
      (omega (arith, mod_self (incr last) small))
