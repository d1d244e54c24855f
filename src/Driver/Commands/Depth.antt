-- ===== src/Driver/Commands/Depth.antt =====
-- acq32_GetMemoryDepth finds no channel.
use acq200_firmware.Prelude.{
  ℕ, zero, suc, ◌+◌, ◌≡◌, refl, ap, ◌∙◌, arith, true, false, none, some, List, [], ◌∷◌, ◌==◌, ◌!=◌,
  Bool-cases, inl, inr,
}
use acq200_firmware.Driver.Bus.{Device}
use acq200_firmware.Driver.Commands.{depth_in, memory_depth_from, get_memory_depth}

not_both : (a b : ℕ) → (a != b) ≡ true → (a == b) ≡ false
not_both a b = ground arith

depth_none :
    {L : Type 0}
    → (d : Device L) (left board ichan channel : ℕ) → (depth_in d left board ichan channel).0 ≡ none
unfolding depth_in
depth_none d zero board ichan channel = refl
depth_none d (suc left) board ichan channel = elim (Bool-cases (ichan != channel)) [
  | inl other ↦
      rw (other, not_both ichan channel other) (depth_none d left (board + 1) (ichan + 1) channel)
  | inr same ↦ rw same refl
]

depth_from_none :
    {L : Type 0}
    → (boards : List (Device L)) (ichan channel : ℕ) → memory_depth_from boards ichan channel ≡ none
unfolding memory_depth_from
depth_from_none [] ichan channel = refl
depth_from_none (d ∷ ds) ichan channel =
    let next = (depth_in d d.nchannels 0 ichan channel).1 in
    ap (λ o. elim o [ some n ↦ some n | none ↦ memory_depth_from ds next channel ])
      (depth_none d d.nchannels 0 ichan channel)
    ∙ depth_from_none ds next channel

-- acq32_GetMemoryDepth returns -1 for every channel of every set of boards: its loop ends before
-- the body can see the channel.
pub get_memory_depth-none :
    {L : Type 0} → (boards : List (Device L)) (channel : ℕ) → get_memory_depth boards channel ≡ none
unfolding get_memory_depth
get_memory_depth-none boards channel = depth_from_none boards 0 channel
