-- ===== src/Driver/Boards/Path.antt =====
-- Which boards are on a path, said by the bits of its mask.
use native.Mathlib.Decide.{ℕ_discrete}
use acq200_firmware.Prelude.{
  ℕ, zero, suc, ◌+◌, ◌≤◌, ◌<◌, ◌≡◌, ◌≢◌, sym, ap, ◌∙◌, true, false, ◌⊎◌, inl, inr, List, [], ◌∷◌,
  ◌++◌, bit, arith,
}
use acq200_firmware.Driver.Slaves.Selected.{
  selected, path_mask, visited, selected_clear, selected_own, selected_set, selected-zero,
  visited_lem,
}
use acq200_firmware.Driver.Boards.Only.{among, among_nil, among_same, among_other}

-- One step of `selected`: the board is left out, or it stands in front.
pub selected_cases :
    (own mask left i : ℕ)
    → (((bit mask i ≡ 0) ⊎ (i ≡ own))
        × (selected own mask (suc left) i ≡ selected own mask left (suc i)))
      ⊎ ((i ≢ own)
          × (bit mask i ≡ 1)
          × (selected own mask (suc left) i ≡ i ∷ selected own mask left (suc i)))
selected_cases own mask left i = elim (ℕ_discrete (bit mask i) 0) [
  | yes clear ↦ inl (inl clear, selected_clear own mask left i clear)
  | no not_clear ↦
      let set : bit mask i ≡ 1 = omega arith in
      elim (ℕ_discrete i own) [
        | yes own_board ↦ inl (inr own_board, selected_own own mask left i own_board set)
        | no other ↦ inr (other, set, selected_set own mask left i other set)
      ]
]

-- The path's own board, and the driver's boards whose bit is in the path's mask.
pub IsOnPath : ℕ → ℕ → ℕ → ℕ → Type 0
IsOnPath ndevs minor own j = (j ≡ own) ⊎ ((j < ndevs) × (bit (path_mask ndevs minor) j ≡ 1))

module _ (own mask : ℕ) where
  -- The same for the `left` boards from `i` on.
  abbrev IsIn : ℕ → ℕ → ℕ → Type 0
  IsIn left i j = (j ≡ own) ⊎ ((i ≤ j) × (j < i + left) × (bit mask j ≡ 1))

  abbrev from : ℕ → ℕ → List ℕ
  from left i = selected own mask left i ++ own ∷ []

  wider : (left i j : ℕ) → IsIn left (suc i) j → IsIn (suc left) i j
  wider left i j (inl own_board) = inl own_board
  wider left i j (inr (low, high, set)) = inr (omega arith, omega arith, set)

  narrower : (left i j : ℕ) → j ≢ i → IsIn (suc left) i j → IsIn left (suc i) j
  narrower left i j other (inl own_board) = inl own_board
  narrower left i j other (inr (low, high, set)) = inr (omega arith, omega arith, set)

  skipped :
      (left i j : ℕ) → (bit mask i ≡ 0) ⊎ (i ≡ own) → IsIn (suc left) i j → IsIn left (suc i) j
  skipped left i j why (inl own_board) = inl own_board
  skipped left i j why (inr (low, high, set)) = elim (ℕ_discrete j i) [
    | no other ↦ narrower left i j other (inr (low, high, set))
    | yes same ↦ elim why [
      | inl clear ↦ absurd (omega (arith, ap (bit mask) same))
      | inr own_board ↦ inl (same ∙ own_board)
    ]
  ]

  none_left : (i j : ℕ) → among j (from 0 i) ≡ among j (own ∷ [])
  none_left i j = ap (λ bs. among j (bs ++ own ∷ [])) (selected-zero own mask i)

  among-IsIn : (left i j : ℕ) → among j (from left i) ≡ true → IsIn left i j
  among-IsIn zero i j h = elim (ℕ_discrete j own) [
    | yes own_board ↦ inl own_board
    | no other ↦
        let none_there : among j (own ∷ []) ≡ false =
          among_other j own [] (ground arith) ∙ among_nil j in
        absurd (cc (h, none_left i j, none_there))
  ]
  among-IsIn (suc left) i j h = elim (selected_cases own mask left i) [
    | inl (why, left_out) ↦
        wider left i j
          (among-IsIn left (suc i) j (ap (λ bs. among j (bs ++ own ∷ [])) (sym left_out) ∙ h))
    | inr (not_own, set, in_front) ↦
        let h' : among j (i ∷ from left (suc i)) ≡ true =
          ap (λ bs. among j (bs ++ own ∷ [])) (sym in_front) ∙ h in
        elim (ℕ_discrete j i) [
          | yes same ↦ inr (omega arith, omega arith, ap (bit mask) same ∙ set)
          | no other ↦ wider left i j (
              among-IsIn left (suc i) j
                (sym (among_other j i (from left (suc i)) (ground arith)) ∙ h'))
        ]
  ]

  IsIn-among : (left i j : ℕ) → IsIn left i j → among j (from left i) ≡ true
  IsIn-among zero i j (inl own_board) = none_left i j ∙ among_same j own [] (ground arith)
  IsIn-among zero i j (inr (low, high, set)) = absurd (omega arith)
  IsIn-among (suc left) i j h = elim (selected_cases own mask left i) [
    | inl (why, left_out) ↦
        ap (λ bs. among j (bs ++ own ∷ [])) left_out
        ∙ IsIn-among left (suc i) j (skipped left i j why h)
    | inr (not_own, set, in_front) ↦
        ap (λ bs. among j (bs ++ own ∷ [])) in_front ∙ elim (ℕ_discrete j i) [
          | yes same ↦ among_same j i (from left (suc i)) (ground arith)
          | no other ↦
              among_other j i (from left (suc i)) (ground arith)
              ∙ IsIn-among left (suc i) j (narrower left i j other h)
        ]
  ]

module _ (ndevs minor own j : ℕ) where
  in_visited :
      among j (visited ndevs minor own)
      ≡ among j (selected own (path_mask ndevs minor) ndevs 0 ++ own ∷ [])
  in_visited = ap (among j) (visited_lem ndevs minor own)

  pub visited-IsOnPath : among j (visited ndevs minor own) ≡ true → IsOnPath ndevs minor own j
  unfolding IsOnPath
  visited-IsOnPath h =
      elim (among-IsIn own (path_mask ndevs minor) ndevs 0 j (sym in_visited ∙ h)) [
        | inl own_board ↦ inl own_board
        | inr (low, high, set) ↦ inr (omega arith, set)
      ]

  on_path : IsOnPath ndevs minor own j → IsIn own (path_mask ndevs minor) ndevs 0 j
  unfolding IsOnPath
  on_path (inl own_board) = inl own_board
  on_path (inr (below, set)) = inr (omega arith, omega arith, set)

  pub not_visited : among j (visited ndevs minor own) ≡ false → ¬ IsOnPath ndevs minor own j
  not_visited out h =
      let found : among j (visited ndevs minor own) ≡ true =
        in_visited ∙ IsIn-among own (path_mask ndevs minor) ndevs 0 j (on_path h) in
      absurd (cc (out, found))
