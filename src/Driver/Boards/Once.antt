-- ===== src/Driver/Boards/Once.antt =====
-- Each board of a path has a command's step once.
use mathlib.Core.Option.{some-injective}
use mathlib.Core.Path.{subst}
use acq200_firmware.Prelude.{
  ℕ, zero, suc, ◌≤◌, ◌<◌, ◌≡◌, ◌≢◌, sym, ap, ◌∙◌, Bool-cases, false, ◌⊎◌, inl, inr, Option, none,
  some, [], ◌∷◌, ◌++◌, ◌==◌, arith,
}
use acq200_firmware.Driver.Slaves.{sis, each_slave}
use acq200_firmware.Driver.Slaves.Steps.{max_boards}
use acq200_firmware.Driver.Slaves.Selected.{
  selected, path_mask, visited, each_of, selected-zero, visited_lem,
}
use acq200_firmware.Driver.Slaves.Visits.{each_slave-visited}
use acq200_firmware.Driver.Boards.{Board, Boards, on_board}
use acq200_firmware.Driver.Boards.Path.{selected_cases, IsOnPath, visited-IsOnPath, not_visited}
use acq200_firmware.Driver.Boards.Only.{
  among, among_nil, among_other, IsDistinct, each_of-others, each_of-once,
}

among_own : (j own : ℕ) → (j == own) ≡ false → among j (own ∷ []) ≡ false
among_own j own h = among_other j own [] h ∙ among_nil j

-- The boards from `i` on and then `own` have no board below `i` but `own`.
below_none :
    (own mask left i j : ℕ)
    → j < i
    → j ≢ own
    → among j (selected own mask left i ++ own ∷ []) ≡ false
below_none own mask zero i j below other =
    ap (λ bs. among j (bs ++ own ∷ [])) (selected-zero own mask i) ∙ among_own j own (ground arith)
below_none own mask (suc left) i j below other = elim (selected_cases own mask left i) [
  | inl (why, left_out) ↦
      ap (λ bs. among j (bs ++ own ∷ [])) left_out
      ∙ below_none own mask left (suc i) j (omega arith) other
  | inr (not_own, set, in_front) ↦
      ap (λ bs. among j (bs ++ own ∷ [])) in_front
      ∙ among_other j i (selected own mask left (suc i) ++ own ∷ []) (ground arith)
      ∙ below_none own mask left (suc i) j (omega arith) other
]

selected-IsDistinct : (own mask left i : ℕ) → IsDistinct (selected own mask left i ++ own ∷ [])
selected-IsDistinct own mask zero i =
    subst (λ bs. IsDistinct (bs ++ own ∷ [])) (sym (selected-zero own mask i)) (among_nil own, tt)
selected-IsDistinct own mask (suc left) i = elim (selected_cases own mask left i) [
  | inl (why, left_out) ↦
      subst (λ bs. IsDistinct (bs ++ own ∷ [])) (sym left_out)
        (selected-IsDistinct own mask left (suc i))
  | inr (not_own, set, in_front) ↦
      subst (λ bs. IsDistinct (bs ++ own ∷ [])) (sym in_front)
        (
          below_none own mask left (suc i) i (omega arith) not_own,
          selected-IsDistinct own mask left (suc i),
        )
]

-- A command's loop over the boards of a path, of at most 8, that ends without an error has taken its
-- step `f` once on every board that the path's minor number selects and on the path's own board,
-- each from the state it had before the loop, and has left the other boards as they were.
pub each_slave-once :
    {L R : Type 0} (f : Board L → Option R × Board L) (ndevs minor own : ℕ) (w w' : Boards L)
    (j : ℕ)
    → ndevs ≤ max_boards
    → each_slave ndevs minor own (on_board f) (suc (suc ndevs)) sis w ≡ some (none, w')
    → (IsOnPath ndevs minor own j × (w' j ≡ (f (w j)).1))
      ⊎ ((¬ IsOnPath ndevs minor own j) × (w' j ≡ w j))
each_slave-once {R = R} f ndevs minor own w w' j few ran =
    let boards = visited ndevs minor own in
    let distinct : IsDistinct boards =
      subst IsDistinct (sym (visited_lem ndevs minor own))
        (selected-IsDistinct own (path_mask ndevs minor) ndevs 0) in
    let result : each_of (on_board f) boards w ≡ (none, w') =
      some-injective _ _ (sym (each_slave-visited ndevs minor own (on_board f) few w) ∙ ran) in
    elim (Bool-cases (among j boards)) [
      | inl is_in ↦ inl (
        visited-IsOnPath ndevs minor own j is_in,
        sym (ap (λ r. r.1 j) result)
            ∙ each_of-once f boards w j distinct (ap (λ r. r.0) result) is_in,
      )
      | inr out ↦ inr (
        not_visited ndevs minor own j out,
        sym (ap (λ r. r.1 j) result) ∙ each_of-others f boards w j out,
      )
    ]
