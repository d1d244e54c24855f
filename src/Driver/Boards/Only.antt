-- ===== src/Driver/Boards/Only.antt =====
-- A loop of steps on one board each: what it leaves alone, keeps, and brings about.
use mathlib.Core.Path.{subst}
use acq200_firmware.Prelude.{
  ℕ, ◌≡◌, refl, sym, ap, ◌∙◌, Bool, Bool-cases, true, false, inl, inr, Option, none, some, List, [],
  ◌∷◌, ◌==◌, if◌then◌else◌, ==_iff,
}
use acq200_firmware.Driver.Boards.{Board, Boards, put, on_board}
use acq200_firmware.Driver.Slaves.Selected.{unless_ended, each_of, each_of-nil, each_of-cons}

pub among : ℕ → List ℕ → Bool
among j [] = false
among j (board ∷ boards) = let rest = among j boards in if j == board then true else rest

pub among_nil : (j : ℕ) → among j [] ≡ false
unfolding among
among_nil j = refl

module _ (j board : ℕ) (boards : List ℕ) where
  pub among_same : (j == board) ≡ true → among j (board ∷ boards) ≡ true
  unfolding among
  among_same h = rw h refl

  pub among_other : (j == board) ≡ false → among j (board ∷ boards) ≡ among j boards
  unfolding among
  among_other h = rw h refl

abbrev pub IsDistinct : List ℕ → Type 0
IsDistinct [] = Unit
IsDistinct (board ∷ boards) = (among board boards ≡ false) × IsDistinct boards

module _ {R W : Type 0} (next : W → Option R × W) where
  unless_ended-inv :
      (P : W → Type 0) (result : Option R) (w : W)
      → P w
      → P (next w).1
      → P (unless_ended (result, w) next).1
  unless_ended-inv P (some stop) w here there = here
  unless_ended-inv P none w here there = there

  unless_ended-none :
      (result : Option R) (w : W)
      → (unless_ended (result, w) next).0 ≡ none
      → unless_ended (result, w) next ≡ next w
  unless_ended-none (some stop) w h = absurd (cc h)
  unless_ended-none none w h = refl

module _ {L : Type 0} (w : Boards L) (iboard : ℕ) (b : Board L) where
  put_other : (j : ℕ) → (j == iboard) ≡ false → put iboard b w j ≡ w j
  unfolding put
  put_other j h = rw h refl

  put_here : (j : ℕ) → (j == iboard) ≡ true → put iboard b w j ≡ b
  unfolding put
  put_here j h = rw h refl

  put-inv :
      (P : Board L → Type 0) (j : ℕ)
      → ((j == iboard) ≡ false → P (w j))
      → (j ≡ iboard → P b)
      → P (put iboard b w j)
  put-inv P j other here = elim (Bool-cases (j == iboard)) [
    | inl same ↦ subst P (sym (put_here j same)) (here ((==_iff j iboard).0 same))
    | inr differs ↦ subst P (sym (put_other j differs)) (other differs)
  ]

module _ {L R : Type 0} (f : Board L → Option R × Board L) where
  pub each_of-inv :
      (P : Board L → Type 0)
      → ((b : Board L) → P b → P (f b).1)
      → (boards : List ℕ) (w : Boards L) (j : ℕ) → P (w j)
      → P ((each_of (on_board f) boards w).1 j)
  each_of-inv P keeps [] w j holds = rw (each_of-nil (on_board f) w) holds
  each_of-inv P keeps (board ∷ boards) w j holds =
      let after = put board (f (w board)).1 w in
      let holds_after : P (after j) =
        put-inv w board (f (w board)).1 P j (λ differs. holds)
          λ same. keeps (w board) (subst (λ i. P (w i)) same holds) in
      rw (each_of-cons (on_board f) board boards w) (
        unless_ended-inv (each_of (on_board f) boards) (λ v. P (v j)) (f (w board)).0 after
          holds_after (each_of-inv P keeps boards after j holds_after))

  -- Boards that are not in the list stay as they are.
  pub each_of-others :
      (boards : List ℕ) (w : Boards L) (j : ℕ)
      → among j boards ≡ false
      → (each_of (on_board f) boards w).1 j ≡ w j
  each_of-others [] w j out = rw (each_of-nil (on_board f) w) refl
  each_of-others (board ∷ boards) w j out = elim (Bool-cases (j == board)) [
    | inl same ↦ absurd (cc (out, among_same j board boards same))
    | inr differs ↦
        let after = put board (f (w board)).1 w in
        let same_after : after j ≡ w j = put_other w board (f (w board)).1 j differs in
        let further : among j boards ≡ false = sym (among_other j board boards differs) ∙ out in
        rw (each_of-cons (on_board f) board boards w) (
          unless_ended-inv (each_of (on_board f) boards) (λ v. v j ≡ w j) (f (w board)).0 after
            same_after (each_of-others boards after j further ∙ same_after))
  ]

  -- A list without repetition: every board in it has had the step once, if no step gave an error.
  pub each_of-once :
      (boards : List ℕ) (w : Boards L) (j : ℕ)
      → IsDistinct boards
      → (each_of (on_board f) boards w).0 ≡ none
      → among j boards ≡ true
      → (each_of (on_board f) boards w).1 j ≡ (f (w j)).1
  each_of-once [] w j distinct ran is_in = absurd (cc (is_in, among_nil j))
  each_of-once (board ∷ boards) w j (out, distinct) ran is_in =
      let after = put board (f (w board)).1 w in
      let rest = each_of (on_board f) boards in
      let split : each_of (on_board f) (board ∷ boards) w ≡ rest after =
        each_of-cons (on_board f) board boards w
        ∙ unless_ended-none rest (f (w board)).0 after
            (sym (ap (λ r. r.0) (each_of-cons (on_board f) board boards w)) ∙ ran) in
      let ran_rest : (rest after).0 ≡ none = sym (ap (λ r. r.0) split) ∙ ran in
      ap (λ r. r.1 j) split ∙ elim (Bool-cases (j == board)) [
        | inl same ↦
            let j_is : j ≡ board = (==_iff j board).0 same in
            each_of-others boards after j (ap (λ i. among i boards) j_is ∙ out)
            ∙ put_here w board (f (w board)).1 j same
            ∙ ap (λ i. (f (w i)).1) (sym j_is)
        | inr differs ↦
            each_of-once boards after j distinct ran_rest
              (sym (among_other j board boards differs) ∙ is_in)
            ∙ ap (λ b. (f b).1) (put_other w board (f (w board)).1 j differs)
      ]
