-- ===== src/Command/Args/Progress.antt =====
-- getargs moves forward: what it steps over and what it leaves is no more than the line it is given.
use mathlib.Core.Path.{subst}
use acq200_firmware.Prelude.{
  ℕ, zero, suc, ◌+◌, ◌<◌, ◌≤◌, ◌≡◌, refl, ap, sym, ◌∙◌, true, false, Option, none, some, List, [],
  ◌∷◌, ◌++◌, length, length-append, take, drop, ◌==◌, Bool-cases, Option-cases, inl, inr, arith,
}
use acq200_firmware.Command.Text.{Str}
use acq200_firmware.Command.Args.{
  maxargs, index_of, State, in_space, in_token, in_quotes, finished_quotes, Scan, step, step_in,
  scan, close, start, substitute_escape, Line, line_of, blank, getargs, ieol,
}
use acq200_firmware.Command.Args.Reading.{drop_past}

before_step_in :
    (state : State) (c : ℕ) (s : Scan) → length (step_in state c s).before ≤ length s.before + 1
unfolding step_in
before_step_in in_space c s = ground (arith, length-append s.before (c ∷ []))
before_step_in in_token c s =
    ground (arith, length-append s.before (c ∷ []), length-append s.before (0 ∷ []))
before_step_in in_quotes c s =
    ground
      (arith, length-append s.before (c ∷ []), length-append s.before (substitute_escape c ∷ []))
before_step_in finished_quotes c s =
    ground (arith, length-append s.before (c ∷ []), length-append s.before (0 ∷ []))

-- The two measures of what getargs returns, for a line of `size` characters
pub record Moves (size : ℕ) (line : Line) : Type 0 where
  pub within : line.moved + length line.next ≤ size
  pub shrinks : length line.next < size

close-Moves :
    (s : Scan) (c : ℕ) (rest : List ℕ)
    → Moves (length s.before + suc (length rest)) (line_of (close s (c ∷ rest)))
close-Moves s c rest =
    let left = ap length (drop_past s.before 0 rest) in
    record { within = omega (arith, left); shrinks = omega (arith, left) }

Moves-le : (m n : ℕ) (line : Line) → Moves m line → m ≤ n → Moves n line
Moves-le m n line h le = record {
  within = omega (arith, h.within, le);
  shrinks = omega (arith, h.shrinks, le);
}

pub scan-Moves :
    (limit : ℕ) (todo : Str) (c : ℕ) (beyond : List ℕ) (s : Scan)
    → Moves
        (length s.before + length todo + suc (length beyond))
        (line_of (scan limit todo (c ∷ beyond) s))
unfolding scan
scan-Moves limit [] c beyond s =
    Moves-le _ _ (line_of (close s (c ∷ beyond))) (close-Moves s c beyond) (omega arith)
scan-Moves limit (d ∷ todo) c beyond s = elim (Bool-cases (length s.argv == limit)) [
  | inl e ↦
      rw (e, scan)
        (Moves-le _ _ (line_of (close s (d ∷ todo ++ c ∷ beyond)))
          (close-Moves s d (todo ++ c ∷ beyond)) (omega (arith, length-append todo (c ∷ beyond))))
  | inr e ↦
      rw (e, scan)
        (Moves-le _ _ (line_of (scan limit todo (c ∷ beyond) (step d s)))
          (scan-Moves limit todo c beyond (step d s)) (omega (arith, before_step_in s.state d s)))
]

index_of-lt : (c : ℕ) (s : Str) (i : ℕ) → index_of c s ≡ some i → i < length s
unfolding index_of
index_of-lt c [] i e = cc
index_of-lt c (d ∷ s) i e = elim (Option-cases (index_of c s)) [
  | inl later ↦ ground (arith, later)
  | inr (j, later) ↦ ground (arith, later, index_of-lt c s j later)
]

ieol-lt : (aline : Str) → (ieol aline == 0) ≡ false → ieol aline < length aline
unfolding ieol
ieol-lt aline e = elim (Option-cases (index_of 10 aline)) [
  | inl a ↦ elim (Option-cases (index_of b';' aline)) [
    | inl b ↦ ground (arith, a, b)
    | inr (j, b) ↦ ground (arith, a, b, index_of-lt b';' aline j b)
  ]
  | inr (i, a) ↦ elim (Option-cases (index_of b';' aline)) [
    | inl b ↦ ground (arith, a, b, index_of-lt 10 aline i a)
    | inr (j, b) ↦ ground (arith, a, b, index_of-lt 10 aline i a, index_of-lt b';' aline j b)
  ]
]

-- An array in two parts at an index that it has
split_at :
    (i : ℕ) (xs : List ℕ)
    → i < length xs
    → (c : ℕ) × ((ys : List ℕ) × (drop i xs ≡ c ∷ ys)
        × (length (take i xs) + suc (length ys) ≡ length xs))
split_at i [] h = absurd (omega arith)
split_at zero (x ∷ xs) h = (x, (xs, refl, omega arith))
split_at (suc i) (x ∷ xs) h =
    let (c, (ys, e, n)) = split_at i xs (omega arith) in (c, (ys, e, omega (arith, n)))

getargs_scans :
    (aline : Str)
    → (ieol aline == 0) ≡ false
    → getargs aline
      ≡ line_of (scan maxargs (take (ieol aline) aline) (drop (ieol aline) aline) start)
unfolding getargs
getargs_scans aline e = rw e refl

getargs-blank :
    (aline : Str)
    → (ieol aline == 0) ≡ true
    → getargs aline ≡ blank aline (index_of 10 aline) (index_of b';' aline)
unfolding getargs
getargs-blank aline e = rw e refl

scanned-Moves : (aline : Str) → (ieol aline == 0) ≡ false → Moves (length aline) (getargs aline)
scanned-Moves aline e =
    let (c, (ys, d, n)) = split_at (ieol aline) aline (ieol-lt aline e) in
    subst (Moves (length aline))
      (sym (
        getargs_scans aline e
        ∙ ap (λ beyond. line_of (scan maxargs (take (ieol aline) aline) beyond start)) d))
      (Moves-le _ _ _ (scan-Moves maxargs (take (ieol aline) aline) c ys start) (omega (arith, n)))

blank_moves :
    (c : ℕ) (s : Str) (a b : Option ℕ)
    → (blank (c ∷ s) a b).moved + length (blank (c ∷ s) a b).next ≤ length (c ∷ s)
blank_moves c s none none = omega arith
blank_moves c s none (some j) = omega arith
blank_moves c s (some i) none = omega arith
blank_moves c s (some i) (some j) = omega arith

blank_within :
    (aline : Str)
    → (blank aline (index_of 10 aline) (index_of b';' aline)).moved
        + length (blank aline (index_of 10 aline) (index_of b';' aline)).next
      ≤ length aline
unfolding index_of
blank_within [] = omega arith
blank_within (c ∷ s) = blank_moves c s (index_of 10 (c ∷ s)) (index_of b';' (c ∷ s))

blank_argv : (aline : Str) (a b : Option ℕ) → (blank aline a b).argv ≡ []
blank_argv aline none none = refl
blank_argv aline none (some j) = refl
blank_argv aline (some i) none = refl
blank_argv aline (some i) (some j) = refl

pub getargs_within :
    (aline : Str) → (getargs aline).moved + length (getargs aline).next ≤ length aline
getargs_within aline = elim (Bool-cases (ieol aline == 0)) [
  | inl e ↦
      subst (λ l. l.moved + length l.next ≤ length aline) (sym (getargs-blank aline e))
        (blank_within aline)
  | inr e ↦ (scanned-Moves aline e).within
]

-- A line with an argument leaves less behind it.
pub getargs_shrinks :
    (aline verb : Str) (args : List Str)
    → (getargs aline).argv ≡ verb ∷ args
    → length (getargs aline).next < length aline
getargs_shrinks aline verb args found = elim (Bool-cases (ieol aline == 0)) [
  | inl e ↦
      let none_found = ap (λ l. l.argv) (getargs-blank aline e) ∙ blank_argv aline _ _ in
      absurd (cc (found, none_found))
  | inr e ↦ (scanned-Moves aline e).shrinks
]

pub getargs-nil : (getargs []).argv ≡ []
unfolding getargs ieol index_of
getargs-nil = refl
