-- ===== src/Command/Args/Reading.antt =====
-- getargs reads back the arguments of a line, and leaves the lines behind it.
use acq200_firmware.Prelude.{
  ℕ, ◌+◌, ◌<◌, ◌≤◌, ◌≡◌, refl, ap, ap₂, sym, ◌∙◌, Bool, true, false, List, [], ◌∷◌, ◌++◌, map,
  append_assoc, length, length-append, take, drop, ◌==◌, ◌!=◌, arith,
}
use acq200_firmware.Command.Text.{Str}
use acq200_firmware.Command.Args.{
  State, in_space, in_token, in_quotes, finished_quotes, Scan, step, step_in, scan, close, cstr,
}
use acq200_firmware.Command.Args.Lines.{
  Word, bare, quoted, content, IsWord, AllWords, every, bare_char, quoted_char, steps, laid,
  offsets, split_and,
}

-- The loop ends without its limit when few arguments are found.
length-step_in :
    (state : State) (c : ℕ) (s : Scan) → length s.argv ≤ length (step_in state c s).argv
unfolding step_in
length-step_in in_space c s = ground (arith, length-append s.argv (length s.before ∷ []))
length-step_in in_token c s = ground arith
length-step_in in_quotes c s = ground arith
length-step_in finished_quotes c s = ground arith

length-steps : (todo : Str) (s : Scan) → length s.argv ≤ length (steps todo s).argv
length-steps [] s = omega arith
length-steps (c ∷ todo) s = omega (arith, length-step_in s.state c s, length-steps todo (step c s))

not_limit : (a b c : ℕ) → a ≤ b → b < c → (a == c) ≡ false
not_limit a b c p q = ground arith

pub scan-steps :
    (limit : ℕ) (todo : Str) (beyond : List ℕ) (s : Scan)
    → length (steps todo s).argv < limit
    → scan limit todo beyond s ≡ close (steps todo s) beyond
unfolding scan
scan-steps limit [] beyond s h = refl
scan-steps limit (c ∷ todo) beyond s h =
    rw (not_limit (length s.argv) _ limit (length-steps (c ∷ todo) s) h, scan)
      (scan-steps limit todo beyond (step c s) h)

pub length-offsets : (o : ℕ) (ws : List Word) → length (offsets o ws) ≡ length ws
length-offsets o [] = refl
length-offsets o (w ∷ []) = refl
length-offsets o (w ∷ v ∷ ws) = omega (arith, length-offsets (o + length (content w) + 1) (v ∷ ws))

-- Arrays in two parts
pub drop-append : (xs ys : List ℕ) → drop (length xs) (xs ++ ys) ≡ ys
drop-append [] ys = refl
drop-append (x ∷ xs) ys = drop-append xs ys

pub take-append : (xs ys : List ℕ) → take (length xs) (xs ++ ys) ≡ xs
take-append [] ys = refl
take-append (x ∷ xs) ys = ap (λ t. x ∷ t) (take-append xs ys)

pub drop_past : (xs : List ℕ) (c : ℕ) (ys : List ℕ) → drop (length xs + 1) (xs ++ c ∷ ys) ≡ ys
drop_past xs c ys =
    ap₂ drop (sym (length-append xs (c ∷ []))) (sym (append_assoc xs (c ∷ []) ys))
    ∙ drop-append (xs ++ c ∷ []) ys

pub every-append :
    (test : ℕ → Bool) (xs ys : Str)
    → every test xs ≡ true
    → every test ys ≡ true
    → every test (xs ++ ys) ≡ true
every-append test [] ys p q = q
every-append test (x ∷ xs) ys p q =
    let (now, later) = split_and (test x) (every test xs) p in
    ground (arith, every-append test xs ys later q)

cstr-append : (s rest : Str) → every (λ c. c != 0) s ≡ true → cstr (s ++ 0 ∷ rest) ≡ s
unfolding cstr
cstr-append [] rest h = refl
cstr-append (c ∷ s) rest h =
    let (now, later) = split_and (c != 0) (every (λ d. d != 0) s) h in
    ground (arith, cstr-append s rest later)

pub weaken :
    (strong weak : ℕ → Bool)
    → ((c : ℕ) → strong c ≡ true → weak c ≡ true)
    → (s : Str) → every strong s ≡ true
    → every weak s ≡ true
weaken strong weak imp [] h = refl
weaken strong weak imp (c ∷ s) h =
    let (now, later) = split_and (strong c) (every strong s) h in
    ground (arith, imp c now, weaken strong weak imp s later)

content_no_null : (w : Word) → IsWord w → every (λ c. c != 0) (content w) ≡ true
content_no_null (bare []) h = absurd h
content_no_null (bare (c ∷ s)) (unquoted, e) =
    weaken bare_char (λ d. d != 0) (λ d p. ground arith) (c ∷ s) e
content_no_null (quoted s) h = weaken quoted_char (λ d. d != 0) (λ d p. ground arith) s h

regroup :
    (pre s : List ℕ) (c : ℕ) (xs ys : List ℕ)
    → pre ++ ((s ++ c ∷ xs) ++ ys) ≡ ((pre ++ s) ++ c ∷ []) ++ (xs ++ ys)
regroup pre s c xs ys = simp append_assoc

next_start : (pre s : List ℕ) → length ((pre ++ s) ++ 0 ∷ []) ≡ length pre + length s + 1
next_start pre s = omega (arith, length-append (pre ++ s) (0 ∷ []), length-append pre s)

-- Behind anything, the strings at the offsets are the contents.
pub read_back :
    (w : Word) (ws : List Word) (pre rest : List ℕ)
    → AllWords (w ∷ ws)
    → map (λ i. cstr (drop i (pre ++ (laid (w ∷ ws) ++ 0 ∷ rest)))) (offsets (length pre) (w ∷ ws))
      ≡ map content (w ∷ ws)
read_back w [] pre rest (h, all) =
    ap (λ t. cstr t ∷ []) (drop-append pre (content w ++ 0 ∷ rest))
    ∙ ap (λ s. s ∷ []) (cstr-append (content w) rest (content_no_null w h))
read_back w (v ∷ ws) pre rest (h, all) =
    let later = laid (v ∷ ws) ++ 0 ∷ rest in
    let pre' = (pre ++ content w) ++ 0 ∷ [] in
    let first : cstr (drop (length pre) (pre ++ (laid (w ∷ v ∷ ws) ++ 0 ∷ rest))) ≡ content w =
      ap cstr (
        drop-append pre (laid (w ∷ v ∷ ws) ++ 0 ∷ rest)
        ∙ append_assoc (content w) (0 ∷ laid (v ∷ ws)) (0 ∷ rest))
      ∙ cstr-append (content w) later (content_no_null w h) in
    ap₂ (λ s ss. s ∷ ss) first
      (ap₂ (λ buffer o. map (λ i. cstr (drop i buffer)) (offsets o (v ∷ ws)))
          (regroup pre (content w) 0 (laid (v ∷ ws)) (0 ∷ rest)) (sym (next_start pre (content w)))
        ∙ read_back v ws pre' rest all)
