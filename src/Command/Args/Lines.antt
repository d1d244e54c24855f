-- ===== src/Command/Args/Lines.antt =====
-- getargs on lines that are written out of arguments, bare or in quotes.
use acq200_firmware.Prelude.{
  ℕ, ◌+◌, ◌≡◌, refl, ap, ap₂, sym, ◌∙◌, Bool, true, false, ◌&&◌, ◌||◌, List, [], ◌∷◌, ◌++◌,
  append_assoc, append-nil, length, length-append, ◌==◌, ◌!=◌, arith, if◌then◌else◌,
}
use acq200_firmware.Command.Text.{Str}
use acq200_firmware.Command.Args.{
  substitute_escape, State, in_space, in_token, in_quotes, finished_quotes, Scan, step, step_in,
}

-- An argument as it is written: bare, or between quotes, with escapes.
pub data Word : Type 0 where
  bare quoted : Str → Word

abbrev pub content : Word → Str
content (bare s) = s
content (quoted s) = s

abbrev pub escape : ℕ → Str
escape c =
    if c == 10
    then b'\\' ∷ b'n' ∷ []
    else if (c == b'"') || (c == b'\\')
    then b'\\' ∷ c ∷ []
    else c ∷ []

abbrev pub escape_all : Str → Str
escape_all [] = []
escape_all (c ∷ s) = escape c ++ escape_all s

abbrev pub render : Word → Str
render (bare s) = s
render (quoted s) = b'"' ∷ (escape_all s ++ b'"' ∷ [])

abbrev pub render_all : List Word → Str
render_all [] = []
render_all (w ∷ []) = render w
render_all (w ∷ v ∷ ws) = render w ++ (b' ' ∷ render_all (v ∷ ws))

-- A bare word has a first character that is no quote, and no space, separator or 0 anywhere; what is
-- between quotes has no ';' or 0.
abbrev pub bare_char : ℕ → Bool
bare_char c = (c != 0) && ((c != b' ') && ((c != 10) && (c != b';')))

abbrev pub quoted_char : ℕ → Bool
quoted_char c = (c != 0) && (c != b';')

abbrev pub every : (ℕ → Bool) → Str → Bool
every test [] = true
every test (c ∷ s) = test c && every test s

abbrev pub IsBare : Str → Type 0
IsBare [] = ⊥
IsBare (c ∷ s) = ((c != b'"') ≡ true) × (every bare_char (c ∷ s) ≡ true)

abbrev pub IsWord : Word → Type 0
IsWord (bare s) = IsBare s
IsWord (quoted s) = every quoted_char s ≡ true

abbrev pub AllWords : List Word → Type 0
AllWords [] = Unit
AllWords (w ∷ ws) = IsWord w × AllWords ws

-- The loop without its limit.
abbrev pub steps : Str → Scan → Scan
steps [] s = s
steps (c ∷ todo) s = steps todo (step c s)

steps-append : (xs ys : Str) (s : Scan) → steps (xs ++ ys) s ≡ steps ys (steps xs s)
steps-append [] ys s = refl
steps-append (x ∷ xs) ys s = steps-append xs ys (step x s)

abbrev pub in_state : List ℕ → List ℕ → State → Scan
in_state before argv state = record { before = before; argv = argv; state = state; escaped = false }

snoc_append : (xs : Str) (c : ℕ) (ys : Str) → (xs ++ c ∷ []) ++ ys ≡ xs ++ c ∷ ys
snoc_append xs c ys = append_assoc xs (c ∷ []) ys

pub split_and : (a b : Bool) → (a && b) ≡ true → (a ≡ true) × (b ≡ true)
split_and true b e = (refl, e)
split_and false b e = (e, absurd (ground arith))

-- The characters of a bare word after its first
step-token :
    (c : ℕ) (before argv : List ℕ)
    → bare_char c ≡ true
    → step c (in_state before argv in_token) ≡ in_state (before ++ c ∷ []) argv in_token
unfolding step_in
step-token c before argv e = ground arith

steps-token :
    (s : Str) (before argv : List ℕ)
    → every bare_char s ≡ true
    → steps s (in_state before argv in_token) ≡ in_state (before ++ s) argv in_token
steps-token [] before argv e = ap (λ b. in_state b argv in_token) (sym (append-nil before))
steps-token (c ∷ s) before argv e =
    let (now, later) = split_and (bare_char c) (every bare_char s) e in
    ap (steps s) (step-token c before argv now)
    ∙ steps-token s (before ++ c ∷ []) argv later
    ∙ ap (λ b. in_state b argv in_token) (snoc_append before c s)

-- A character between quotes, escaped where it has to be
steps-escape :
    (c : ℕ) (before argv : List ℕ)
    → steps (escape c) (in_state before argv in_quotes) ≡ in_state (before ++ c ∷ []) argv in_quotes
unfolding step_in substitute_escape
steps-escape c before argv = ground arith

steps-escape_all :
    (s : Str) (before argv : List ℕ)
    → steps (escape_all s) (in_state before argv in_quotes) ≡ in_state (before ++ s) argv in_quotes
steps-escape_all [] before argv = ap (λ b. in_state b argv in_quotes) (sym (append-nil before))
steps-escape_all (c ∷ s) before argv =
    steps-append (escape c) (escape_all s) (in_state before argv in_quotes)
    ∙ ap (steps (escape_all s)) (steps-escape c before argv)
    ∙ steps-escape_all s (before ++ c ∷ []) argv
    ∙ ap (λ b. in_state b argv in_quotes) (snoc_append before c s)

abbrev pub end_state : Word → State
end_state (bare s) = in_token
end_state (quoted s) = finished_quotes

open_quote :
    (before argv : List ℕ)
    → step b'"' (in_state before argv in_space)
      ≡ in_state before (argv ++ length before ∷ []) in_quotes
unfolding step_in
open_quote before argv = refl

close_quote :
    (before argv : List ℕ)
    → step b'"' (in_state before argv in_quotes) ≡ in_state before argv finished_quotes
unfolding step_in
close_quote before argv = refl

first_char :
    (c : ℕ) (before argv : List ℕ)
    → (c != b'"') ≡ true
    → bare_char c ≡ true
    → step c (in_state before argv in_space)
      ≡ in_state (before ++ c ∷ []) (argv ++ length before ∷ []) in_token
unfolding step_in
first_char c before argv unquoted e = ground arith

-- A word is stored behind what stands there, and its offset is noted.
steps-render :
    (w : Word) (before argv : List ℕ)
    → IsWord w
    → steps (render w) (in_state before argv in_space)
      ≡ in_state (before ++ content w) (argv ++ length before ∷ []) (end_state w)
steps-render (bare []) before argv h = absurd h
steps-render (bare (c ∷ s)) before argv (unquoted, e) =
    let (now, later) = split_and (bare_char c) (every bare_char s) e in
    ap (steps s) (first_char c before argv unquoted now)
    ∙ steps-token s (before ++ c ∷ []) (argv ++ length before ∷ []) later
    ∙ ap (λ b. in_state b (argv ++ length before ∷ []) in_token) (snoc_append before c s)
steps-render (quoted s) before argv h =
    ap (steps (escape_all s ++ b'"' ∷ [])) (open_quote before argv)
    ∙ steps-append (escape_all s) (b'"' ∷ [])
        (in_state before (argv ++ length before ∷ []) in_quotes)
    ∙ ap (step b'"') (steps-escape_all s before (argv ++ length before ∷ []))
    ∙ close_quote (before ++ s) (argv ++ length before ∷ [])

step-space :
    (w : Word) (before argv : List ℕ)
    → step b' ' (in_state before argv (end_state w)) ≡ in_state (before ++ 0 ∷ []) argv in_space
unfolding step_in
step-space (bare s) before argv = refl
step-space (quoted s) before argv = refl

-- What the words leave in the buffer, where each begins, and the state behind the last.
abbrev pub laid : List Word → List ℕ
laid [] = []
laid (w ∷ []) = content w
laid (w ∷ v ∷ ws) = content w ++ 0 ∷ laid (v ∷ ws)

abbrev pub offsets : ℕ → List Word → List ℕ
offsets o [] = []
offsets o (w ∷ []) = o ∷ []
offsets o (w ∷ v ∷ ws) = o ∷ offsets (o + length (content w) + 1) (v ∷ ws)

abbrev pub last_state : Word → List Word → State
last_state w [] = end_state w
last_state w (v ∷ ws) = last_state v ws

next_offset : (before s : List ℕ) → length ((before ++ s) ++ 0 ∷ []) ≡ length before + length s + 1
next_offset before s = omega (arith, length-append (before ++ s) (0 ∷ []), length-append before s)

pub steps-render_all :
    (w : Word) (ws : List Word) (before argv : List ℕ)
    → AllWords (w ∷ ws)
    → steps (render_all (w ∷ ws)) (in_state before argv in_space)
      ≡ in_state
          (before ++ laid (w ∷ ws))
          (argv ++ offsets (length before) (w ∷ ws))
          (last_state w ws)
steps-render_all w [] before argv (h, rest) = steps-render w before argv h
steps-render_all w (v ∷ ws) before argv (h, rest) =
    steps-append (render w) (b' ' ∷ render_all (v ∷ ws)) (in_state before argv in_space)
    ∙ ap (steps (b' ' ∷ render_all (v ∷ ws))) (steps-render w before argv h)
    ∙ ap (steps (render_all (v ∷ ws)))
        (step-space w (before ++ content w) (argv ++ length before ∷ []))
    ∙ steps-render_all v ws ((before ++ content w) ++ 0 ∷ []) (argv ++ length before ∷ []) rest
    ∙ ap₂ (λ b a. in_state b a (last_state v ws))
        (append_assoc (before ++ content w) (0 ∷ []) (laid (v ∷ ws))
          ∙ append_assoc before (content w) (0 ∷ laid (v ∷ ws)))
        (append_assoc argv (length before ∷ [])
            (offsets (length ((before ++ content w) ++ 0 ∷ [])) (v ∷ ws))
          ∙ ap (λ o. argv ++ length before ∷ offsets o (v ∷ ws)) (next_offset before (content w)))
