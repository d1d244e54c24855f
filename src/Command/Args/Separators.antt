-- ===== src/Command/Args/Separators.antt =====
-- Where getargs finds the end of a line, and what it returns for a line of words.
use acq200_firmware.Prelude.{
  ℕ, ◌+◌, ◌<◌, ◌≡◌, refl, ap, ap₂, ◌∙◌, max, Bool, true, false, ◌&&◌, none, some, List, [], ◌∷◌,
  ◌++◌, map, length, length-append, take, drop, ◌==◌, ◌!=◌, arith,
}
use acq200_firmware.Command.Text.{Str}
use acq200_firmware.Command.Args.{
  maxargs, index_of, start, scan, close, line_of, getargs, ieol, or_zero,
}
use acq200_firmware.Command.Args.Lines.{
  Word, bare, quoted, content, escape, escape_all, render, render_all, IsWord, AllWords, every,
  bare_char, quoted_char, steps, laid, offsets, steps-render_all, split_and,
}
use acq200_firmware.Command.Args.Reading.{
  scan-steps, length-offsets, drop-append, take-append, drop_past, every-append, weaken, read_back,
}

-- The two separators of lines, each with the other.
pub data Separator : Type 0 where
  eol asep : Separator

abbrev pub code : Separator → ℕ
code eol = 10
code asep = b';'

abbrev pub other : Separator → ℕ
other eol = b';'
other asep = 10

abbrev inside : ℕ → Bool
inside c = (c != 10) && (c != b';')

index_of-none : (c : ℕ) (s : Str) → every (λ d. d != c) s ≡ true → index_of c s ≡ none
unfolding index_of
index_of-none c [] h = refl
index_of-none c (d ∷ s) h =
    let (now, later) = split_and (d != c) (every (λ e. e != c) s) h in
    ground (arith, index_of-none c s later)

index_of-append :
    (c : ℕ) (s rest : Str)
    → every (λ d. d != c) s ≡ true
    → index_of c (s ++ c ∷ rest) ≡ some (length s)
unfolding index_of
index_of-append c [] rest h = ground arith
index_of-append c (d ∷ s) rest h =
    let (now, later) = split_and (d != c) (every (λ e. e != c) s) h in
    ground (arith, index_of-append c s rest later)

ieol_lem :
    (sep : Separator) (s rest : Str)
    → every inside s ≡ true
    → every (λ c. c != other sep) rest ≡ true
    → ieol (s ++ code sep ∷ rest) ≡ length s
unfolding ieol
ieol_lem eol s rest h k =
    ap₂ (λ a b. max (or_zero a) (or_zero b))
      (index_of-append 10 s rest (weaken inside (λ c. c != 10) (λ c p. ground arith) s h))
      (index_of-none b';' (s ++ 10 ∷ rest) (
        every-append (λ c. c != b';') s (10 ∷ rest)
          (weaken inside (λ c. c != b';') (λ c p. ground arith) s h) k))
    ∙ omega arith
ieol_lem asep s rest h k =
    ap₂ (λ a b. max (or_zero a) (or_zero b))
      (index_of-none 10 (s ++ b';' ∷ rest) (
        every-append (λ c. c != 10) s (b';' ∷ rest)
          (weaken inside (λ c. c != 10) (λ c p. ground arith) s h) k))
      (index_of-append b';' s rest (weaken inside (λ c. c != b';') (λ c p. ground arith) s h))
    ∙ omega arith

-- No separator is in a word.
escape-inside : (c : ℕ) → quoted_char c ≡ true → every inside (escape c) ≡ true
escape-inside c h = ground arith

escape_all-inside : (s : Str) → every quoted_char s ≡ true → every inside (escape_all s) ≡ true
escape_all-inside [] h = refl
escape_all-inside (c ∷ s) h =
    let (now, later) = split_and (quoted_char c) (every quoted_char s) h in
    every-append inside (escape c) (escape_all s) (escape-inside c now) (escape_all-inside s later)

render-inside : (w : Word) → IsWord w → every inside (render w) ≡ true
render-inside (bare []) h = absurd h
render-inside (bare (c ∷ s)) (unquoted, e) = weaken bare_char inside (λ d p. ground arith) (c ∷ s) e
render-inside (quoted s) h =
    every-append inside (escape_all s) (b'"' ∷ []) (escape_all-inside s h) refl

render_all-inside : (ws : List Word) → AllWords ws → every inside (render_all ws) ≡ true
render_all-inside [] h = refl
render_all-inside (w ∷ []) (h, all) = render-inside w h
render_all-inside (w ∷ v ∷ ws) (h, all) =
    every-append inside (render w) (b' ' ∷ render_all (v ∷ ws)) (render-inside w h)
      (render_all-inside (v ∷ ws) all)

render_pos : (w : Word) → IsWord w → 0 < length (render w)
render_pos (bare []) h = absurd h
render_pos (bare (c ∷ s)) h = omega arith
render_pos (quoted s) h = omega arith

render_all_pos : (w : Word) (ws : List Word) → AllWords (w ∷ ws) → 0 < length (render_all (w ∷ ws))
render_all_pos w [] (h, all) = render_pos w h
render_all_pos w (v ∷ ws) (h, all) =
    omega (arith, render_pos w h, length-append (render w) (b' ' ∷ render_all (v ∷ ws)))

pos_is_not_zero : (n : ℕ) → 0 < n → (n == 0) ≡ false
pos_is_not_zero n h = ground arith

-- What getargs does with a line that does not begin with its separator.
getargs_inside :
    (aline s : Str)
    → ieol aline ≡ length s
    → 0 < length s
    → getargs aline ≡ line_of (scan maxargs (take (length s) aline) (drop (length s) aline) start)
unfolding getargs
getargs_inside aline s e h = rw (e, pos_is_not_zero (length s) h) refl

-- getargs on a line of words, each bare or in quotes with the characters that need it escaped, with
-- one space between two of them: when there are one to nine words and the line ends with a newline or
-- a ';', and the other of these two is not in what follows, then argv holds the contents of the words
-- in order, and *nextline is what follows.
pub getargs-render_all :
    (sep : Separator) (w : Word) (ws : List Word) (rest : Str)
    → AllWords (w ∷ ws)
    → length (w ∷ ws) < maxargs
    → every (λ c. c != other sep) rest ≡ true
    → ((getargs (render_all (w ∷ ws) ++ code sep ∷ rest)).argv ≡ map content (w ∷ ws))
      × ((getargs (render_all (w ∷ ws) ++ code sep ∷ rest)).next ≡ rest)
getargs-render_all sep w ws rest all few alone =
    let line = render_all (w ∷ ws) in
    let found = steps-render_all w ws [] [] all in
    let few_offsets : length (steps line start).argv < maxargs =
      omega (arith, few, length-offsets 0 (w ∷ ws), ap (λ s. length s.argv) found) in
    let scanned : getargs (line ++ code sep ∷ rest)
        ≡ line_of (laid (w ∷ ws) ++ 0 ∷ rest, length (laid (w ∷ ws)) + 1, offsets 0 (w ∷ ws)) =
      getargs_inside (line ++ code sep ∷ rest) line
        (ieol_lem sep line rest (render_all-inside (w ∷ ws) all) alone) (render_all_pos w ws all)
      ∙ ap₂ (λ todo beyond. line_of (scan maxargs todo beyond start))
          (take-append line (code sep ∷ rest)) (drop-append line (code sep ∷ rest))
      ∙ ap line_of (scan-steps maxargs line (code sep ∷ rest) start few_offsets)
      ∙ ap (λ s. line_of (close s (code sep ∷ rest))) found in
    (
      ap (λ l. l.argv) scanned ∙ read_back w ws [] rest all,
      ap (λ l. l.next) scanned ∙ drop_past (laid (w ∷ ws)) 0 rest,
    )
