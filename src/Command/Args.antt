-- ===== src/Command/Args.antt =====
-- getargs of acq32_command.c, which cuts a line into arguments in place. The buffer is held in two
-- parts, the characters in front of `ichar` and those from it on, so that shuffle_up at `ichar` takes
-- a character away, and `todo` holds those that are left up to `ieol`.
pub mod Lines
pub mod Reading
pub mod Separators
pub mod Progress
use acq200_firmware.Prelude.{
  ℕ, ◌+◌, max, Bool, true, false, Option, none, some, List, [], ◌∷◌, ◌++◌, map, length, take, drop,
  ◌==◌, if◌then◌else◌,
}
use acq200_firmware.Command.Text.{Str}

abbrev pub maxargs : ℕ
maxargs = 10

abbrev after_one : Option ℕ → Option ℕ
after_one none = none
after_one (some i) = some (i + 1)

-- strchr, as an index
pub index_of : ℕ → Str → Option ℕ
index_of c [] = none
index_of c (d ∷ s) = let later = after_one (index_of c s) in if d == c then some 0 else later

pub substitute_escape : ℕ → ℕ
substitute_escape c = if c == b'n' then 10 else if c == b'r' then 13 else if c == b't' then 9 else c

pub data State : Type 0 where
  in_space in_token in_quotes finished_quotes : State

pub record Scan : Type 0 where
  pub before : List ℕ
  pub argv : List ℕ
  pub state : State
  pub escaped : Bool

-- The character stays in the buffer, or is replaced; an argument begins at it; it is taken out.
abbrev pub keep : ℕ → State → Scan → Scan
keep c state s = record s { before = s.before ++ c ∷ []; state = state }

abbrev pub begin_arg : Scan → Scan
begin_arg s = record s { argv = s.argv ++ length s.before ∷ [] }

abbrev pub in_quotes_step : ℕ → Scan → Scan
in_quotes_step c s =
    if s.escaped
    then record s { before = s.before ++ substitute_escape c ∷ []; escaped = false }
    else if c == b'\\'
    then record s { escaped = true }
    else if c == b'"'
    then record s { state = finished_quotes }
    else keep c in_quotes s

-- The body of the loop, by the state.
pub step_in : State → ℕ → Scan → Scan
step_in in_space c s =
    if c == b' '
    then keep c in_space s
    else if c == b'"'
    then record (begin_arg s) { state = in_quotes }
    else keep c in_token (begin_arg s)
step_in in_token c s = if c == b' ' then keep 0 in_space s else keep c in_token s
step_in in_quotes c s = in_quotes_step c s
step_in finished_quotes c s = if c == b' ' then keep 0 in_space s else keep c in_space s

abbrev pub step : ℕ → Scan → Scan
step c s = step_in s.state c s

-- The buffer after the loop, and where the next line is in it.
abbrev pub close : Scan → List ℕ → List ℕ × ℕ × List ℕ
close s rest = (s.before ++ 0 ∷ drop 1 rest, length s.before + 1, s.argv)

pub scan : ℕ → List ℕ → List ℕ → Scan → List ℕ × ℕ × List ℕ
scan limit [] beyond s = close s beyond
scan limit (c ∷ todo) beyond s = elim (length s.argv == limit) [
  | true ↦ close s (c ∷ todo ++ beyond)
  | false ↦ scan limit todo beyond (step c s)
]

-- A string of the buffer, from its start on
pub cstr : List ℕ → Str
cstr [] = []
cstr (c ∷ s) = let rest = cstr s in if c == 0 then [] else c ∷ rest

-- What getargs returns: the arguments, how far it has moved *nextline, and the string from there on.
pub record Line : Type 0 where
  pub argv : List Str
  pub moved : ℕ
  pub next : Str

abbrev pub line_of : List ℕ × ℕ × List ℕ → Line
line_of (buffer, moved, offsets) = record {
  argv = map (λ i. cstr (drop i buffer)) offsets;
  moved = moved;
  next = drop moved buffer;
}

abbrev pub start : Scan
start = record { before = []; argv = []; state = in_space; escaped = false }

abbrev pub or_zero : Option ℕ → ℕ
or_zero none = 0
or_zero (some i) = i

pub ieol : Str → ℕ
ieol aline = max (or_zero (index_of 10 aline)) (or_zero (index_of b';' aline))

-- A separator at the start is stepped over; without one, nothing is.
abbrev pub blank : Str → Option ℕ → Option ℕ → Line
blank aline none none = record { argv = []; moved = 0; next = aline }
blank aline sep1 sep2 = record { argv = []; moved = 1; next = drop 1 aline }

pub getargs : Str → Line
getargs aline =
    if ieol aline == 0
    then blank aline (index_of 10 aline) (index_of b';' aline)
    else line_of (scan maxargs (take (ieol aline) aline) (drop (ieol aline) aline) start)
