-- ===== src/Hex.antt =====
-- The conversions of dt100/ARM/d-bug/hex.c between words and strings of binary digits, the
-- leftmost being the lowest, with its test for a binary format and its escapes. A string is a list
-- that ends where C's has its terminating 0, or with that 0.
pub mod Binary
mod Tests
use acq200_firmware.Prelude.{
  ℕ, zero, suc, ◌+◌, ◌*◌, ◌%◌, ◌^◌, Bool, true, false, ◌&&◌, ◌||◌, List, [], ◌∷◌, bit_or, u32, leb,
  ◌==◌, if◌then◌else◌,
}
use acq200_firmware.Busprot.{has}

-- abtoi, from a character on
pub abtoi_from : List ℕ → ℕ → ℕ → ℕ
abtoi_from [] icursor xx = xx
abtoi_from (c ∷ cs) icursor xx = elim (c == b'0') [
  | true ↦ abtoi_from cs (u32 (icursor * 2)) xx
  | false ↦ elim (c == b'1') [
    | true ↦ abtoi_from cs (u32 (icursor * 2)) (bit_or xx icursor)
    | false ↦ xx
  ]
]

pub abtoi : List ℕ → ℕ
abtoi bin = abtoi_from bin 1 0

-- itoba, from the position `ichar` on: icursor is its bit, and has left the word after 32.
pub itoba_from : ℕ → ℕ → ℕ → List ℕ
itoba_from zero ichar xx = 0 ∷ []
itoba_from (suc left) ichar xx =
    (if has xx (2 ^ ichar) then b'1' else b'0') ∷ itoba_from left (ichar + 1) xx

pub itoba : ℕ → List ℕ
itoba xx = itoba_from 32 0 xx

-- MODIFIERS: "-0123456789."
abbrev is_modifier : ℕ → Bool
is_modifier c = (c == b'-') || ((c == b'.') || (leb b'0' c && leb c b'9'))

-- isbin in its two states, LOOK4_CONV and LOOK4_BIN
pub isbin_in : Bool → List ℕ → Bool
isbin_in look4_bin [] = false
isbin_in false (c ∷ cs) = isbin_in (c == b'%') cs
isbin_in true (c ∷ cs) =
    let rest = isbin_in true cs in if c == b's' then true else if is_modifier c then rest else false

pub isbin : List ℕ → Bool
isbin fmt = isbin_in false fmt

-- The character that follows an escape.
abbrev unescaped : ℕ → ℕ
unescaped c = if c == b'n' then 10 else if c == b't' then 9 else c

-- The loop of fix_escapes, with found_esc; 92 is the backslash.
pub fix_from : Bool → List ℕ → List ℕ
fix_from found_esc [] = []
fix_from found_esc (c ∷ cs) = elim (c == 92) [
  | true ↦ fix_from true cs
  | false ↦ (if found_esc then unescaped c else c) ∷ fix_from false cs
]

pub fix_escapes : List ℕ → List ℕ
fix_escapes fmt = fix_from false fmt
