-- ===== src/Command/Text.antt =====
-- C strings: the characters in front of the terminating 0.
use Prim.Native.Char.{code}
use Prim.Native.String.{String}
use acq200_firmware.Prelude.{
  ℕ, ◌≡◌, refl, ◌≢◌, Bool, true, false, ◌&&◌, List, [], ◌∷◌, ◌==◌, Bool-cases, inl, inr, arith,
}

abbrev pub Str : Type 0
Str = List ℕ

abbrev pub text : String → Str
text String.[] = []
text (String.◌∷◌ c s) = code c ∷ text s

-- STREQ
unfoldable pub str_eq : Str → Str → Bool
str_eq [] [] = true
str_eq [] (d ∷ t) = false
str_eq (c ∷ s) [] = false
str_eq (c ∷ s) (d ∷ t) = (c == d) && str_eq s t

-- STREQNL: whether the first starts with the second
unfoldable pub str_eqnl : Str → Str → Bool
str_eqnl s [] = true
str_eqnl [] (d ∷ t) = false
str_eqnl (c ∷ s) (d ∷ t) = (c == d) && str_eqnl s t

pub str_eq_self : (s : Str) → str_eq s s ≡ true
unfolding str_eq
str_eq_self [] = refl
str_eq_self (c ∷ s) = ground (arith, str_eq_self s)

pub eq_of_str_eq : (s t : Str) → str_eq s t ≡ true → s ≡ t
unfolding str_eq
eq_of_str_eq [] [] e = refl
eq_of_str_eq [] (d ∷ t) e = cc
eq_of_str_eq (c ∷ s) [] e = cc
eq_of_str_eq (c ∷ s) (d ∷ t) e = ground (arith, eq_of_str_eq s t)

pub str_eq_ne : (s t : Str) → s ≢ t → str_eq s t ≡ false
str_eq_ne s t ne = elim (Bool-cases (str_eq s t)) [
  | inl e ↦ absurd (ne (eq_of_str_eq s t e))
  | inr e ↦ e
]
