-- ===== src/Command/Dio/Lines.antt =====
-- The output lines that build_DIO sets are those that build_DIO_string prints.
use acq200_firmware.Prelude.{
  ℕ, zero, suc, ◌+◌, ◌-◌, ◌*◌, ◌^◌, ◌<◌, ◌≡◌, ap, ◌∙◌, Bool, true, ◌&&◌, ◌||◌, [], ◌∷◌, length,
  get_or, bit_not, bit, bit_and_pow, pow_pos, ltb, leb, ◌==◌, ◌!=◌, if◌then◌else◌, arith,
}
use acq200_firmware.Busprot.{has}
use acq200_firmware.Command.Text.{Str}
use acq200_firmware.Command.Types.{Acq32Device}
use acq200_firmware.Command.Dio.{output_char}

pub has-pow : (w i : ℕ) → has w (2 ^ i) ≡ (bit w i == 1)
has-pow w i =
    ap (λ t. t != 0) (bit_and_pow i w) ∙ nonzero (bit w i) (2 ^ i) (omega arith) (pow_pos i)
  where
    nonzero : (b p : ℕ) → b < 2 → 0 < p → (b * p != 0) ≡ (b == 1)
    nonzero zero p h k = ground arith
    nonzero (suc b) p h k = ground arith

abbrev one_bit : ℕ → ℕ → Bool
one_bit k i =
    (bit (2 ^ k) i == (if i == k then 1 else 0))
    && (bit (bit_not (2 ^ k)) i == (if i == k then 0 else 1))

abbrev pub is_dio : ℕ → Bool
is_dio c = (c == b'-') || ((c == b'1') || (c == b'0'))

abbrev pub AllDio : Str → Type 0
AllDio [] = Unit
AllDio (c ∷ s) = (is_dio c ≡ true) × AllDio s

-- The character that a line has once a string has been set from line `k` on
abbrev put : Str → ℕ → ℕ → Acq32Device → ℕ
put s k i d = if leb k i && ltb i (k + length s) then get_or s (i - k) 0 else output_char i d
