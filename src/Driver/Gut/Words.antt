-- ===== src/Driver/Gut/Words.antt =====
-- What the slave reads from a word that make_gut_cmd makes.
use acq200_firmware.Prelude.{
  ℕ, ◌+◌, ◌*◌, ◌/◌, ◌%◌, ◌^◌, ◌<◌, ◌≡◌, refl, ap, ◌∙◌, arith, bit_or, bit_or-div, bit_or-mod,
  bit_or-zero, zero-bit_or,
}
use acq200_firmware.Busprot.{get_funcode, get_a1, get_a2}
use acq200_firmware.Busprot.Fields.{get_funcode_lem, get_a1_lem, get_a2_lem}
use acq200_firmware.Driver.Gut.{Fx, Subject, subject_code, make_gut_cmd}

-- The subjects that the word has room for.
abbrev pub number_of : Subject → ℕ
number_of Subject.null = 0
number_of (Subject.phase n) = n
number_of (Subject.event n) = n

abbrev pub is_event : Subject → ℕ
is_event Subject.null = 0
is_event (Subject.phase n) = 0
is_event (Subject.event n) = 1

code_small : (subject : Subject) → number_of subject < 16 → subject_code subject < 32
code_small Subject.null h = omega arith
code_small (Subject.phase n) h = omega arith
code_small (Subject.event n) h = omega arith

code_parts : (subject : Subject) → subject_code subject ≡ 16 * is_event subject + number_of subject
code_parts Subject.null = refl
code_parts (Subject.phase n) = omega arith
code_parts (Subject.event n) = omega arith

-- `high | low` with `low` below the lowest bit of `high`.
joined : (high low : ℕ) → low < 32 → bit_or (high * 32) low ≡ high * 32 + low
joined high low h =
    let word = bit_or (high * 32) low in
    let no_high : low / 32 ≡ 0 = omega arith in
    let no_low : high * 32 % 32 ≡ 0 = omega arith in
    let upper : word / 32 ≡ high =
      bit_or-div 5 (high * 32) low
      ∙ ap (bit_or (high * 32 / 32)) no_high
      ∙ bit_or-zero (high * 32 / 32)
      ∙ omega arith in
    let lower : word % 32 ≡ low =
      bit_or-mod 5 (high * 32) low
      ∙ ap (λ t. bit_or t (low % 32) % 32) no_low
      ∙ ap (λ t. t % 32) (zero-bit_or (low % 32))
      ∙ omega arith in
    omega (arith, upper, lower)

abbrev pub fx_bit : Fx → ℕ
fx_bit Fx.ai = 4
fx_bit Fx.ao = 2
fx_bit Fx.do_ = 1

gut_word :
    (cmd : ℕ) (fx : Fx) (subject : Subject)
    → number_of subject < 16
    → make_gut_cmd cmd fx subject
      ≡ cmd * 65536 % 2 ^ 32 + (fx_bit fx * 32 + (16 * is_event subject + number_of subject))
unfolding make_gut_cmd
gut_word cmd Fx.ai subject h =
    omega (arith, joined 4 (subject_code subject) (code_small subject h), code_parts subject)
gut_word cmd Fx.ao subject h =
    omega (arith, joined 2 (subject_code subject) (code_small subject h), code_parts subject)
gut_word cmd Fx.do_ subject h =
    omega (arith, joined 1 (subject_code subject) (code_small subject h), code_parts subject)

fx_small : (fx : Fx) → fx_bit fx < 8
fx_small Fx.ai = omega arith
fx_small Fx.ao = omega arith
fx_small Fx.do_ = omega arith

event_small : (subject : Subject) → is_event subject < 2
event_small Subject.null = omega arith
event_small (Subject.phase n) = omega arith
event_small (Subject.event n) = omega arith

-- From a word of make_gut_cmd with an 8-bit function code and a phase or event number below 16,
-- the slave's field macros read the code, an empty a1, and an a2 that holds the function's bit,
-- the event flag and the number apart.
pub make_gut_cmd_lem :
    (cmd : ℕ) (fx : Fx) (subject : Subject)
    → cmd < 256
    → number_of subject < 16
    → let word = make_gut_cmd cmd fx subject in
      (get_funcode word ≡ cmd)
      × (get_a1 word ≡ 0)
      × (get_a2 word / 32 ≡ fx_bit fx)
      × (get_a2 word / 16 % 2 ≡ is_event subject)
      × (get_a2 word % 16 ≡ number_of subject)
make_gut_cmd_lem cmd fx subject small room =
    let word = make_gut_cmd cmd fx subject in
    let is = gut_word cmd fx subject room in
    let f = fx_small fx in
    let e = event_small subject in
    let a2 = get_a2_lem word in
    (
      get_funcode_lem word ∙ omega arith,
      get_a1_lem word ∙ omega arith,
      omega arith,
      omega arith,
      omega arith,
    )
