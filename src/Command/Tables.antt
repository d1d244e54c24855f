-- ===== src/Command/Tables.antt =====
-- The tables of keys in acq32_command.c, and the searches in them.
use acq200_firmware.Prelude.{ℕ, Option, none, some, List, [], ◌∷◌, ◌==◌, if◌then◌else◌}
use acq200_firmware.Command.Text.{Str, text, str_eq}
use acq200_firmware.Driver.Gut.{Fx, Subject}

-- lkupKey and lkup: the value of the first entry with the key; `none` is -1.
unfoldable pub lkup_key {ℓ} : {A : Type ℓ} → Str → List (A × Str) → Option A
lkup_key key [] = none
lkup_key key ((value, skey) ∷ lut) = if str_eq skey key then some value else lkup_key key lut

-- getKeyFromState, getKeyFromMode and rlkup: the key of the first entry with the value.
pub key_of : ℕ → List (ℕ × Str) → Option Str
key_of value [] = none
key_of value ((ikey, skey) ∷ lut) = if value == ikey then some skey else key_of value lut

abbrev pub or_text : Str → Option Str → Str
or_text default none = default
or_text default (some s) = s

abbrev pub state_lut : List (ℕ × Str)
state_lut =
    (0, text "ST_STOP")
    ∷ (1, text "ST_ARM")
    ∷ (2, text "ST_RUN")
    ∷ (3, text "ST_TRIGGER")
    ∷ (4, text "ST_POSTPROCESS")
    ∷ []

pub get_key_from_state : ℕ → Str
get_key_from_state state = or_text (text "ST_UNKNOWN") (key_of state state_lut)

abbrev pub mode_lut : List (ℕ × Str)
mode_lut =
    (0, text "GATED_TRANSIENT")
    ∷ (1, text "GATED_CONTINUOUS")
    ∷ (2, text "SOFT_TRANSIENT")
    ∷ (3, text "SOFT_CONTINUOUS")
    ∷ (4, text "TRIGGERED_CONTINUOUS")
    ∷ []

pub get_mode_from_key : Str → Option ℕ
get_mode_from_key key = lkup_key key mode_lut

pub get_key_from_mode : ℕ → Str
get_key_from_mode mode = or_text (text "M_UNKNOWN") (key_of mode mode_lut)

-- lkupDIx: the lines are MASK( n ), and the last entry has the key of the first.
abbrev pub di_lut : List (ℕ × Str)
di_lut =
    (1, text "DI0") ∷ (2, text "DI1") ∷ (4, text "DI2") ∷ (8, text "DI3") ∷ (16, text "DI0") ∷ []

pub lkup_dix : Str → Option ℕ
lkup_dix key = lkup_key key di_lut

-- The table of do_SetInternalClock_command, and that of do_SetExternalClock_command.
abbrev pub internal_do_lut : List (ℕ × Str)
internal_do_lut =
    (1, text "DO0") ∷ (2, text "DO1") ∷ (4, text "DO2") ∷ (8, text "DO3") ∷ (16, text "DO0") ∷ []

abbrev pub external_do_lut : List (ℕ × Str)
external_do_lut =
    (1, text "DO0") ∷ (2, text "DO1") ∷ (4, text "DO2") ∷ (8, text "DO3") ∷ (16, text "DO4") ∷ []

-- enum StatusSelect, in do_GetInfo
abbrev pub info_lut : List (ℕ × Str)
info_lut =
    (0, text "getFwrev")
    ∷ (1, text "getConfig")
    ∷ (2, text "getCalinfo")
    ∷ (3, text "getCaptureStats")
    ∷ (4, text "getDebug")
    ∷ []

-- enum USERLED, in do_SetUser
abbrev pub user_lut : List (ℕ × Str)
user_lut = (1, text "ON") ∷ (0, text "OFF") ∷ (2, text "FLASH") ∷ []

abbrev pub fx_lut : List (Fx × Str)
fx_lut = (Fx.ao, text "AO") ∷ (Fx.ai, text "AI") ∷ (Fx.do_, text "DO") ∷ []

abbrev pub subject_lut : List (Subject × Str)
subject_lut =
    (Subject.phase 1, text "P1")
    ∷ (Subject.phase 2, text "P2")
    ∷ (Subject.event 1, text "E1")
    ∷ (Subject.event 2, text "E2")
    ∷ (Subject.event 3, text "E3")
    ∷ []

-- enum PHASE_PROPERTY, in do_GetPhase
abbrev pub phase_lut : List (ℕ × Str)
phase_lut = (1, text "requested-samples") ∷ (2, text "actual-samples") ∷ (3, text "state") ∷ []

-- ec_lut: enum EVENT_CONDITION
abbrev pub condition_lut : List (ℕ × Str)
condition_lut =
    (1, text "EV_TRUE")
    ∷ (2, text "EV_SOFT")
    ∷ (3, text "EV_TRIGGER_RISING")
    ∷ (4, text "EV_TRIGGER_FALLING")
    ∷ (0, text "EV_NONE")
    ∷ (5, text "EV_DATA_EXCEEDS")
    ∷ (6, text "EV_DATA_BELOW")
    ∷ []

-- enum CLOCK_SOURCE, in do_SetClock
abbrev pub clock_lut : List (ℕ × Str)
clock_lut =
    (0, text "DI0")
    ∷ (1, text "DI1")
    ∷ (2, text "DI2")
    ∷ (3, text "DI3")
    ∷ (4, text "DI4")
    ∷ (5, text "DI5")
    ∷ (6, text "SOFT_CLOCK")
    ∷ (7, text "INTERNAL_CLOCK")
    ∷ []

-- sync_route_lut: a function's two names, and the destinations of its bits; `none` is a null.
pub record Route : Type 0 where
  pub func1 : Str
  pub func_alt : Str
  pub dest : List (Option Str)

abbrev route : Str → Str → List (Option Str) → Route
route func1 func_alt dest = record { func1 = func1; func_alt = func_alt; dest = dest }

abbrev dests : Str → Str → Str → Str → Option Str → List (Option Str)
dests a b c d e = some a ∷ some b ∷ some c ∷ some d ∷ e ∷ []

abbrev pub sync_route_lut : List Route
sync_route_lut =
    route (text "DI0") (text "AICLK")
      (dests (text "MI0") (text "MO0") (text "J50") (text "PXI_TRIG0") (some (text "PXI_TRIG6")))
    ∷ route (text "DI1") (text "AITRIG")
        (dests (text "MI1") (text "MO1") (text "J51") (text "PXI_TRIG1") (some (text "PXI_TRIG7")))
    ∷ route (text "DI2") (text "AOCLK")
        (dests (text "MI2") (text "MO2") (text "J52") (text "PXI_TRIG2") (some (text "PXI_STAR")))
    ∷ route (text "DI3") (text "AOTRIG") (
        dests (text "MI3") (text "MO3") (text "J53") (text "PXI_TRIG3") (some (text "PXI_CLOCK10")))
    ∷ route (text "DI4") (text "DOCLK")
        (dests (text "MI4") (text "MO4") (text "J34") (text "PXI_TRIG4") none)
    ∷ route (text "DI5") (text "DOTRIG")
        (dests (text "MI5") (text "MO5") (text "J35") (text "PXI_TRIG5") none)
    ∷ []
