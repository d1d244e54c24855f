-- ===== src/Command/Write/Skips.antt =====
-- Each decoder of the master device leaves a verb that is not its own, and hands on the path as it
-- was.
use acq200_firmware.Prelude.{
  ℕ, ◌≡◌, ◌≢◌, refl, ap, sym, ◌∙◌, Bool, true, false, ◌&&◌, ◌||◌, not, none, List, [], ◌∷◌, map,
  Bool-cases, inl, inr, if◌then◌else◌, arith,
}
use acq200_firmware.Command.Text.{Str, text, str_eq, str_eq_ne, str_eq_self}
use acq200_firmware.Command.Types.{Acq32Path, MasterDriver, Decoder, arg, help_or}
use acq200_firmware.Command.Capture.{verb_is, do_get_info, do_big_dump}
use acq200_firmware.Command.Settings.{do_set_distributor}
use acq200_firmware.Command.Threshold.{do_set_threshold}
use acq200_firmware.Command.Tables.{lkup_key, info_lut}
use acq200_firmware.Command.Gut.{Request, gut_decode, on_decoded}
use acq200_firmware.Driver.Gut.{Fx, Subject}

abbrev pub NoneOf : Str → List Str → Type 0
NoneOf verb [] = Unit
NoneOf verb (name ∷ names) = (verb ≢ name) × NoneOf verb names

-- A decoder with the verbs that it knows
abbrev pub Skips : List Str × Decoder → Type 0
Skips (names, decoder) =
    (argv : List Str) (iarg : ℕ) (p : Acq32Path)
    → NoneOf (arg argv iarg) names
    → decoder argv iarg p ≡ (iarg, p)

pub unhelped :
    (cmd txt : Str) (argv : List Str) (iarg : ℕ) (p : Acq32Path) (rest : ℕ × Acq32Path)
    → arg argv iarg ≢ text "help"
    → help_or cmd txt argv iarg p rest ≡ rest
unfolding help_or
unhelped cmd txt argv iarg p rest ne = rw (str_eq_ne (arg argv iarg) (text "help") ne) refl

pub other_verb :
    (name : Str) (argv : List Str) (iarg : ℕ) (p : Acq32Path) (own : ℕ × Acq32Path)
    → arg argv iarg ≢ name
    → (if verb_is argv iarg name then own else (iarg, p)) ≡ (iarg, p)
other_verb name argv iarg p own ne = rw (str_eq_ne (arg argv iarg) name ne) refl

-- The decoders that answer to `help` and to one name
pub named_verb :
    (cmd txt name : Str) (argv : List Str) (iarg : ℕ) (p : Acq32Path) (own : ℕ × Acq32Path)
    → NoneOf (arg argv iarg) (text "help" ∷ name ∷ [])
    → help_or cmd txt argv iarg p (if verb_is argv iarg name then own else (iarg, p)) ≡ (iarg, p)
named_verb cmd txt name argv iarg p own (helpless, (ne, rest)) =
    unhelped cmd txt argv iarg p _ helpless ∙ other_verb name argv iarg p own ne

-- A table of decoders with their verbs, each of which skips
infixr 3 ◌also◌
pub data AllSkip : List (List Str × Decoder) → Type 0 where
  no_more : AllSkip []
  ◌also◌ :
      {entry : List Str × Decoder} {entries : List (List Str × Decoder)}
      → Skips entry
      → AllSkip entries
      → AllSkip (entry ∷ entries)

abbrev pub Unknown : Str → List (List Str × Decoder) → Type 0
Unknown verb [] = Unit
Unknown verb ((names, decoder) ∷ entries) = NoneOf verb names × Unknown verb entries

lkup_none :
    {A : Type 0} (verb : Str) (lut : List (A × Str))
    → NoneOf verb (map (λ e. e.1) lut)
    → lkup_key verb lut ≡ none
unfolding lkup_key
lkup_none verb [] h = refl
lkup_none verb ((value, skey) ∷ lut) (ne, h) =
    rw (str_eq_ne skey verb (λ e. ne (sym e))) (lkup_none verb lut h)

pub get_info-Skips : (drvr : MasterDriver) → Skips (map (λ e. e.1) info_lut, do_get_info drvr)
unfolding do_get_info
get_info-Skips drvr argv iarg p h = elim (Bool-cases drvr.simulate) [
  | inl e ↦ rw e refl
  | inr e ↦ rw (e, lkup_none (arg argv iarg) info_lut h) refl
]

never : (b : Bool) (x y : ℕ × Acq32Path) → (if b && false then x else y) ≡ y
never true x y = refl
never false x y = refl

pub big_dump-Skips :
    (drvr : MasterDriver) → Skips (text "help" ∷ text "bigdump" ∷ [], do_big_dump drvr)
unfolding do_big_dump
big_dump-Skips drvr argv iarg p (helpless, (ne, rest)) =
    unhelped _ _ argv iarg p _ helpless
    ∙ rw (str_eq_ne (arg argv iarg) (text "bigdump") ne) (never (not drvr.simulate) _ (iarg, p))

-- The decoders that gutDecode serves
pub gut_skips :
    (cmd txt name : Str) (request : Request) (wants : Bool) (argv : List Str) (iarg : ℕ)
    (p : Acq32Path) (act : Fx → Subject → ℕ → ℕ × Acq32Path)
    → NoneOf (arg argv iarg) (text "help" ∷ name ∷ [])
    → help_or cmd txt argv iarg p
        (on_decoded (gut_decode name request wants argv iarg p) iarg p act)
      ≡ (iarg, p)
unfolding gut_decode
gut_skips cmd txt name request wants argv iarg p act (helpless, (ne, rest)) =
    unhelped cmd txt argv iarg p _ helpless ∙ rw (str_eq_ne (arg argv iarg) name ne) refl

pub set_distributor-Skips :
    (drvr : MasterDriver)
    → Skips (text "help" ∷ text "setDistributor" ∷ [], do_set_distributor drvr)
unfolding do_set_distributor
set_distributor-Skips drvr argv iarg p (helpless, (ne, rest)) =
    unhelped _ _ argv iarg p _ helpless
    ∙ rw (str_eq_ne (arg argv iarg) (text "setDistributor") ne) refl

abbrev pub threshold_names : List Str
threshold_names =
    text "help"
    ∷ text "clearThresholds"
    ∷ text "selectThresholdDetector"
    ∷ text "selectThresholdDistributor"
    ∷ text "setChannelThreshold"
    ∷ []

pub set_threshold-Skips : (drvr : MasterDriver) → Skips (threshold_names, do_set_threshold drvr)
unfolding do_set_threshold
set_threshold-Skips drvr argv iarg p (a, (b, (c, (d, (e, rest))))) =
    rw
      (
        str_eq_ne (arg argv iarg) (text "help") a,
        str_eq_ne (arg argv iarg) (text "clearThresholds") b,
        str_eq_ne (arg argv iarg) (text "selectThresholdDetector") c,
        str_eq_ne (arg argv iarg) (text "selectThresholdDistributor") d,
        str_eq_ne (arg argv iarg) (text "setChannelThreshold") e,
      )
      refl

-- A verb can be looked for in a table by a run.
unfoldable pub known : Str → List Str → Bool
known verb [] = false
known verb (name ∷ names) = str_eq verb name || known verb names

NoneOf-known : (verb : Str) (names : List Str) → known verb names ≡ false → NoneOf verb names
unfolding known
NoneOf-known verb [] e = tt
NoneOf-known verb (name ∷ names) e = elim (Bool-cases (str_eq verb name)) [
  | inl same ↦ absurd (ground (arith, same))
  | inr other ↦ (
    λ eq. let same = ap (str_eq verb) (sym eq) ∙ str_eq_self verb in cc,
    NoneOf-known verb names (ground (arith, other)),
  )
]

unfoldable pub known_in : Str → List (List Str × Decoder) → Bool
known_in verb [] = false
known_in verb ((names, decoder) ∷ entries) = known verb names || known_in verb entries

pub Unknown-known_in :
    (verb : Str) (table : List (List Str × Decoder))
    → known_in verb table ≡ false
    → Unknown verb table
unfolding known_in
Unknown-known_in verb [] e = tt
Unknown-known_in verb ((names, decoder) ∷ table) e = elim (Bool-cases (known verb names)) [
  | inl found ↦ absurd (ground (arith, found))
  | inr missing ↦
      (NoneOf-known verb names missing, Unknown-known_in verb table (ground (arith, missing)))
]
