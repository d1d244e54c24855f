-- ===== src/BigBuf/Regions.antt =====
-- The parts that acq200_bb_alloc hands out.
use acq200_firmware.Prelude.{ℕ, ◌+◌, ◌≤◌, ◌≡◌, Bool, List, [], ◌∷◌}
use acq200_firmware.BigBuf.{BigBuffer, Mapping, Got, no_memory, null_write, got, bb_alloc}

-- The mappings that a run of requests gets, each a length and whether ioremap serves it; a null
-- write ends it.
pub alloc_all : List (ℕ × Bool) → BigBuffer → List Mapping
alloc_all [] bb = []
alloc_all ((length, mapped) ∷ rest) bb =
    let (result, after) = bb_alloc length mapped bb in
    let mappings = alloc_all rest after in
    elim result [ no_memory ↦ mappings | null_write ↦ [] | got m ↦ m ∷ mappings ]

-- The mappings lie one after another from `low` on, and end by `high`.
abbrev pub InOrder : ℕ → ℕ → List Mapping → Type 0
InOrder low high [] = low ≤ high
InOrder low high (m ∷ ms) = (m.pa ≡ low) × InOrder (low + m.len) high ms

abbrev follow : List (ℕ × Bool) → Got × BigBuffer → List Mapping
follow rest r = elim r.0 [
  | no_memory ↦ alloc_all rest r.1
  | null_write ↦ []
  | got m ↦ m ∷ alloc_all rest r.1
]

-- The parts that follow a request, given what it got.
abbrev Rest : List (ℕ × Bool) → BigBuffer → Got × BigBuffer → Type 0
Rest rest bb r = InOrder (bb.base + bb.inext) (bb.base + bb.length) (follow rest r)
