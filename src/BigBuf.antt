-- ===== src/BigBuf.antt =====
-- The big buffer of dt100/Linux/Drivers/acq200_bigbuf_alloc.c: the allocator that hands out parts of
-- it once (acq200_bb_init, acq200_bb_alloc), and a device's pool of buffers (acq200_bb_pool_create,
-- acq200_bb_pool_alloc, acq200_bb_pool_free).
pub mod Regions
pub mod Pool
mod Tests
use acq200_firmware.Prelude.{
  ℕ, zero, suc, ◌+◌, ◌*◌, ◌/◌, Bool, true, false, Option, none, some, List, [], ◌∷◌, set, get_or,
  replicate, ltb, ◌==◌, if◌then◌else◌,
}

-- The static bb, with longs that do not overflow.
pub record BigBuffer : Type 0 where
  pub base : ℕ
  pub length : ℕ
  pub ndevices : ℕ
  pub inext : ℕ

pub bb_init : ℕ → ℕ → ℕ → BigBuffer
bb_init base length ndevices = record {
  base = base;
  length = length;
  ndevices = ndevices;
  inext = 0;
}

-- pa and len of struct IoMapping
pub record Mapping : Type 0 where
  pub pa : ℕ
  pub len : ℕ

-- What acq200_bb_alloc does: -ENOMEM, or it fills in the mapping, or `fill` writes through the null
-- pointer that ioremap has given.
pub data Got : Type 0 where
  no_memory null_write : Got
  got : Mapping → Got

-- The loop of fill, which writes the first word if there is one.
pub fill_writes : ℕ → Bool
fill_writes len = ltb 0 (len / 4)

-- acq200_bb_alloc; `mapped` is whether ioremap gives an address.
pub bb_alloc : ℕ → Bool → BigBuffer → Got × BigBuffer
bb_alloc length mapped bb =
    if ltb bb.length (bb.inext + length)
    then (no_memory, bb)
    else if mapped
    then (
      got record { pa = bb.base + bb.inext; len = length },
      record bb { inext = bb.inext + length },
    )
    else if fill_writes length
    then (null_write, bb)
    else (no_memory, bb)

abbrev pub nmappings : ℕ
nmappings = 16

abbrev pub ndatamapping : ℕ
ndatamapping = 15

abbrev pub msg_mapping : ℕ
msg_mapping = 15

-- reserved of struct BigBufPool, as acq200_bb_pool_create leaves it
pub pool_create : List Bool
pool_create = set (replicate nmappings false) msg_mapping true

-- INCR( ibuf ) for the static ibuf of acq200_bb_pool_alloc; `none` is its first value, -1.
pub incr : Option ℕ → ℕ
incr none = 0
incr (some ibuf) = if ibuf == 14 then 0 else ibuf + 1

-- acq200_bb_pool_free of the buffer `ibuf`; BUG() for another mapping is `none`.
pub pool_free : ℕ → List Bool → Option (List Bool)
pool_free ibuf reserved = if ltb ibuf ndatamapping then some (set reserved ibuf false) else none

-- A sleep on the pool's queue times out, or ends once these buffers have been given back.
pub data Sleep : Type 0 where
  timeout : Sleep
  woken : List ℕ → Sleep

pub wake : List ℕ → List Bool → List Bool
wake [] reserved = reserved
wake (ibuf ∷ freed) reserved = wake freed (set reserved ibuf false)

-- What acq200_bb_pool_alloc does: it returns a buffer, or 0 after a timeout, or it still sleeps.
pub data Alloc : Type 0 where
  allocated timed_out : ℕ → List Bool → Alloc
  sleeping out_of_fuel : Alloc

abbrev pub is_reserved : ℕ → List Bool → Bool
is_reserved ibuf reserved = get_or reserved ibuf false

-- The loop: `ibuf1` is where it began, and the sleeps are those that it may come to.
pub alloc_from : ℕ → List Sleep → ℕ → ℕ → List Bool → Alloc
alloc_from zero sleeps ibuf1 ibuf reserved = out_of_fuel
alloc_from (suc fuel) sleeps ibuf1 ibuf reserved = elim (is_reserved ibuf reserved) [
  | false ↦ allocated ibuf (set reserved ibuf true)
  | true ↦ elim (ibuf == ibuf1) [
    | false ↦ alloc_from fuel sleeps ibuf1 (incr (some ibuf)) reserved
    | true ↦ elim sleeps [
      | [] ↦ sleeping
      | sleep ∷ later ↦ elim sleep [
        | timeout ↦ timed_out ibuf reserved
        | woken freed ↦ alloc_from fuel later ibuf1 (incr (some ibuf)) (wake freed reserved)
      ]
    ]
  ]
]

-- Between two sleeps the loop goes round the 15 buffers once.
pub rounds_for : List Sleep → ℕ
rounds_for [] = 16
rounds_for (sleep ∷ later) = 15 + rounds_for later

pub pool_alloc : List Sleep → Option ℕ → List Bool → Alloc
pool_alloc sleeps last reserved =
    alloc_from (rounds_for sleeps) sleeps (incr last) (incr last) reserved
