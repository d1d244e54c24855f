-- ===== src/Wavcmd.antt =====
-- The voltage reference commands of dt100/ARM/d-bug/wavcmd.c: the reference word S_ref, which
-- i2cReadRef reads and i2cUpdateRef writes, has two bits for each group of four channels.
pub mod Reference
mod Tests
use acq200_firmware.Prelude.{
  ℕ, zero, suc, ◌+◌, ◌-◌, ◌*◌, ◌/◌, List, [], ◌∷◌, ◌++◌, bit_and, bit_or, bit_not, u32, ◌<<<◌,
  ◌>>>◌, ◌==◌, if◌then◌else◌,
}

-- ALL_CHANNELS
abbrev pub all_channels : ℕ
all_channels = b'X'

-- doSetRef of one channel
pub set_one : ℕ → ℕ → ℕ → ℕ
set_one channel vsel s_ref =
    let igroup = (32 - channel) / 4 in
    let lshift = igroup * 2 in
    bit_or (bit_and s_ref (bit_not (u32 (3 <<< lshift)))) (u32 (vsel <<< lshift))

-- The loop of doSetRef over all channels, from `ch` on.
pub set_from : ℕ → ℕ → ℕ → ℕ → ℕ
set_from zero ch vsel s_ref = s_ref
set_from (suc left) ch vsel s_ref = set_from left (ch + 1) vsel (set_one ch vsel s_ref)

pub do_set_ref : ℕ → ℕ → ℕ → ℕ
do_set_ref channel vsel s_ref =
    if channel == all_channels then set_from 32 1 vsel s_ref else set_one channel vsel s_ref

-- The lines of one group: those from the channel after `ichannel` to the next multiple of four.
pub print_group : ℕ → ℕ → ℕ → List (ℕ × ℕ)
print_group zero ichannel vsel = []
print_group (suc fuel) ichannel vsel =
    let rest = print_group fuel (ichannel + 1) vsel in
    (ichannel + 1, vsel) ∷ (if bit_and (ichannel + 1) 3 == 0 then [] else rest)

-- The loop of getRef, with the groups that are left, and getRef: each line is a channel and its
-- selection.
pub get_from : ℕ → ℕ → ℕ → ℕ → List (ℕ × ℕ)
get_from zero gcursor ichannel group = []
get_from (suc igroup) gcursor ichannel group =
    print_group 4 ichannel (bit_and group gcursor >>> (igroup * 2))
    ++ get_from igroup (gcursor / 4) (ichannel + 4) group

pub get_ref : ℕ → List (ℕ × ℕ)
get_ref group = get_from 8 0xc000 0 group
