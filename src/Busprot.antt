-- ===== src/Busprot.antt =====
-- The bus protocol's words: the macros and codes of project/BASE/DTACQ/SRC/include/acq32busprot.h,
-- and `enum STATE` and `enum MODE` of project/BASE/DTACQ/SRC/dt100/include/dt100api.h.
pub mod Ci
pub mod Mode
pub mod Fields
pub mod Masking
use acq200_firmware.Prelude.{
  ℕ, ◌-◌, ◌^◌, ◌*◌, ◌/◌, ◌%◌, Bool, bit_and, bit_or, bit_not, u32, ◌<<<◌, ◌>>>◌, ◌!=◌,
}

-- The four mailboxes: BP_MB_COMMAND, BP_MB_A3, BP_MB_A4 and BP_MB_STATUS.
pub record Mailbox : Type 0 where
  pub command : ℕ
  pub a3 : ℕ
  pub a4 : ℕ
  pub status : ℕ

-- `word & bits`, as C reads a test of it.
abbrev pub has : ℕ → ℕ → Bool
has word bits = bit_and word bits != 0

-- The fields of a command word.
abbrev pub get_funcode : ℕ → ℕ
get_funcode command = bit_and (command >>> 16) 0xff

abbrev pub set_funcode : ℕ → ℕ
set_funcode funcode = u32 (funcode <<< 16)

abbrev pub get_a1 : ℕ → ℕ
get_a1 command = bit_and (command >>> 8) 0xff

abbrev pub set_a1 : ℕ → ℕ
set_a1 a1 = u32 (a1 <<< 8)

abbrev pub get_a2 : ℕ → ℕ
get_a2 command = bit_and command 0xff

abbrev pub set_a2 : ℕ → ℕ
set_a2 a2 = a2

-- The fields of a status word.
abbrev pub get_mode : ℕ → ℕ
get_mode status = bit_and (status >>> 24) 0x7f

abbrev pub set_mode : ℕ → ℕ
set_mode mode = u32 (mode <<< 24)

abbrev pub get_error : ℕ → Bool
get_error status = has status 0x80000000

abbrev pub get_state : ℕ → ℕ
get_state status = bit_and (status >>> 16) 0xff

abbrev pub set_state : ℕ → ℕ
set_state state = u32 (state <<< 16)

abbrev pub get_cycle : ℕ → ℕ
get_cycle status = bit_and (status >>> 12) 0xf

abbrev pub set_cycle : ℕ → ℕ
set_cycle cycle = u32 (cycle <<< 12)

abbrev pub get_heartbeat : ℕ → ℕ
get_heartbeat status = bit_and status 0x0fff

abbrev pub set_heartbeat : ℕ → ℕ
set_heartbeat msecs = bit_and msecs 0x0fff

-- `word & ~field`
abbrev pub clear : ℕ → ℕ → ℕ
clear word field = bit_and word (bit_not field)

-- Bits of the interrupt mask.
abbrev pub int_command_ack : ℕ
int_command_ack = 1

abbrev pub int_status_change : ℕ
int_status_change = 2

pub data State : Type 0 where
  stop arm run trigger postprocess capdone unknown : State

-- ST_UNKNOWN is -1.
abbrev pub state_code : State → ℕ
state_code State.stop = 0
state_code State.arm = 1
state_code State.run = 2
state_code State.trigger = 3
state_code State.postprocess = 4
state_code State.capdone = 5
state_code State.unknown = 0xffffffff
