-- ===== src/LlProtocol.antt =====
-- The low latency control host library: dt100/Linux/Apps/LOWLATENCY/llprotocol.c.
pub mod Clock
pub mod Enter
mod Tests
use acq200_firmware.Prelude.{
  ℕ, zero, suc, ◌+◌, ◌%◌, ◌^◌, Bool, true, false, ◌&&◌, Option, none, some, List, [], ◌∷◌, ◌++◌,
  bit_and, bit_or, bit_not, u32, ltb, ◌==◌, ◌!=◌, if◌then◌else◌,
}
use acq200_firmware.Busprot.{set_funcode, set_a1}
use acq200_firmware.Busprot.Ci
use acq200_firmware.Driver.Bus.{Box}

-- What is done to the slave's mailboxes: setMbox, pollAck, and pollMboxBits with a mask and a goal.
pub data Access : Type 0 where
  set_mbox : Box → ℕ → Access
  poll_ack : Access
  poll_bits : Box → ℕ → ℕ → Access

-- BP_FC_SET_MODE_LLC_* and BP_FC_SET_LLCV2_INIT
abbrev pub softclock : ℕ
softclock = 0x80

abbrev pub extclock : ℕ
extclock = 0x40

abbrev pub clkpol_pos : ℕ
clkpol_pos = 0x20

abbrev pub trpol_pos : ℕ
trpol_pos = 0x10

abbrev pub llcv2_init : ℕ
llcv2_init = 0x08

abbrev pub intsoft_clk : ℕ
intsoft_clk = 0x01

abbrev pub intdiv_clk : ℕ
intdiv_clk = 0x02

-- LLC_CSR_READY
abbrev pub csr_ready : ℕ
csr_ready = 0x10000000

-- The command word of enterLLC.
pub enter_command : ℕ → Bool → Bool → ℕ
enter_command mode clkpos trpos =
    let command = u32 (Ci.done + Ci.command + set_funcode b'L' + mode) in
    let clocked = if clkpos then bit_or command (set_a1 clkpol_pos) else command in
    if trpos then bit_or clocked (set_a1 trpol_pos) else clocked

pub enter_llc : ℕ → ℕ → Bool → Bool → List Access
enter_llc mode a3 clkpos trpos =
    set_mbox Box.a3 a3
    ∷ set_mbox Box.command (enter_command mode clkpos trpos)
    ∷ poll_ack
    ∷ poll_bits Box.command csr_ready csr_ready
    ∷ []

pub enter_llc_soft_clock : Bool → Bool → Bool → ℕ → List Access
enter_llc_soft_clock clkpos trpos internal_loopback command_mods =
    let command = bit_or softclock command_mods in
    let looped = if internal_loopback then u32 (command + intsoft_clk) else command in
    enter_llc (set_a1 looped) 0 clkpos trpos

pub enter_llc_ext_clock : Bool → Bool → ℕ → Bool → ℕ → List Access
enter_llc_ext_clock clkpos trpos divisor internal_loopback command_mods =
    let command = bit_or extclock command_mods in
    let looped = if internal_loopback then u32 (command + intdiv_clk) else command in
    enter_llc (set_a1 looped) divisor clkpos trpos

pub enter_llc_sync_ecm : Bool → Bool → ℕ → Bool → ℕ → ℕ → List Access
enter_llc_sync_ecm clkpos trpos divisor internal_loopback command_mods init_buf_baddr =
    set_mbox Box.a4 init_buf_baddr
    ∷ enter_llc_ext_clock clkpos trpos divisor internal_loopback (bit_or command_mods llcv2_init)

-- ACQ196_TCR_MASK
abbrev pub tcr_mask : ℕ
tcr_mask = 0xfff

-- llv2_extend32, with SERVICE_ROLLOVER
pub extend32 : ℕ → ℕ → ℕ
extend32 old32 new12 =
    let temp = bit_and new12 tcr_mask in
    let replaced = bit_or (bit_and old32 (bit_not tcr_mask)) temp in
    if ltb temp (bit_and old32 tcr_mask) then u32 (replaced + (tcr_mask + 1)) else replaced

-- LLCV2_POISON
abbrev pub poison : ℕ
poison = 0xf0000001

-- A wait on what a word shows at one poll after another: it ends with the number of polls, it
-- times out, or it is still polling.
pub data Wait : Type 0 where
  seen : ℕ → Wait
  timed_out polling : Wait

-- The loop of llWaitDmaDone, on the tlatch values that it reads.
pub wait_tlatch : ℕ → List ℕ → ℕ → Option (ℕ × ℕ)
wait_tlatch old_tlatch [] ipoll = none
wait_tlatch old_tlatch (tlatch ∷ rest) ipoll = elim (tlatch == old_tlatch) [
  | true ↦ wait_tlatch old_tlatch rest (ipoll + 1)
  | false ↦ some (tlatch, ipoll + 1)
]

-- The loop of llv2WaitDmaDone_2v on LLC_SYNC2V_IN_LAST.
pub wait_last : ℕ → List ℕ → ℕ → Wait
wait_last tlatch [] pollcat = polling
wait_last tlatch (last ∷ rest) pollcat =
    let polls = (pollcat + 1) % 2 ^ 32 in
    elim (last == poison) [
      | true ↦ elim ((tlatch != 0) && ltb 0x7fffffff polls) [
        | true ↦ timed_out
        | false ↦ wait_last tlatch rest polls
      ]
      | false ↦ seen pollcat
    ]

-- What llv2WaitDmaDone_2v returns once it has seen the status change: 0 on a timeout.
pub wait_dma_done_2v : ℕ → List ℕ → ℕ → Option ℕ
wait_dma_done_2v tlatch lasts status_tlatch = elim (wait_last tlatch lasts 0) [
  | seen pollcat ↦ some (extend32 tlatch status_tlatch)
  | timed_out ↦ some 0
  | polling ↦ none
]
