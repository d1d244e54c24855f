-- ===== src/Driver/Go.antt =====
-- acq32_GoAll of acq32_core.c, which arms the boards of a path, and its watchdog.
pub mod Busy
use acq200_firmware.Prelude.{
  ℕ, zero, suc, ◌+◌, ◌-◌, ◌/◌, ◌%◌, ◌^◌, Bool, true, false, ◌&&◌, Option, none, some, bit_and, ltb,
  ◌==◌, ◌!=◌, if◌then◌else◌,
}
use acq200_firmware.Busprot.{has, set_funcode}
use acq200_firmware.Driver.Bus.{Bus, Device, Error}
use acq200_firmware.Driver.Commands.{dev_get_status}
use acq200_firmware.Driver.Boards.{
  Board, Boards, put, on_board, on_device, send, set_arm_all, set_abort_all, block_till_stopped_all,
}

-- -EBUSY, or the error of a command
pub data GoError : Type 0 where
  busy : GoError
  failed : Error → GoError

-- CYCINC
pub cyc_inc : ℕ → ℕ
cyc_inc n = bit_and (n + 1) 0xf

-- The difference of two unsigned times.
abbrev pub elapsed : ℕ → ℕ → ℕ
elapsed now since = (now + 2 ^ 32 - since) % 2 ^ 32

-- A loop that ran, and what follows when it gave no error.
abbrev pub after_all :
    {L : Type 0}
    → Option (Option Error × Boards L)
    → (Boards L → Option (Option GoError × Boards L))
    → Option (Option GoError × Boards L)
after_all none next = none
after_all (some (some e, w)) next = some (some (failed e), w)
after_all (some (none, w)) next = next w

abbrev pub and_then :
    {L : Type 0}
    → Option (Option GoError × Boards L)
    → (Option GoError → Boards L → Option (Option GoError × Boards L))
    → Option (Option GoError × Boards L)
and_then none next = none
and_then (some (error, w)) next = next error w

module _ {L : Type 0} (bus : Bus L) where
  -- acq32_devGetCycle
  unfoldable pub dev_get_cycle : Board L → ℕ × Board L
  dev_get_cycle =
      on_device λ d. let (state, polled) = dev_get_status bus d in (polled.cycle, polled)

  -- set_arm_wdt, the watchdog's task, at the time `jiffies`; `hz` is the kernel's HZ.
  pub set_arm_wdt : ℕ → ℕ → Board L → Board L
  set_arm_wdt hz jiffies b =
      let run = record b { wdt_scheduled = false } in
      let (state, d) = dev_get_status bus b.device in
      let polled = record run { device = d } in
      let kicked = (send bus (set_funcode b'A') polled).1 in
      if ltb (hz / 10) (elapsed jiffies b.wdt_last_poll)
      then if d.error
        then record kicked { set_arm_busy = false }
        else if ltb hz (elapsed jiffies b.wdt_start)
        then record polled { set_arm_busy = false }
        else record polled { wdt_last_poll = jiffies; wdt_scheduled = true }
      else record run { wdt_scheduled = true }

  -- set_arm_wdt_launch
  pub set_arm_wdt_launch : ℕ → Board L → Board L
  set_arm_wdt_launch jiffies b = record b {
    wdt_start = jiffies;
    wdt_last_poll = jiffies;
    wdt_scheduled = true;
  }

  -- `own` is the board of path->device, `ticks` what block_till_stopped takes.
  module _ (ndevs minor own ticks : ℕ) where
    abbrev pub set_inhibit : Bool → Boards L → Boards L
    set_inhibit inhibit w = put own (record (w own) { cos_inhibit = inhibit }) w

    abbrev pub get_cycle : Boards L → ℕ × Boards L
    get_cycle w = let (cycle, b) = dev_get_cycle (w own) in (cycle, put own b w)

    -- The rounds of the retry loop that are left.
    pub go_rounds : ℕ → ℕ → ℕ → Boards L → Option (Option GoError × Boards L)
    go_rounds zero c0 c1 w = some (none, w)
    go_rounds (suc left) c0 c1 w = after_all (set_abort_all bus ndevs minor own w) λ aborted.
        after_all (block_till_stopped_all bus ndevs minor own ticks aborted) λ stopped.
          after_all (set_arm_all bus ndevs minor own (set_inhibit false stopped)) λ armed.
            let (c2, polled) = get_cycle armed in
            elim ((cyc_inc c0 == c1) && (cyc_inc c1 == c2)) [
              | true ↦ some (none, polled)
              | false ↦ go_rounds left c0 c1 polled
            ]

    -- What stands before the first arm: busy is set, the cycle is read.
    unfoldable pub go_begin : ℕ → Boards L → ℕ × Boards L
    go_begin double_tap w =
        let (c0, polled) = get_cycle (put own (record (w own) { set_arm_busy = true }) w) in
        (c0, if double_tap != 0 then set_inhibit true polled else polled)

    -- What stands behind the retry loop, with the error it ended with.
    pub go_end : ℕ → Bool → ℕ → Option GoError → Boards L → Option (Option GoError × Boards L)
    go_end double_tap is_blocking jiffies error w =
        let free = set_inhibit false w in
        let b = free own in
        let watched =
          put own
            (if has double_tap 2
              then set_arm_wdt_launch jiffies b
              else record b { set_arm_busy = false })
            free in
        if is_blocking
        then after_all (block_till_stopped_all bus ndevs minor own ticks watched)
            (λ stopped. some (none, stopped))
        else some (error, watched)

    -- acq32_GoAll, with the module parameter acq32_double_tap
    pub go_all : ℕ → Bool → ℕ → Boards L → Option (Option GoError × Boards L)
    go_all double_tap is_blocking jiffies w =
        if (w own).set_arm_busy
        then some (some busy, w)
        else let (c0, begun) = go_begin double_tap w in
          after_all (set_arm_all bus ndevs minor own begun) λ armed.
            let (c1, polled) = get_cycle armed in
            and_then (if has double_tap 1 then go_rounds 2 c0 c1 polled else some (none, polled))
              (go_end double_tap is_blocking jiffies)
