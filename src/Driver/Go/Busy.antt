-- ===== src/Driver/Go/Busy.antt =====
-- A failed arm of acq32_GoAll.
use mathlib.Core.Option.{some-injective}
use mathlib.Core.Path.{subst}
use acq200_firmware.Prelude.{
  ℕ, ◌≤◌, ◌≡◌, refl, sym, ◌∙◌, Bool, Bool-cases, true, false, inl, inr, Option, none, some, ◌==◌,
  ◌!=◌, arith,
}
use acq200_firmware.Driver.Bus.{Bus, Error}
use acq200_firmware.Driver.Slaves.Steps.{max_boards}
use acq200_firmware.Driver.Slaves.Selected.{visited, each_of}
use acq200_firmware.Driver.Slaves.Visits.{each_slave-visited}
use acq200_firmware.Driver.Boards.{
  Board, Boards, put, on_board, on_success, validate_bigbuf, set_arm_of, set_arm_all,
}
use acq200_firmware.Driver.Boards.Only.{each_of-inv}
use acq200_firmware.Driver.Go.{dev_get_cycle, busy, failed, go_begin, go_all}

abbrev IsBusy : {L : Type 0} → Board L → Type 0
IsBusy b = b.set_arm_busy ≡ true

validate_bigbuf-IsBusy :
    {L : Type 0} (result : Option Error × Board L)
    → IsBusy result.1
    → IsBusy (on_success (validate_bigbuf 0) result).1
unfolding validate_bigbuf
validate_bigbuf-IsBusy (none, b) h = h
validate_bigbuf-IsBusy (some e, b) h = h

module _ {L : Type 0} (bus : Bus L) where
  set_arm_of-IsBusy : (b : Board L) → IsBusy b → IsBusy (set_arm_of bus b).1
  unfolding set_arm_of
  set_arm_of-IsBusy b h = validate_bigbuf-IsBusy _ h

  module _ (ndevs minor own ticks : ℕ) where
    go_begin-IsBusy :
        (double_tap : ℕ) (w : Boards L)
        → IsBusy ((go_begin bus ndevs minor own ticks double_tap w).1 own)
    unfolding go_begin dev_get_cycle put
    go_begin-IsBusy double_tap w =
        let same : (own == own) ≡ true = ground arith in
        elim (Bool-cases (double_tap != 0)) [
          | inl tapped ↦ rw (tapped, same) refl
          | inr not_tapped ↦ rw (not_tapped, same) refl
        ]

    set_arm_all-IsBusy :
        (w w' : Boards L) (e : Option Error)
        → ndevs ≤ max_boards
        → set_arm_all bus ndevs minor own w ≡ some (e, w')
        → IsBusy (w own)
        → IsBusy (w' own)
    unfolding set_arm_all
    set_arm_all-IsBusy w w' e few ran held =
        let boards = visited ndevs minor own in
        let arm = on_board (set_arm_of bus) in
        let result : each_of arm boards w ≡ (e, w') =
          some-injective _ _ (sym (each_slave-visited ndevs minor own arm few w) ∙ ran) in
        subst (λ r. IsBusy (r.1 own)) result
          (each_of-inv (set_arm_of bus) IsBusy set_arm_of-IsBusy boards w own held)

    -- On a path of at most 8 boards that is not busy, when the arm of a board fails, acq32_GoAll
    -- returns that error and leaves the path's board busy: every later acq32_GoAll on what it leaves
    -- returns -EBUSY and changes nothing, whatever its module parameter, mode and time.
    pub go_all-busy :
        (double_tap double_tap' : ℕ) (is_blocking is_blocking' : Bool) (jiffies jiffies' : ℕ)
        (w w' : Boards L) (e : Error)
        → ndevs ≤ max_boards
        → (w own).set_arm_busy ≡ false
        → set_arm_all bus ndevs minor own (go_begin bus ndevs minor own ticks double_tap w).1
          ≡ some (some e, w')
        → (go_all bus ndevs minor own ticks double_tap is_blocking jiffies w
            ≡ some (some (failed e), w'))
          × (go_all bus ndevs minor own ticks double_tap' is_blocking' jiffies' w'
              ≡ some (some busy, w'))
    unfolding go_all
    go_all-busy double_tap double_tap' is_blocking is_blocking' jiffies jiffies' w w' e few idle
          fails =
        let begun = (go_begin bus ndevs minor own ticks double_tap w).1 in
        let still : IsBusy (w' own) =
          set_arm_all-IsBusy begun w' (some e) few fails (go_begin-IsBusy double_tap w) in
        (rw idle (rw fails refl), rw still refl)
