-- ===== src/Driver/Slaves/Selected.antt =====
-- The boards that a path's minor number selects, said without the iterator.
use native.Mathlib.Nat.{zero-div}
use acq200_firmware.Prelude.{
  ℕ, zero, suc, ◌-◌, ◌^◌, ◌≡◌, ◌≢◌, refl, ◌∙◌, true, false, Option, none, some, List, [], ◌∷◌, ◌++◌,
  arith, bit, ◌==◌, if◌then◌else◌,
}
use acq200_firmware.Driver.Slaves.{slaves_of, is_master_all}

-- The `left` boards from `i` on whose bit is set, without the board `own`, in rising order.
unfoldable pub selected : ℕ → ℕ → ℕ → ℕ → List ℕ
selected own mask zero i = []
selected own mask (suc left) i =
    let rest = selected own mask left (suc i) in
    if bit mask i == 0 then rest else if i == own then rest else i ∷ rest

-- The mask of all boards for a minor number with all bits, otherwise the minor number's bits.
unfoldable pub path_mask : ℕ → ℕ → ℕ
path_mask ndevs minor = if is_master_all minor then 2 ^ ndevs - 1 else slaves_of minor

-- Its own board comes last.
unfoldable pub visited : ℕ → ℕ → ℕ → List ℕ
visited ndevs minor own = selected own (path_mask ndevs minor) ndevs 0 ++ own ∷ []

abbrev pub unless_ended {ℓ ℓ'} :
    {R : Type ℓ} {W : Type ℓ'} → Option R × W → (W → Option R × W) → Option R × W
unless_ended (some stop, w) next = (some stop, w)
unless_ended (none, w) next = next w

-- An action on one board after the other, as long as it gives no result.
pub each_of {ℓ ℓ'} : {R : Type ℓ} {W : Type ℓ'} → (ℕ → W → Option R × W) → List ℕ → W → Option R × W
each_of act [] w = (none, w)
each_of act (board ∷ boards) w = unless_ended (act board w) (λ w'. each_of act boards w')

module _ (own mask left i : ℕ) where
  pub selected_clear :
      bit mask i ≡ 0 → selected own mask (suc left) i ≡ selected own mask left (suc i)
  unfolding selected
  selected_clear clear = rw clear refl

  pub selected_own :
      i ≡ own → bit mask i ≡ 1 → selected own mask (suc left) i ≡ selected own mask left (suc i)
  unfolding selected
  selected_own own_board set = let same : (i == own) ≡ true = ground arith in rw (set, same) refl

  pub selected_set :
      i ≢ own → bit mask i ≡ 1 → selected own mask (suc left) i ≡ i ∷ selected own mask left (suc i)
  unfolding selected
  selected_set other set = let differs : (i == own) ≡ false = ground arith in rw (set, differs) refl

pub selected_zero : (own left i : ℕ) → selected own 0 left i ≡ []
unfolding selected
selected_zero own zero i = refl
selected_zero own (suc left) i =
    selected_clear own 0 left i (omega (arith, zero-div (2 ^ i))) ∙ selected_zero own left (suc i)

pub selected-zero : (own mask i : ℕ) → selected own mask zero i ≡ []
unfolding selected
selected-zero own mask i = refl

module _ {ℓ ℓ'} {R : Type ℓ} {W : Type ℓ'} (act : ℕ → W → Option R × W) where
  pub each_of-nil : (w : W) → each_of act [] w ≡ (none, w)
  unfolding each_of
  each_of-nil w = refl

  pub each_of-cons :
      (board : ℕ) (boards : List ℕ) (w : W)
      → each_of act (board ∷ boards) w ≡ unless_ended (act board w) (each_of act boards)
  unfolding each_of
  each_of-cons board boards w = refl

module _ (ndevs minor : ℕ) where
  pub path_mask_all : is_master_all minor ≡ true → path_mask ndevs minor ≡ 2 ^ ndevs - 1
  unfolding path_mask
  path_mask_all all = rw all refl

  pub path_mask_some : is_master_all minor ≡ false → path_mask ndevs minor ≡ slaves_of minor
  unfolding path_mask
  path_mask_some some_only = rw some_only refl

pub visited_lem :
    (ndevs minor own : ℕ)
    → visited ndevs minor own ≡ selected own (path_mask ndevs minor) ndevs 0 ++ own ∷ []
unfolding visited
visited_lem ndevs minor own = refl
