-- ===== src/Wavcmd/Reference.antt =====
-- setRef sets what getRef shows.
use acq200_firmware.Prelude.{
  ℕ, zero, suc, ◌+◌, ◌-◌, ◌*◌, ◌/◌, ◌%◌, ◌^◌, ◌<◌, ◌≤◌, ◌≡◌, refl, ap, ◌∙◌, arith, Bool, true,
  false, List, [], ◌∷◌, map, bit_and, bit_or, bit_not, u32, ◌<<<◌, bit_and-div, bit_and_mask,
  pow_pos, ◌==◌, ==_iff, if◌then◌else◌, every_below, every_below_lem, Bool-cases, inl, inr,
}
use native.Mathlib.Nat.{mul-div_cancel}
use acq200_firmware.Busprot.Fields.{field}
use acq200_firmware.Busprot.Masking.{field_kept, field_cleared, field_beside, field_filled}
use acq200_firmware.Wavcmd.{
  set_one, set_from, do_set_ref, all_channels, print_group, get_from, get_ref,
}

-- The selection of a group.
abbrev pub selection : ℕ → ℕ → ℕ
selection igroup s_ref = field (igroup * 2) 2 s_ref

-- The mask and the value that doSetRef makes for group `g`, in the bits of group `h`.
abbrev mask_in : ℕ → ℕ → ℕ
mask_in g h = selection h (bit_not (u32 (3 <<< (g * 2))))

abbrev value_in : ℕ → ℕ → ℕ → ℕ
value_in vsel g h = selection h (u32 (vsel <<< (g * 2)))

mask_table : (g h : ℕ) → g < 8 → h < 8 → mask_in g h ≡ (if g == h then 0 else 3)
mask_table g h p q = (==_iff (mask_in g h) (if g == h then 0 else 3)).0 (
    every_below_lem (λ i. mask_in g i == (if g == i then 0 else 3)) 8 h
      (every_below_lem (λ k. every_below (λ i. mask_in k i == (if k == i then 0 else 3)) 8) 8 g refl
        p)
      q)

value_table :
    (vsel g h : ℕ) → vsel < 4 → g < 8 → h < 8 → value_in vsel g h ≡ (if g == h then vsel else 0)
value_table vsel g h small p q = (==_iff (value_in vsel g h) (if g == h then vsel else 0)).0 (
    every_below_lem (λ i. value_in vsel g i == (if g == i then vsel else 0)) 8 h
      (every_below_lem (λ k. every_below (λ i. value_in vsel k i == (if k == i then vsel else 0)) 8)
        8 g
        (every_below_lem
          (λ v.
            every_below (λ k. every_below (λ i. value_in v k i == (if k == i then v else 0)) 8) 8)
          4 vsel refl small)
        p)
      q)

-- A group's selection once doSetRef has set that of group `g`.
group_set :
    (vsel g h s_ref : ℕ)
    → vsel < 4
    → g < 8
    → h < 8
    → selection h (bit_or (bit_and s_ref (bit_not (u32 (3 <<< (g * 2))))) (u32 (vsel <<< (g * 2))))
      ≡ (if g == h then vsel else selection h s_ref)
group_set vsel g h s_ref small p q =
    let mask = mask_table g h p q in
    let value = value_table vsel g h small p q in
    elim (Bool-cases (g == h)) [
      | inl same ↦ rw same (
          field_filled (h * 2) 2 _ _
            (field_cleared (h * 2) 2 s_ref _ (mask ∙ ap (λ b. if b then 0 else 3) same))
          ∙ value
          ∙ ap (λ b. if b then vsel else 0) same)
      | inr other ↦ rw other (
          field_beside (h * 2) 2 _ _ (value ∙ ap (λ b. if b then vsel else 0) other)
          ∙ field_kept (h * 2) 2 s_ref _ (mask ∙ ap (λ b. if b then 0 else 3) other))
    ]

-- The lines of getRef for the selections `sel` of the groups.
abbrev channels : List ℕ
channels =
    1 ∷ 2 ∷ 3 ∷ 4 ∷ 5 ∷ 6 ∷ 7 ∷ 8 ∷ 9 ∷ 10 ∷ 11 ∷ 12 ∷ 13 ∷ 14 ∷ 15 ∷ 16 ∷ 17 ∷ 18 ∷ 19 ∷ 20 ∷ 21
    ∷ 22 ∷ 23 ∷ 24 ∷ 25 ∷ 26 ∷ 27 ∷ 28 ∷ 29 ∷ 30 ∷ 31 ∷ 32 ∷ []

abbrev pub group_of : ℕ → ℕ
group_of channel = (32 - channel) / 4

abbrev pub lines : (ℕ → ℕ) → List (ℕ × ℕ)
lines sel = map (λ c. (c, sel (group_of c))) channels

shifted : (k s_ref : ℕ) → bit_and s_ref (3 * 2 ^ k) / 2 ^ k ≡ field k 2 s_ref
shifted k s_ref =
    bit_and-div k s_ref (3 * 2 ^ k)
    ∙ ap (bit_and (s_ref / 2 ^ k)) (mul-div_cancel 3 (pow_pos k))
    ∙ bit_and_mask 2 (s_ref / 2 ^ k)

get_ref-lines : (s_ref : ℕ) → get_ref s_ref ≡ lines (λ g. selection g s_ref)
unfolding get_ref get_from print_group
get_ref-lines s_ref = λ i. lines (λ g. shifted (g * 2) s_ref i)

selection-set_one :
    (channel vsel h s_ref : ℕ)
    → vsel < 4
    → 1 ≤ channel
    → h < 8
    → selection h (set_one channel vsel s_ref)
      ≡ (if group_of channel == h then vsel else selection h s_ref)
unfolding set_one
selection-set_one channel vsel h s_ref small first q =
    group_set vsel (group_of channel) h s_ref small (omega arith) q

-- Once a group has `vsel` it keeps it while doSetRef goes on with `vsel`.
selection_kept :
    (left ch vsel h s_ref : ℕ)
    → vsel < 4
    → 1 ≤ ch
    → h < 8
    → selection h s_ref ≡ vsel
    → selection h (set_from left ch vsel s_ref) ≡ vsel
unfolding set_from
selection_kept zero ch vsel h s_ref small first q has = has
selection_kept (suc left) ch vsel h s_ref small first q has =
    selection_kept left (ch + 1) vsel h (set_one ch vsel s_ref) small (omega arith) q
      (selection-set_one ch vsel h s_ref small first q ∙ same (group_of ch == h))
  where
    same : (b : Bool) → (if b then vsel else selection h s_ref) ≡ vsel
    same true = refl
    same false = has

selection_reached :
    (left ch vsel h s_ref c : ℕ)
    → vsel < 4
    → 1 ≤ ch
    → h < 8
    → ch ≤ c
    → c < ch + left
    → group_of c ≡ h
    → selection h (set_from left ch vsel s_ref) ≡ vsel
unfolding set_from
selection_reached zero ch vsel h s_ref c small first q from below is = absurd (omega arith)
selection_reached (suc left) ch vsel h s_ref c small first q from below is =
    elim (Bool-cases (ch == c)) [
      | inl here ↦
          selection_kept left (ch + 1) vsel h (set_one ch vsel s_ref) small (omega arith) q (
            selection-set_one ch vsel h s_ref small first q
            ∙ ap (λ b. if b then vsel else selection h s_ref)
                (==_self (group_of ch) h (ap group_of ((==_iff ch c).0 here) ∙ is)))
      | inr later ↦
          selection_reached left (ch + 1) vsel h (set_one ch vsel s_ref) c small (omega arith) q
            (after ch c from later) (omega arith) is
    ]
  where
    ==_self : (a b : ℕ) → a ≡ b → (a == b) ≡ true
    ==_self a b = (==_iff a b).1

    after : (a b : ℕ) → a ≤ b → (a == b) ≡ false → a + 1 ≤ b
    after a b = ground arith

-- The lines for two selections are the same if these agree on the eight groups.
lines_agree : (f g : ℕ → ℕ) → ((h : ℕ) → h < 8 → f h ≡ g h) → lines f ≡ lines g
lines_agree f g agree = λ i. lines (λ h. agree (h % 8) (omega arith) i)

-- getRef lists each of the 32 channels with the selection of its group. After doSetRef of a channel
-- to a selection, it lists that selection for the four channels of the channel's group, and the
-- selections that the others had before.
pub get_ref-do_set_ref :
    (channel vsel s_ref : ℕ)
    → 1 ≤ channel
    → channel ≤ 32
    → vsel < 4
    → (get_ref s_ref ≡ lines (λ g. selection g s_ref))
      × (get_ref (do_set_ref channel vsel s_ref)
          ≡ lines (λ g. if group_of channel == g then vsel else selection g s_ref))
unfolding do_set_ref
get_ref-do_set_ref channel vsel s_ref first last small = (
  get_ref-lines s_ref,
  ap (λ b. get_ref (if b then set_from 32 1 vsel s_ref else set_one channel vsel s_ref))
        (not_all channel last)
      ∙ get_ref-lines (set_one channel vsel s_ref)
      ∙ lines_agree (λ g. selection g (set_one channel vsel s_ref))
          (λ g. if group_of channel == g then vsel else selection g s_ref)
          (λ h q. selection-set_one channel vsel h s_ref small first q),
)
  where
    not_all : (c : ℕ) → c ≤ 32 → (c == all_channels) ≡ false
    not_all c h = ground arith

-- After doSetRef of all channels, getRef lists that selection for each of them.
pub get_ref-do_set_ref_all :
    (vsel s_ref : ℕ) → vsel < 4 → get_ref (do_set_ref all_channels vsel s_ref) ≡ lines (λ g. vsel)
unfolding do_set_ref
get_ref-do_set_ref_all vsel s_ref small =
    get_ref-lines (set_from 32 1 vsel s_ref)
    ∙ lines_agree (λ g. selection g (set_from 32 1 vsel s_ref)) (λ g. vsel)
        λ h q.
          selection_reached 32 1 vsel h s_ref (32 - 4 * h) small (omega arith) q (omega arith)
            (omega arith) (omega arith)
