-- ===== src/Channelize/Lookup.antt =====
-- The two channel tables of channelize.196.c are inverse to each other.
use acq200_firmware.Prelude.{
  ℕ, ◌+◌, ◌-◌, ◌*◌, ◌/◌, ◌%◌, ◌<◌, ◌≤◌, ◌≡◌, refl, sym, ap, ◌∙◌, arith, Bool, true, ◌&&◌, get_or,
  leb, ◌==◌, every_below_lem, List,
}
use acq200_firmware.Channelize.{plut, llut, lookup_pchan, lookup_lchan}

-- The entries of `there` from 1 to 32 are within 1 and 32, and `back` takes them back.
abbrev entry_ok : List ℕ → List ℕ → ℕ → Bool
entry_ok there back r =
    leb 1 (get_or there (r + 1) 0)
    && (leb (get_or there (r + 1) 0) 32 && (get_or back (get_or there (r + 1) 0) 0 == r + 1))

record EntryOk (there back : List ℕ) (i : ℕ) : Type 0 where
  at_least : 1 ≤ get_or there i 0
  at_most : get_or there i 0 ≤ 32
  returns : get_or back (get_or there i 0) 0 ≡ i

entry_of : (i e b : ℕ) → (leb 1 e && (leb e 32 && (b == i))) ≡ true → (1 ≤ e) × (e ≤ 32) × (b ≡ i)
entry_of i e b h = (ground arith, ground arith, ground arith)

plut_ok : (r : ℕ) → r < 32 → entry_ok plut llut r ≡ true
plut_ok r h = every_below_lem (entry_ok plut llut) 32 r refl h

llut_ok : (r : ℕ) → r < 32 → entry_ok llut plut r ≡ true
llut_ok r h = every_below_lem (entry_ok llut plut) 32 r refl h

lookup_pchan_at : (b i : ℕ) → 1 ≤ i → i ≤ 32 → lookup_pchan (b * 32 + i) ≡ b * 32 + get_or plut i 0
unfolding lookup_pchan
lookup_pchan_at b i low high =
    let block : (b * 32 + i - 1) / 32 ≡ b = omega arith in
    let index : b * 32 + i - b * 32 ≡ i = omega arith in rw (block, index) refl

lookup_lchan_at : (b i : ℕ) → 1 ≤ i → i ≤ 32 → lookup_lchan (b * 32 + i) ≡ b * 32 + get_or llut i 0
unfolding lookup_lchan
lookup_lchan_at b i low high =
    let block : (b * 32 + i - 1) / 32 ≡ b = omega arith in
    let index : b * 32 + i - b * 32 ≡ i = omega arith in rw (block, index) refl

-- The round trips of one block.
pchan_of_lchan_in :
    (b r : ℕ) → r < 32 → lookup_pchan (lookup_lchan (b * 32 + (r + 1))) ≡ b * 32 + (r + 1)
pchan_of_lchan_in b r h =
    let entry =
      entry_of (r + 1) (get_or llut (r + 1) 0) (get_or plut (get_or llut (r + 1) 0) 0)
        (llut_ok r h) in
    ap lookup_pchan (lookup_lchan_at b (r + 1) (omega arith) (omega arith))
    ∙ lookup_pchan_at b (get_or llut (r + 1) 0) entry.0 entry.1
    ∙ ap (λ e. b * 32 + e) entry.2

lchan_of_pchan_in :
    (b r : ℕ) → r < 32 → lookup_lchan (lookup_pchan (b * 32 + (r + 1))) ≡ b * 32 + (r + 1)
lchan_of_pchan_in b r h =
    let entry =
      entry_of (r + 1) (get_or plut (r + 1) 0) (get_or llut (get_or plut (r + 1) 0) 0)
        (plut_ok r h) in
    ap lookup_lchan (lookup_pchan_at b (r + 1) (omega arith) (omega arith))
    ∙ lookup_lchan_at b (get_or plut (r + 1) 0) entry.0 entry.1
    ∙ ap (λ e. b * 32 + e) entry.2

-- For every channel from 1 on, of any number of blocks of 32, the logical channel of its physical
-- channel is it again, and the physical channel of its logical channel.
pub lookup_lchan-lookup_pchan :
    (channel : ℕ)
    → 1 ≤ channel
    → (lookup_lchan (lookup_pchan channel) ≡ channel)
      × (lookup_pchan (lookup_lchan channel) ≡ channel)
lookup_lchan-lookup_pchan channel low =
    let b = (channel - 1) / 32 in
    let r = (channel - 1) % 32 in
    let parts : b * 32 + (r + 1) ≡ channel = omega arith in
    (
      ap (λ c. lookup_lchan (lookup_pchan c)) (sym parts)
          ∙ lchan_of_pchan_in b r (omega arith)
          ∙ parts,
      ap (λ c. lookup_pchan (lookup_lchan c)) (sym parts)
          ∙ pchan_of_lchan_in b r (omega arith)
          ∙ parts,
    )

-- A physical channel's logical channel is within its block.
pub lookup_lchan_bounds :
    (channel : ℕ)
    → 1 ≤ channel
    → ((channel - 1) / 32 * 32 < lookup_lchan channel)
      × (lookup_lchan channel ≤ (channel - 1) / 32 * 32 + 32)
lookup_lchan_bounds channel low =
    let b = (channel - 1) / 32 in
    let r = (channel - 1) % 32 in
    let parts : b * 32 + (r + 1) ≡ channel = omega arith in
    let at = ap lookup_lchan (sym parts) ∙ lookup_lchan_at b (r + 1) (omega arith) (omega arith) in
    let small : r < 32 = omega arith in
    let entry =
      entry_of (r + 1) (get_or llut (r + 1) 0) (get_or plut (get_or llut (r + 1) 0) 0)
        (llut_ok r small) in
    (omega (arith, at, entry.0), omega (arith, at, entry.1))
