-- ===== src/Command/Write/Total.antt =====
-- A write always returns: the bucket stops the loop over the decoders, and each line that has an
-- argument is shorter than the text before it.
use mathlib.Core.Path.{subst}
use acq200_firmware.Prelude.{
  ℕ, zero, suc, ◌+◌, ◌<◌, ◌≤◌, ◌≡◌, ◌⊎◌, refl, ap, sym, ◌∙◌, min, true, false, List, [], ◌∷◌, ◌++◌,
  length, take, ltb, Bool-cases, inl, inr, arith,
}
use acq200_firmware.Command.Text.{Str, text}
use acq200_firmware.Command.Types.{Acq32Path, Decoder, str, reply}
use acq200_firmware.Command.Args.{getargs}
use acq200_firmware.Command.Args.Progress.{getargs_within, getargs_shrinks}
use acq200_firmware.Command.Write.{
  do_bucket, Decoding, taken, run_decoders, Written, written, assertion_failed, out_of_fuel,
  write_from, write_command,
}

List-cases {ℓ} :
    {A : Type ℓ} (xs : List A) → (xs ≡ []) ⊎ ((y : A) × ((ys : List A) × (xs ≡ y ∷ ys)))
List-cases [] = inl refl
List-cases (y ∷ ys) = inr (y, (ys, refl))

bucket_takes :
    (argv : List Str) (iarg : ℕ) (p : Acq32Path) → (do_bucket argv iarg p).0 ≡ length argv
unfolding do_bucket
bucket_takes argv iarg p = ground arith

-- A decoder's result, as the loop reads it
abbrev after : List Decoder → List Str → ℕ × Acq32Path → Decoding
after decoders argv r = run_decoders decoders argv r.0 r.1

pub run_done :
    (decoders : List Decoder) (argv : List Str) (iarg : ℕ) (p : Acq32Path)
    → ltb iarg (length argv) ≡ false
    → run_decoders decoders argv iarg p ≡ taken p
unfolding run_decoders
run_done [] argv iarg p e = rw e refl
run_done (decoder ∷ decoders) argv iarg p e = rw (e, run_decoders) refl

pub run_step :
    (decoder : Decoder) (decoders : List Decoder) (argv : List Str) (iarg : ℕ) (p : Acq32Path)
    → ltb iarg (length argv) ≡ true
    → run_decoders (decoder ∷ decoders) argv iarg p ≡ after decoders argv (decoder argv iarg p)
unfolding run_decoders
run_step decoder decoders argv iarg p e = rw (e, run_decoders) refl

pub not_below : (n : ℕ) → ltb n n ≡ false
not_below n = ground arith

-- A table that ends with the bucket
pub run_total :
    (decoders : List Decoder) (argv : List Str) (iarg : ℕ) (p : Acq32Path)
    → (q : Acq32Path) × (run_decoders (decoders ++ do_bucket ∷ []) argv iarg p ≡ taken q)
run_total [] argv iarg p = elim (Bool-cases (ltb iarg (length argv))) [
  | inr e ↦ (p, run_done (do_bucket ∷ []) argv iarg p e)
  | inl e ↦ (
    (do_bucket argv iarg p).1,
    run_step do_bucket [] argv iarg p e
        ∙ run_done [] argv (do_bucket argv iarg p).0 (do_bucket argv iarg p).1
            (ap (λ n. ltb n (length argv)) (bucket_takes argv iarg p) ∙ not_below (length argv)),
  )
]
run_total (decoder ∷ decoders) argv iarg p = elim (Bool-cases (ltb iarg (length argv))) [
  | inr e ↦ (p, run_done (decoder ∷ decoders ++ do_bucket ∷ []) argv iarg p e)
  | inl e ↦
      let (q, rest) = run_total decoders argv (decoder argv iarg p).0 (decoder argv iarg p).1 in
      (q, run_step decoder (decoders ++ do_bucket ∷ []) argv iarg p e ∙ rest)
]

-- The write returns a count that is at most `bound`.
abbrev pub Returns : ℕ → Written → Type 0
Returns bound (written n q) = n ≤ bound
Returns bound (assertion_failed q) = ⊥
Returns bound (out_of_fuel q) = ⊥

-- The rounds of the loop, by what getargs and the decoders give
abbrev pub ack : Acq32Path → Acq32Path
ack p = reply (str (text "ACQ32:") ∷ []) p

pub write_ends :
    (fuel : ℕ) (decoders : List Decoder) (next : Str) (offset : ℕ) (p : Acq32Path)
    → (getargs next).argv ≡ []
    → write_from (suc fuel) decoders next offset p ≡ written (offset + (getargs next).moved) p
unfolding write_from
write_ends fuel decoders next offset p e = rw (e, write_from) refl

pub write_goes_on :
    (fuel : ℕ) (decoders : List Decoder) (next : Str) (offset : ℕ) (p : Acq32Path) (verb : Str)
    (args : List Str) (q : Acq32Path)
    → (getargs next).argv ≡ verb ∷ args
    → run_decoders decoders (getargs next).argv 0 (ack p) ≡ taken q
    → write_from (suc fuel) decoders next offset p
      ≡ write_from fuel decoders
          (getargs next).next
          (offset + (getargs next).moved)
          (reply (str (text "\n") ∷ []) q)
unfolding write_from
write_goes_on fuel decoders next offset p verb args q e f = rw (e, write_from) (rw f refl)

write_from-Returns :
    (fuel : ℕ) (decoders : List Decoder) (next : Str) (offset bound : ℕ) (p : Acq32Path)
    → length next < fuel
    → offset + length next ≤ bound
    → Returns bound (write_from fuel (decoders ++ do_bucket ∷ []) next offset p)
write_from-Returns zero decoders next offset bound p h k = absurd (omega arith)
write_from-Returns (suc fuel) decoders next offset bound p h k =
    let table = decoders ++ do_bucket ∷ [] in
    elim (List-cases (getargs next).argv) [
      | inl e ↦
          subst (Returns bound) (sym (write_ends fuel table next offset p e))
            (omega (arith, k, getargs_within next))
      | inr (verb, (args, e)) ↦
          let (q, f) = run_total decoders (getargs next).argv 0 (ack p) in
          subst (Returns bound) (sym (write_goes_on fuel table next offset p verb args q e f)) (
            write_from-Returns fuel decoders (getargs next).next (offset + (getargs next).moved)
              bound (reply (str (text "\n") ∷ []) q)
              (omega (arith, h, getargs_shrinks next verb args e))
              (omega (arith, k, getargs_within next)))
    ]

length-take : (n : ℕ) (s : Str) → length (take n s) ≡ min n (length s)
length-take zero s = omega arith
length-take (suc n) [] = omega arith
length-take (suc n) (c ∷ s) = omega (arith, length-take n s)

pub write_command-Returns :
    (decoders : List Decoder) (buf : Str) (p : Acq32Path)
    → Returns (min 255 (length buf)) (write_command (decoders ++ do_bucket ∷ []) buf p)
unfolding write_command
write_command-Returns decoders buf p =
    write_from-Returns (length (take 255 buf) + 1) decoders (take 255 buf) 0 (min 255 (length buf))
      p (omega arith) (omega (arith, length-take 255 buf))
