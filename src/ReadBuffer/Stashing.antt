-- ===== src/ReadBuffer/Stashing.antt =====
-- acq32_path_readbuffer_stash: a path's buffer is drained into the device's.
use acq200_firmware.Prelude.{
  ℕ, zero, suc, ◌+◌, ◌-◌, ◌<◌, ◌≤◌, ◌≡◌, ap, ◌∙◌, sym, true, false, Bool-cases, inl, inr, [], ◌∷◌,
  ◌++◌, append-nil, append_assoc, arith, length, take, drop,
}
use acq200_firmware.ReadBuffer.{
  ReadBuffer, Stash, copied, device_full, is_empty, is_full, put, get, stash_from, stash,
}
use acq200_firmware.ReadBuffer.Window.{
  IsValid, capacity, size, room, contents, empty_size, not_empty_size, not_empty_of_size,
  is_full_of_room, full_room, not_full_room, put-IsValid, size-put, contents-put, get-IsValid,
  size-get, contents-get, length-window,
}

-- All of the path's bytes went over, and `n` were counted.
record Drained (prb mrb : ReadBuffer) (n : ℕ) (out : Stash) : Type 0 where
  path : ReadBuffer
  device : ReadBuffer
  returns : out ≡ copied n path device
  emptied : contents path ≡ []
  appended : contents device ≡ contents mrb ++ contents prb
  path_valid : IsValid path
  device_valid : IsValid device

-- The device filled up.
record Overran (prb mrb : ReadBuffer) (out : Stash) : Type 0 where
  path : ReadBuffer
  device : ReadBuffer
  returns : out ≡ device_full path device
  kept : contents path ≡ drop (suc (room mrb)) (contents prb)
  appended : contents device ≡ contents mrb ++ take (room mrb) (contents prb)
  path_valid : IsValid path
  device_valid : IsValid device

module _ (fuel : ℕ) (prb mrb : ReadBuffer) (n : ℕ) where
  stash_from_done : is_empty prb ≡ true → stash_from (suc fuel) prb mrb n ≡ copied n prb mrb
  unfolding stash_from
  stash_from_done e = rw (e, stash_from)

  stash_from_full :
      is_empty prb ≡ false
      → is_full mrb ≡ true
      → stash_from (suc fuel) prb mrb n ≡ device_full (get prb).1 mrb
  unfolding stash_from
  stash_from_full e f = rw (e, stash_from) (rw f)

  stash_from_next :
      is_empty prb ≡ false
      → is_full mrb ≡ false
      → stash_from (suc fuel) prb mrb n ≡ stash_from fuel (get prb).1 (put mrb (get prb).0) (n + 1)
  unfolding stash_from
  stash_from_next e f = rw (e, stash_from) (rw f)

module _ (prb mrb : ReadBuffer) (p : IsValid prb) (m : IsValid mrb) where
  abbrev achar : ℕ
  achar = (get prb).0

  -- One round in which a byte goes over.
  Drained-next :
      (n : ℕ) (out : Stash)
      → is_empty prb ≡ false
      → 0 < room mrb
      → Drained (get prb).1 (put mrb achar) (n + 1 + size (get prb).1) out
      → Drained prb mrb (n + size prb) out
  Drained-next n out e free rest =
      let some_left = not_empty_size prb p e in
      record {
        path = rest.path;
        device = rest.device;
        returns =
            rest.returns
            ∙ ap (λ k. copied k rest.path rest.device) (omega (arith, size-get prb p some_left));
        emptied = rest.emptied;
        appended =
            rw (rest.appended, contents-put mrb achar m free, contents-get prb p some_left)
              (append_assoc (contents mrb) (achar ∷ []) (contents (get prb).1));
        path_valid = rest.path_valid;
        device_valid = rest.device_valid;
      }

  Overran-next :
      (out : Stash)
      → is_empty prb ≡ false
      → 0 < room mrb
      → Overran (get prb).1 (put mrb achar) out
      → Overran prb mrb out
  Overran-next out e free rest =
      let some_left = not_empty_size prb p e in
      let less : room mrb ≡ suc (room (put mrb achar)) = omega (arith, size-put mrb achar m free) in
      record {
        path = rest.path;
        device = rest.device;
        returns = rest.returns;
        kept = rw (less, contents-get prb p some_left) rest.kept;
        appended =
            rw (less, rest.appended, contents-put mrb achar m free, contents-get prb p some_left)
              (append_assoc (contents mrb) (achar ∷ [])
                (take (room (put mrb achar)) (contents (get prb).1)));
        path_valid = rest.path_valid;
        device_valid = rest.device_valid;
      }

stash_from-Drained :
    (fuel : ℕ) (prb mrb : ReadBuffer) (n : ℕ)
    → size prb < fuel
    → size prb ≤ room mrb
    → IsValid prb
    → IsValid mrb
    → Drained prb mrb (n + size prb) (stash_from fuel prb mrb n)
stash_from-Drained zero prb mrb n h fits p m = absurd (omega arith)
stash_from-Drained (suc fuel) prb mrb n h fits p m = elim (Bool-cases (is_empty prb)) [
  | inl e ↦
      let none_left = empty_size prb p e in
      record {
        path = prb;
        device = mrb;
        returns = stash_from_done fuel prb mrb n e ∙ ap (λ k. copied k prb mrb) (omega arith);
        emptied = rw none_left;
        appended = rw (none_left, append-nil);
        path_valid = p;
        device_valid = m;
      }
  | inr e ↦
      let some_left = not_empty_size prb p e in
      let c = (get prb).0 in
      let free : 0 < room mrb = omega arith in
      let not_full = is_full_of_room mrb m free in
      let rest =
        stash_from-Drained fuel (get prb).1 (put mrb c) (n + 1)
          (omega (arith, size-get prb p some_left))
          (omega (arith, size-get prb p some_left, size-put mrb c m free)) (get-IsValid prb p)
          (put-IsValid mrb c m) in
      rw (stash_from_next fuel prb mrb n e not_full) (Drained-next prb mrb p m n _ e free rest)
]

stash_from-Overran :
    (fuel : ℕ) (prb mrb : ReadBuffer) (n : ℕ)
    → size prb < fuel
    → room mrb < size prb
    → IsValid prb
    → IsValid mrb
    → Overran prb mrb (stash_from fuel prb mrb n)
stash_from-Overran zero prb mrb n h over p m = absurd (omega arith)
stash_from-Overran (suc fuel) prb mrb n h over p m = elim (Bool-cases (is_full mrb)) [
  | inl f ↦
      let no_room = full_room mrb m f in
      let e = not_empty_of_size prb p (omega arith) in
      record {
        path = (get prb).1;
        device = mrb;
        returns = stash_from_full fuel prb mrb n e f;
        kept = rw (no_room, contents-get prb p (not_empty_size prb p e));
        appended = rw (no_room, append-nil);
        path_valid = get-IsValid prb p;
        device_valid = m;
      }
  | inr f ↦
      let free = not_full_room mrb m f in
      let e = not_empty_of_size prb p (omega arith) in
      let some_left = not_empty_size prb p e in
      let c = (get prb).0 in
      let rest =
        stash_from-Overran fuel (get prb).1 (put mrb c) (n + 1)
          (omega (arith, size-get prb p some_left))
          (omega (arith, size-get prb p some_left, size-put mrb c m free)) (get-IsValid prb p)
          (put-IsValid mrb c m) in
      rw (stash_from_next fuel prb mrb n e f) (Overran-next prb mrb p m _ e free rest)
]

-- If the device's buffer has room for all that the path's holds, the stash returns how many bytes
-- that is, leaves the path's buffer empty, and appends its bytes, in order, to the device's.
pub stash_fits :
    (prb mrb : ReadBuffer)
    → IsValid prb
    → IsValid mrb
    → length (contents prb) + length (contents mrb) ≤ capacity
    → (path : ReadBuffer) × (device : ReadBuffer) × (stash prb mrb
        ≡ copied (length (contents prb)) path device)
      × (contents path ≡ [])
      × (contents device ≡ contents mrb ++ contents prb)
unfolding stash
stash_fits prb mrb p m fits =
    let path_size = length-window prb.rbuffer prb.ibget (size prb) in
    let device_size = length-window mrb.rbuffer mrb.ibget (size mrb) in
    let all = stash_from-Drained 4097 prb mrb 0 (omega arith) (omega arith) p m in
    (
      all.path,
      all.device,
      all.returns ∙ ap (λ k. copied k all.path all.device) (omega arith),
      all.emptied,
      all.appended,
    )

-- If it has not, the stash returns -1 with the device's buffer full. Of the path's bytes as many
-- as fitted are appended, the next one is in neither buffer, and the rest stay.
pub stash_overruns :
    (prb mrb : ReadBuffer)
    → IsValid prb
    → IsValid mrb
    → capacity < length (contents prb) + length (contents mrb)
    → let fitted = capacity - length (contents mrb) in
      (path : ReadBuffer) × (device : ReadBuffer) × (stash prb mrb ≡ device_full path device)
      × (contents device ≡ contents mrb ++ take fitted (contents prb))
      × (contents path ≡ drop (suc fitted) (contents prb))
unfolding stash
stash_overruns prb mrb p m over =
    let path_size = length-window prb.rbuffer prb.ibget (size prb) in
    let device_size = length-window mrb.rbuffer mrb.ibget (size mrb) in
    let some_went = stash_from-Overran 4097 prb mrb 0 (omega arith) (omega arith) p m in
    (
      some_went.path,
      some_went.device,
      some_went.returns,
      some_went.appended
          ∙ ap (λ s. contents mrb ++ take (capacity - s) (contents prb)) (sym device_size),
      some_went.kept ∙ ap (λ s. drop (suc (capacity - s)) (contents prb)) (sym device_size),
    )
