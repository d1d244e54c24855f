-- ===== src/ReadBuffer/Transfer.antt =====
-- readbuffer_put and readbuffer_get against a queue of at most READBUFFERLEN - 1 bytes.
use acq200_firmware.Prelude.{
  ℕ, zero, suc, ◌+◌, ◌-◌, ◌<◌, ◌≡◌, refl, ap, Bool-cases, inl, inr, List, [], ◌∷◌, ◌++◌, append-nil,
  append_assoc, arith, min, length, take, drop, take-nil, take-min,
}
use acq200_firmware.ReadBuffer.{
  ReadBuffer, is_empty, is_full, put, get, put_from, readbuffer_put, readbuffer_get,
}
use acq200_firmware.ReadBuffer.Window.{
  IsValid, capacity, size, room, contents, empty_size, not_empty_size, full_room, not_full_room,
  put-IsValid, size-put, contents-put, get-IsValid, contents-get, length-window,
}

-- What the loop of readbuffer_put has done when it stops, started with `ibyte` bytes stored.
record Stored (rb : ReadBuffer) (src : List ℕ) (ibyte : ℕ) (out : ℕ × ReadBuffer) : Type 0 where
  still_valid : IsValid out.1
  total : out.0 ≡ ibyte + min (length src) (room rb)
  stored : contents out.1 ≡ contents rb ++ take (room rb) src

take_room : (n : ℕ) (c : ℕ) (cs : List ℕ) → 0 < n → take n (c ∷ cs) ≡ c ∷ take (n - 1) cs
take_room zero c cs h = absurd (omega arith)
take_room (suc n) c cs h = ap (λ k. c ∷ take k cs) (omega arith)

put_from-Stored :
    (rb : ReadBuffer) (src : List ℕ) (ibyte : ℕ)
    → IsValid rb
    → Stored rb src ibyte (put_from rb src ibyte)
unfolding put_from
put_from-Stored rb [] ibyte v = record {
  still_valid = v;
  total = omega arith;
  stored = rw (take-nil ℕ (room rb), append-nil);
}
put_from-Stored rb (c ∷ cs) ibyte v = elim (Bool-cases (is_full rb)) [
  | inl full ↦
      let none_left = full_room rb v full in
      rw (full, put_from)
        (record { still_valid = v; total = omega arith; stored = rw (none_left, append-nil) })
  | inr free ↦
      let h = not_full_room rb v free in
      let rest = put_from-Stored (put rb c) cs (ibyte + 1) (put-IsValid rb c v) in
      let less : room (put rb c) ≡ room rb - 1 = omega (arith, size-put rb c v h) in
      rw (free, put_from)
        (record {
          still_valid = rest.still_valid;
          total = omega (arith, rest.total);
          stored =
              rw (take_room (room rb) c cs h, ← less, rest.stored, contents-put rb c v h)
                (append_assoc (contents rb) (c ∷ []) (take (room (put rb c)) cs));
        })
]

-- On a valid buffer readbuffer_put stores as many bytes as there is room for, returns their
-- number, appends exactly those bytes, in order, and leaves the buffer valid.
pub readbuffer_put_lem :
    (rb : ReadBuffer) (cli_data : List ℕ)
    → IsValid rb
    → let (n, rb') = readbuffer_put rb cli_data in
      (n ≡ min (length cli_data) (capacity - length (contents rb)))
      × (contents rb' ≡ contents rb ++ take n cli_data)
      × IsValid rb'
unfolding readbuffer_put
readbuffer_put_lem rb cli_data v =
    let done = put_from-Stored rb cli_data 0 v in
    let count : (readbuffer_put rb cli_data).0 ≡ min (length cli_data) (room rb) =
      omega (arith, done.total) in
    (
      omega (arith, done.total, length-window rb.rbuffer rb.ibget (size rb)),
      rw (count, take-min) done.stored,
      done.still_valid,
    )

-- On a valid buffer readbuffer_get takes the `maxbytes` oldest bytes, or all if there are fewer,
-- in order, keeps the others, and leaves the buffer valid.
pub readbuffer_get_lem :
    (rb : ReadBuffer) (maxbytes : ℕ)
    → IsValid rb
    → let (bytes, rb') = readbuffer_get rb maxbytes in
      (bytes ≡ take maxbytes (contents rb))
      × (contents rb' ≡ drop maxbytes (contents rb))
      × IsValid rb'
unfolding readbuffer_get
readbuffer_get_lem rb zero v = (refl, refl, v)
readbuffer_get_lem rb (suc left) v = elim (Bool-cases (is_empty rb)) [
  | inl e ↦ rw (e, readbuffer_get) (rw (empty_size rb v e) (refl, refl, v))
  | inr e ↦
      let h = not_empty_size rb v e in
      let (first, kept, valid) = readbuffer_get_lem (get rb).1 left (get-IsValid rb v) in
      rw (e, readbuffer_get)
        (rw (contents-get rb v h) (ap (λ cs. (get rb).0 ∷ cs) first, kept, valid))
]
