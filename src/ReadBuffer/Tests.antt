-- ===== src/ReadBuffer/Tests.antt =====
-- Read buffers at concrete contents.
use acq200_firmware.Prelude.{
  ℕ, suc, ◌-◌, ◌≡◌, arith, List, [], ◌∷◌, ◌++◌, min, length, take, drop, replicate,
  length-replicate,
}
use acq200_firmware.ReadBuffer.{
  ReadBuffer, readbuffer_put, readbuffer_get, stash, copied, device_full,
}
use acq200_firmware.ReadBuffer.Window.{IsValid, capacity, contents, size, length-window}
use acq200_firmware.ReadBuffer.Transfer.{readbuffer_put_lem, readbuffer_get_lem}
use acq200_firmware.ReadBuffer.Stashing.{stash_fits, stash_overruns}

-- Two bytes in a ring, and a full ring.
abbrev two_held : ReadBuffer
two_held = record { rbuffer = replicate 4096 7; ibput = 1; ibget = 4095 }

abbrev full_ring : ReadBuffer
full_ring = record { rbuffer = replicate 4096 9; ibput = 4095; ibget = 0 }

abbrev three : List ℕ
three = 1 ∷ 2 ∷ 3 ∷ []

two_held-IsValid : IsValid two_held
two_held-IsValid = record {
  storage = length-replicate {A = ℕ} 4096 7;
  put_in = omega arith;
  get_in = omega arith;
}

full_ring-IsValid : IsValid full_ring
full_ring-IsValid = record {
  storage = length-replicate {A = ℕ} 4096 9;
  put_in = omega arith;
  get_in = omega arith;
}

two_held_size : length (contents two_held) ≡ 2
two_held_size = length-window two_held.rbuffer two_held.ibget (size two_held)

full_ring_size : length (contents full_ring) ≡ 4095
full_ring_size = length-window full_ring.rbuffer full_ring.ibget (size full_ring)

readbuffer_put_example :
    let (n, rb') = readbuffer_put two_held three in
    (n ≡ min (length three) (capacity - length (contents two_held)))
    × (contents rb' ≡ contents two_held ++ take n three)
    × IsValid rb'
readbuffer_put_example = readbuffer_put_lem two_held three two_held-IsValid

readbuffer_get_example :
    let (bytes, rb') = readbuffer_get two_held 1 in
    (bytes ≡ take 1 (contents two_held)) × (contents rb' ≡ drop 1 (contents two_held)) × IsValid rb'
readbuffer_get_example = readbuffer_get_lem two_held 1 two_held-IsValid

stash_fits_example :
    (path : ReadBuffer) × (device : ReadBuffer) × (stash two_held two_held
      ≡ copied (length (contents two_held)) path device)
    × (contents path ≡ [])
    × (contents device ≡ contents two_held ++ contents two_held)
stash_fits_example =
    stash_fits two_held two_held two_held-IsValid two_held-IsValid (omega (arith, two_held_size))

stash_overruns_example :
    let fitted = capacity - length (contents full_ring) in
    (path : ReadBuffer) × (device : ReadBuffer) × (stash two_held full_ring
      ≡ device_full path device)
    × (contents device ≡ contents full_ring ++ take fitted (contents two_held))
    × (contents path ≡ drop (suc fitted) (contents two_held))
stash_overruns_example =
    stash_overruns two_held full_ring two_held-IsValid full_ring-IsValid
      (omega (arith, two_held_size, full_ring_size))
