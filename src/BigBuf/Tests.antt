-- ===== src/BigBuf/Tests.antt =====
-- Runs of the big buffer's allocator and of the pool, and the witnesses.
use acq200_firmware.Prelude.{
  ℕ, ◌≡◌, ◌<◌, refl, arith, Bool, true, false, none, some, List, [], ◌∷◌, replicate, set,
}
use acq200_firmware.BigBuf.{
  BigBuffer, bb_init, Sleep, timeout, woken, timed_out, pool_alloc, alloc_from, rounds_for, incr,
}
use acq200_firmware.BigBuf.Pool.{pool_alloc-Handed, Handed}

abbrev big : BigBuffer
big = bb_init 1000 100 2

abbrev requests : List (ℕ × Bool)
requests = (40, true) ∷ (70, true) ∷ (2, false) ∷ (60, true) ∷ []

-- All of the buffers are in use but the third.
abbrev third_free : List Bool
third_free = set (replicate 16 true) 2 false

abbrev sleeps : List Sleep
sleeps = woken (7 ∷ []) ∷ timeout ∷ []

-- The first buffer that is tried is reserved: the call sleeps, though the third buffer is free.
sleeps_first : pool_alloc (timeout ∷ []) none third_free ≡ timed_out 0 third_free
unfolding pool_alloc alloc_from rounds_for incr
sleeps_first = refl

no_buffer_before : (ibuf : ℕ) → none ≡ some ibuf → ibuf < 15
no_buffer_before ibuf e = ground arith

pool_alloc_example : Handed sleeps third_free (pool_alloc sleeps none third_free)
pool_alloc_example = pool_alloc-Handed sleeps none third_free no_buffer_before
