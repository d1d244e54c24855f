-- ===== src/ReadBuffer.antt =====
-- The driver's read buffers: Linux/Drivers/acq32_utils.c, acq32_readbuffer_* of
-- Linux/Drivers/acq32.c and `struct ReadBuffer` of Linux/Drivers/acq32.h. A preincrement ring of
-- READBUFFERLEN bytes; the device's is `mrb`, a path's is `prb`.
pub mod Window
pub mod Transfer
pub mod Stashing
mod Tests
use acq200_firmware.Prelude.{
  ℕ, zero, suc, ◌+◌, ◌-◌, ◌^◌, Bool, true, false, List, [], ◌∷◌, bit_and, ◌==◌, get_or, set,
}

abbrev pub readbufferlen : ℕ
readbufferlen = 2 ^ 12

pub record ReadBuffer : Type 0 where
  pub rbuffer : List ℕ
  pub ibput : ℕ
  pub ibget : ℕ

-- INC( ib )
pub inc : ℕ → ℕ
inc ib = bit_and (ib + 1) (readbufferlen - 1)

pub is_empty : ReadBuffer → Bool
is_empty rb = rb.ibput == rb.ibget

pub is_full : ReadBuffer → Bool
is_full rb = inc rb.ibput == rb.ibget

-- PUT( rb, cc )
pub put : ReadBuffer → ℕ → ReadBuffer
put rb cc = record rb { rbuffer = set rb.rbuffer (inc rb.ibput) cc; ibput = inc rb.ibput }

-- GET( rb ): the character, and the buffer after it.
pub get : ReadBuffer → ℕ × ReadBuffer
get rb = (get_or rb.rbuffer (inc rb.ibget) 0, record rb { ibget = inc rb.ibget })

-- The list is `cli_data[ibyte..nbytes)`; the result is the count and the buffer.
put_from : ReadBuffer → List ℕ → ℕ → ℕ × ReadBuffer
put_from rb [] ibyte = (ibyte, rb)
put_from rb (c ∷ cs) ibyte = elim (is_full rb) [
  | true ↦ (ibyte, rb)
  | false ↦ put_from (put rb c) cs (ibyte + 1)
]

pub readbuffer_put : ReadBuffer → List ℕ → ℕ × ReadBuffer
readbuffer_put rb cli_data = put_from rb cli_data 0

-- `maxbytes` rounds; the list is what was stored into `cli_data`, its length the count returned.
pub readbuffer_get : ReadBuffer → ℕ → List ℕ × ReadBuffer
readbuffer_get rb zero = ([], rb)
readbuffer_get rb (suc left) = elim (is_empty rb) [
  | true ↦ ([], rb)
  | false ↦ let (c, rb') = get rb in let (cs, rb'') = readbuffer_get rb' left in (c ∷ cs, rb'')
]

-- acq32_readbuffer_create on a buffer that KMALLOC returned, whatever it holds.
pub create : List ℕ → ReadBuffer
create memory = record { rbuffer = memory; ibput = 0; ibget = 0 }

-- acq32_readbuffer_delete
pub delete : ReadBuffer → ReadBuffer
delete rb = record { rbuffer = []; ibput = 0; ibget = 0 }

-- What acq32_path_readbuffer_stash returns: the count, or -1 on a full device buffer, with both
-- buffers as it leaves them.
pub data Stash : Type 0 where
  copied : ℕ → ReadBuffer → ReadBuffer → Stash
  device_full : ReadBuffer → ReadBuffer → Stash
  out_of_fuel : Stash

-- The loop of acq32_path_readbuffer_stash: `prb` is drained into `mrb`.
stash_from : ℕ → ReadBuffer → ReadBuffer → ℕ → Stash
stash_from zero prb mrb ncopy = out_of_fuel
stash_from (suc fuel) prb mrb ncopy = elim (is_empty prb) [
  | true ↦ copied ncopy prb mrb
  | false ↦
      let (achar, prb') = get prb in
      elim (is_full mrb) [
        | true ↦ device_full prb' mrb
        | false ↦ stash_from fuel prb' (put mrb achar) (ncopy + 1)
      ]
]

pub stash : ReadBuffer → ReadBuffer → Stash
stash prb mrb = stash_from (readbufferlen + 1) prb mrb 0
