-- ===== src/ReadBuffer/Window.antt =====
-- What a read buffer holds, oldest first, and what PUT and GET do to it.
use acq200_firmware.Prelude.{
  ℕ, zero, suc, ◌+◌, ◌-◌, ◌%◌, ◌<◌, ◌≡◌, refl, sym, ap, ap₂, ◌∙◌, true, false, List, [], ◌∷◌, ◌++◌,
  arith, bit_and_mask, get_or, set, length, length-set, get_or-set_self, get_or-set_ne,
}
use acq200_firmware.ReadBuffer.{ReadBuffer, readbufferlen, inc, is_empty, is_full, put, get}

pub record IsValid (rb : ReadBuffer) : Type 0 where
  pub storage : length rb.rbuffer ≡ readbufferlen
  pub put_in : rb.ibput < readbufferlen
  pub get_in : rb.ibget < readbufferlen

-- One slot of the ring stays free.
abbrev pub capacity : ℕ
capacity = readbufferlen - 1

abbrev pub size : ReadBuffer → ℕ
size rb = (rb.ibput + readbufferlen - rb.ibget) % readbufferlen

abbrev pub room : ReadBuffer → ℕ
room rb = capacity - size rb

-- The `n` bytes behind index `g`, going round.
abbrev pub window : List ℕ → ℕ → ℕ → List ℕ
window buf g zero = []
window buf g (suc n) =
    get_or buf ((g + 1) % readbufferlen) 0 ∷ window buf ((g + 1) % readbufferlen) n

abbrev pub contents : ReadBuffer → List ℕ
contents rb = window rb.rbuffer rb.ibget (size rb)

pub length-window : (buf : List ℕ) (g n : ℕ) → length (window buf g n) ≡ n
length-window buf g zero = refl
length-window buf g (suc n) = ap suc (length-window buf ((g + 1) % readbufferlen) n)

pub inc_lem : (ib : ℕ) → inc ib ≡ (ib + 1) % readbufferlen
unfolding inc
inc_lem ib = bit_and_mask 12 (ib + 1)

-- A byte written just behind a window extends the window.
window-set :
    (buf : List ℕ) (x n g i : ℕ)
    → length buf ≡ readbufferlen
    → n < capacity
    → i ≡ (g + n + 1) % readbufferlen
    → window (set buf i x) g (suc n) ≡ window buf g n ++ (x ∷ [])
window-set buf x zero g i s h e =
    ap (λ b. b ∷ [])
      (ap (λ k. get_or (set buf i x) k 0) (omega arith) ∙ get_or-set_self buf i x 0 (omega arith))
window-set buf x (suc n) g i s h e =
    ap₂ ◌∷◌ (get_or-set_ne buf i ((g + 1) % readbufferlen) x 0 (omega arith))
      (window-set buf x n ((g + 1) % readbufferlen) i s (omega arith) (omega arith))

pub empty_size : (rb : ReadBuffer) → IsValid rb → is_empty rb ≡ true → size rb ≡ 0
unfolding is_empty
empty_size rb v h = ground arith

pub not_empty_size : (rb : ReadBuffer) → IsValid rb → is_empty rb ≡ false → 0 < size rb
unfolding is_empty
not_empty_size rb v h = ground arith

pub full_room : (rb : ReadBuffer) → IsValid rb → is_full rb ≡ true → room rb ≡ 0
unfolding is_full
full_room rb v h = ground (arith, inc_lem rb.ibput)

pub not_full_room : (rb : ReadBuffer) → IsValid rb → is_full rb ≡ false → 0 < room rb
unfolding is_full
not_full_room rb v h = ground (arith, inc_lem rb.ibput)

pub not_empty_of_size : (rb : ReadBuffer) → IsValid rb → 0 < size rb → is_empty rb ≡ false
unfolding is_empty
not_empty_of_size rb v h = ground arith

pub is_full_of_room : (rb : ReadBuffer) → IsValid rb → 0 < room rb → is_full rb ≡ false
unfolding is_full
is_full_of_room rb v h = ground (arith, inc_lem rb.ibput)

pub put-IsValid : (rb : ReadBuffer) (c : ℕ) → IsValid rb → IsValid (put rb c)
unfolding put
put-IsValid rb c v = omega (arith, inc_lem rb.ibput, length-set rb.rbuffer (inc rb.ibput) c)

pub size-put : (rb : ReadBuffer) (c : ℕ) → IsValid rb → 0 < room rb → size (put rb c) ≡ size rb + 1
unfolding put
size-put rb c v h = omega (arith, inc_lem rb.ibput)

pub contents-put :
    (rb : ReadBuffer) (c : ℕ)
    → IsValid rb
    → 0 < room rb
    → contents (put rb c) ≡ contents rb ++ (c ∷ [])
unfolding put
contents-put rb c v h =
    ap (window (set rb.rbuffer (inc rb.ibput) c) rb.ibget) sized
    ∙ window-set rb.rbuffer c (size rb) rb.ibget (inc rb.ibput) v.storage (omega arith)
        (omega (arith, inc_lem rb.ibput))
  where
    sized : size (put rb c) ≡ suc (size rb)
    sized = omega (arith, size-put rb c v h)

pub get-IsValid : (rb : ReadBuffer) → IsValid rb → IsValid (get rb).1
unfolding get
get-IsValid rb v = omega (arith, inc_lem rb.ibget)

pub size-get : (rb : ReadBuffer) → IsValid rb → 0 < size rb → size (get rb).1 + 1 ≡ size rb
unfolding get
size-get rb v h = omega (arith, inc_lem rb.ibget)

pub contents-get :
    (rb : ReadBuffer) → IsValid rb → 0 < size rb → contents rb ≡ (get rb).0 ∷ contents (get rb).1
unfolding get
contents-get rb v h =
    ap (window rb.rbuffer rb.ibget) sized
    ∙ ap (λ k. get_or rb.rbuffer k 0 ∷ window rb.rbuffer k (size (get rb).1))
        (sym (inc_lem rb.ibget))
  where
    sized : size rb ≡ suc (size (get rb).1)
    sized = omega (arith, size-get rb v h)
