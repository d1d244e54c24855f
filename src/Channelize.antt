-- ===== src/Channelize.antt =====
-- The dechannelizer dt100/Linux/Apps/LOWLATENCY/channelize.196.c.
pub mod Lookup
pub mod Layout
mod Tests
use acq200_firmware.Prelude.{ℕ, zero, suc, ◌+◌, ◌-◌, ◌*◌, ◌/◌, List, [], ◌∷◌, get_or, set}

-- plut: by logical channel {1:32}, the physical channel {1:32}
abbrev pub plut : List ℕ
plut =
    0 ∷ 1 ∷ 17 ∷ 2 ∷ 18 ∷ 9 ∷ 25 ∷ 10 ∷ 26 ∷ 3 ∷ 19 ∷ 4 ∷ 20 ∷ 11 ∷ 27 ∷ 12 ∷ 28 ∷ 5 ∷ 21 ∷ 6 ∷ 22
    ∷ 13 ∷ 29 ∷ 14 ∷ 30 ∷ 7 ∷ 23 ∷ 8 ∷ 24 ∷ 15 ∷ 31 ∷ 16 ∷ 32 ∷ []

-- llut, whose initializer names the physical channels out of order
abbrev pub llut : List ℕ
llut =
    0 ∷ 1 ∷ 3 ∷ 9 ∷ 11 ∷ 17 ∷ 19 ∷ 25 ∷ 27 ∷ 5 ∷ 7 ∷ 13 ∷ 15 ∷ 21 ∷ 23 ∷ 29 ∷ 31 ∷ 2 ∷ 4 ∷ 10 ∷ 12
    ∷ 18 ∷ 20 ∷ 26 ∷ 28 ∷ 6 ∷ 8 ∷ 14 ∷ 16 ∷ 22 ∷ 24 ∷ 30 ∷ 32 ∷ []

abbrev block_of : ℕ → ℕ
block_of channel = (channel - 1) / 32

pub lookup_pchan : ℕ → ℕ
lookup_pchan lchannel =
    let block = block_of lchannel in block * 32 + get_or plut (lchannel - block * 32) 0

pub lookup_lchan : ℕ → ℕ
lookup_lchan pchan = let block = block_of pchan in block * 32 + get_or llut (pchan - block * 32) 0

-- The loop over the channels of one sample, from `ichan` on; `base` is how far `input` has moved.
pub channels_from : ℕ → ℕ → ℕ → ℕ → ℕ → List ℕ → List ℕ → List ℕ
channels_from zero ichan nsamples isample base input output = output
channels_from (suc left) ichan nsamples isample base input output =
    channels_from left (ichan + 1) nsamples isample base input (
      set output ((ichan - 1) * nsamples + isample)
        (get_or input (base + (lookup_lchan ichan - 1)) 0))

-- The loop over the samples, from `isample` on.
pub samples_from : ℕ → ℕ → ℕ → ℕ → List ℕ → List ℕ → List ℕ
samples_from zero isample nchan nsamples input output = output
samples_from (suc left) isample nchan nsamples input output =
    samples_from left (isample + 1) nchan nsamples input
      (channels_from nchan 1 nsamples isample (isample * nchan) input output)

pub channelize : List ℕ → List ℕ → ℕ → ℕ → List ℕ
channelize output input nchan nsamples = samples_from nsamples 0 nchan nsamples input output
