-- ===== src/Driver/Fetch.antt =====
-- The data that a read of a channel or of rows gets: acq32_FetchData of acq32_core.c with what it
-- calls, and the path's buffer that it fills and the reads empty.
use mathlib.Core.Option
use acq200_firmware.Prelude.{
  ℕ, zero, suc, ◌+◌, ◌*◌, ◌/◌, Bool, ◌&&◌, not, Option, none, some, List, [], ◌∷◌, ◌++◌, bit_and,
  bit_or, u32, ◌<<<◌, ltb, ◌==◌, ◌!=◌, if◌then◌else◌, take, drop, length,
}
use acq200_firmware.Prelude.Int.{
  ℤ, pos, negsuc, pos_part, ◌+ℤ◌, ◌-ℤ◌, ◌*ℤ◌, ◌/ℤ◌, ltb_ℤ, is_negative, int_of, word_of,
}
use acq200_firmware.Busprot.{set_funcode, set_a1, set_a2}
use acq200_firmware.MaskIterator.{num_enabled_channels}
use acq200_firmware.Driver.Bus.{Box, Bus, Device, Error, timed_out, no_incoming_i2o}
use acq200_firmware.Driver.Send.{send_command_a3_a4}
use acq200_firmware.Driver.Boards.{Board}

-- struct PATH_BUFFER
pub record PathBuffer : Type 0 where
  pub start_sample : ℤ
  pub iput : ℤ
  pub iget : ℤ
  pub max_data : ℤ
  pub contents : List ℕ
  pub is_pre_buffer : Bool

-- MIN
abbrev pub min_ℤ : ℤ → ℤ → ℤ
min_ℤ a b = if ltb_ℤ a b then a else b

-- MAX_START_CODING, and PAGE_SIZE of the kernel on the host
abbrev pub max_start_coding : ℕ
max_start_coding = 0xffff

abbrev pub page_size : ℕ
page_size = 4096

-- -ETIMEDOUT, and a code for the other error, which a fetch does not give
pub error_code : Error → ℤ
error_code timed_out = negsuc 109
error_code no_incoming_i2o = negsuc 0

-- The loop of acq32_devGetIndexFromMask; `none` is that it does not end.
pub index_from : ℕ → ℕ → ℕ → ℕ → Option ℕ
index_from zero imatch imask ii = none
index_from (suc fuel) imatch imask ii =
    let rest = index_from fuel imatch (u32 (imask <<< 1)) (ii + 1) in
    if bit_and imatch imask == 0 then rest else some ii

-- acq32_devGetIndexFromMask, which does not look at the device's mask
pub dev_get_index_from_mask : ℕ → Option ℕ
dev_get_index_from_mask ichannel = index_from 32 (u32 (1 <<< ichannel)) 1 0

-- memcpy to the start of the path's data
pub copy_front : List ℕ → List ℕ → List ℕ
copy_front bytes old = bytes ++ drop (length bytes) old

-- The bytes of a memory from an offset on.
pub bytes_at : (ℕ → ℕ) → ℕ → ℕ → List ℕ
bytes_at memory offset zero = []
bytes_at memory offset (suc n) = memory offset ∷ bytes_at memory (offset + 1) n

-- The shorts of a memory from a short's index on, `stride` apart, as bytes.
pub column_at : (ℕ → ℕ) → ℕ → ℕ → ℕ → List ℕ
column_at memory stride index zero = []
column_at memory stride index (suc ncopy) =
    memory (2 * index) ∷ memory (2 * index + 1) ∷ column_at memory stride (index + stride) ncopy

abbrev pub all_channels : ℕ
all_channels = 0xff

abbrev pub sample_size_of : ℕ → ℕ → ℤ
sample_size_of ch_code channel_mask =
    if ch_code == all_channels then pos (2 * num_enabled_channels channel_mask) else pos 2

-- The bytes that acq32_FetchDataFromHostBuffer copies; `none` is a loop on a number below 0. A whole
-- row goes as 32-bit words.
pub host_bytes : (ℕ → ℕ) → ℕ → ℕ → ℤ → ℤ → Option (List ℕ)
host_bytes bigbuf ch_code channel_mask start_sample nsamples =
    let rowlen = num_enabled_channels channel_mask in
    let start = pos_part start_sample in
    let count = pos_part nsamples in
    if is_negative nsamples
    then none
    else if ch_code == all_channels
    then some (bytes_at bigbuf (2 * rowlen * start) (count * (2 * rowlen) / 4 * 4))
    else Option.map (λ chan_offset. column_at bigbuf rowlen (start * rowlen + chan_offset) count)
        (dev_get_index_from_mask ch_code)

-- acq32_FetchDataFromHostBuffer, `bigbuf` being the memory of the device's big buffer
pub fetch_data_from_host_buffer :
    {L : Type 0} → (ℕ → ℕ) → Board L → ℤ → ℤ → ℕ → PathBuffer → Option (ℤ × PathBuffer)
fetch_data_from_host_buffer bigbuf b start_sample cli_max_samples ch_code buffer =
    let mask = b.device.channel_mask in
    let totlen = int_of b.actual_pre +ℤ int_of b.actual_post in
    let sample_size = sample_size_of ch_code mask in
    let cli_last_sample = min_ℤ (start_sample +ℤ cli_max_samples) totlen in
    let iput = (cli_last_sample -ℤ buffer.start_sample) *ℤ sample_size in
    let nsamples = min_ℤ (buffer.max_data /ℤ sample_size) (totlen -ℤ start_sample) in
    let in_buffer = not (ltb_ℤ start_sample buffer.start_sample) && not (ltb_ℤ buffer.iput iput) in
    let answer = min_ℤ cli_max_samples nsamples in
    if in_buffer
    then some (answer, buffer)
    else Option.map
        (λ bytes. (
          answer,
          record buffer {
            start_sample = start_sample;
            contents = copy_front bytes buffer.contents;
            iput = nsamples *ℤ sample_size;
            iget = pos 0;
          },
        ))
        (host_bytes bigbuf ch_code mask start_sample nsamples)

-- The command of acq32_devFetchData and its a3; a start too large for 16 bits goes in blocks of 1 K.
pub fetch_words : ℤ → ℤ → ℕ → Bool → ℕ × ℕ
fetch_words start nsamples ch_code is_pre_buffer =
    let far = ltb max_start_coding (word_of start) in
    let plain = bit_or (set_funcode b'F') (set_a2 ch_code) in
    let pre = if is_pre_buffer then bit_or plain (set_a1 0x10) else plain in
    let coded = if far then start /ℤ pos 0x400 else start in
    (
      if far then bit_or pre (set_a1 0x04) else pre,
      bit_or (u32 (word_of coded <<< 16)) (word_of nsamples),
    )

module _ {L : Type 0} (bus : Bus L) (ram : L → ℕ → ℕ) where
  -- acq32_devFetchData: what it returns, the data and the device; `ram` is the device's memory.
  pub dev_fetch_data : ℤ → ℤ → ℤ → ℕ → Bool → List ℕ → Device L → ℤ × (List ℕ × Device L)
  dev_fetch_data start nsamples sample_size ch_code is_pre_buffer old d =
      let (command, a3) = fetch_words start nsamples ch_code is_pre_buffer in
      let (error, sent) =
        send_command_a3_a4 bus d.use_interrupts command ((a3, none) ∷ []) d.link in
      let (target_offset, after_a3) = bus.get_mailbox Box.a3 sent in
      let (given, after_a4) = bus.get_mailbox Box.a4 after_a3 in
      let count = word_of nsamples in
      let maxsamples = if ltb given count then given else count in
      let nbytes = maxsamples * pos_part sample_size in
      elim error [
        | some e ↦ (error_code e, (old, record d { link = sent }))
        | none ↦ (
          nsamples,
          (
            copy_front (bytes_at (ram after_a4) target_offset nbytes) old,
            record d { link = after_a4 },
          ),
        )
      ]

  -- The part of the buffer's state that acq32_FetchDataFromDevice sets before a fetch.
  pub place_buffer : ℤ → ℤ → PathBuffer → PathBuffer
  place_buffer start_sample sample_size buffer =
      let start_bytes = word_of (start_sample *ℤ sample_size) in
      let page = int_of (start_bytes / page_size * page_size) /ℤ sample_size in
      if ltb_ℤ buffer.max_data (pos page_size)
      then record buffer { start_sample = start_sample; iget = pos 0 }
      else record buffer { start_sample = page; iget = (start_sample -ℤ page) *ℤ sample_size }

  -- acq32_FetchDataFromDevice
  pub fetch_data_from_device : Board L → ℤ → ℤ → ℕ → PathBuffer → ℤ × (PathBuffer × Board L)
  fetch_data_from_device b start cli_max_samples ch_code buffer =
      let sample_size = sample_size_of ch_code b.device.channel_mask in
      let prelen = int_of b.actual_pre in
      let is_pre_buffer = ltb_ℤ start prelen in
      let start_sample = if is_pre_buffer then start else start -ℤ prelen in
      let len = if is_pre_buffer then prelen else int_of b.actual_post in
      let cli_last_sample = min_ℤ (start_sample +ℤ cli_max_samples) len in
      let nsamples = min_ℤ (buffer.max_data /ℤ sample_size) (len -ℤ start_sample) in
      let iput = (cli_last_sample -ℤ buffer.start_sample) *ℤ sample_size in
      let same_side = if is_pre_buffer then buffer.is_pre_buffer else not buffer.is_pre_buffer in
      let in_buffer =
        same_side && not (ltb_ℤ start_sample buffer.start_sample) && not (ltb_ℤ buffer.iput iput) in
      let placed = place_buffer start_sample sample_size buffer in
      let (fetched, (stored, d)) =
        dev_fetch_data placed.start_sample nsamples sample_size ch_code is_pre_buffer
          placed.contents b.device in
      if in_buffer then (min_ℤ nsamples cli_max_samples, (buffer, b)) else (
        min_ℤ fetched cli_max_samples,
        (
          record placed {
            contents = stored;
            is_pre_buffer = is_pre_buffer;
            iput = fetched *ℤ sample_size;
          },
          record b { device = d },
        ),
      )

  abbrev pub with_board : Board L → Option (ℤ × PathBuffer) → Option (ℤ × (PathBuffer × Board L))
  with_board b = Option.map (λ r. (r.0, (r.1, b)))

  -- acq32_FetchData, which tests the channel's index against -1 first; `bb_len` and `bigbuf` are the
  -- length and the memory of the device's big buffer.
  pub fetch_data :
      ℕ → (ℕ → ℕ) → Board L → ℤ → ℤ → ℕ → PathBuffer → Option (ℤ × (PathBuffer × Board L))
  fetch_data bb_len bigbuf b start_sample cli_max_samples ch_code buffer =
      let known = if ch_code == all_channels then some 0 else dev_get_index_from_mask ch_code in
      let fetched =
        if (bb_len != 0) && b.contains_valid_data
        then with_board b
            (fetch_data_from_host_buffer bigbuf b start_sample cli_max_samples ch_code buffer)
        else some (fetch_data_from_device b start_sample cli_max_samples ch_code buffer) in
      elim known [ none ↦ none | some index ↦ fetched ]

-- acq32_GetNextData, with what it copies, and acq32_discardLastData
pub get_next_data : ℤ → PathBuffer → ℤ × (List ℕ × PathBuffer)
get_next_data maxbuf buffer =
    let itest = buffer.iget +ℤ maxbuf in
    if ltb_ℤ buffer.iput itest then (pos 0, ([], buffer)) else (
      maxbuf,
      (
        take (pos_part maxbuf) (drop (pos_part buffer.iget) buffer.contents),
        record buffer { iget = itest },
      ),
    )

pub discard_last_data : ℤ → PathBuffer → PathBuffer
discard_last_data data_len buffer = record buffer { iget = buffer.iget -ℤ data_len }

-- bin_buf_update: the bytes that go to the client, after as many of the path's as there are
pub bin_buf_update : ℤ → ℤ → PathBuffer → List ℕ × PathBuffer
bin_buf_update max_samples sample_size buffer =
    let tcount = max_samples *ℤ sample_size in
    (
      take (pos_part tcount) (drop (pos_part buffer.iget) buffer.contents),
      record buffer { iget = buffer.iget +ℤ tcount },
    )
