-- ===== src/Driver/Commands.antt =====
-- The driver's commands of acq32_core.c: status, channel mask, streaming, memory depth, routes,
-- ranges and I2O messages.
pub mod Depth
pub mod Mask
use mathlib.Core.Option
use acq200_firmware.Prelude.{
  ℕ, zero, suc, ◌+◌, ◌-◌, ◌*◌, ◌/◌, ◌%◌, ◌^◌, Bool, true, false, Option, none, some, List, [], ◌∷◌,
  ◌++◌, bit_and, bit_or, u32, ◌<<<◌, ◌>>>◌, ◌==◌, ◌!=◌, if◌then◌else◌,
}
use acq200_firmware.Busprot.{
  has, set_funcode, set_a1, set_a2, get_mode, get_cycle, get_error, get_state,
}
use acq200_firmware.Busprot.Ci
use acq200_firmware.MaskIterator.{num_enabled_channels}
use acq200_firmware.MboxSlave.Incoming.{Message, make_id_dtacq}
use acq200_firmware.Driver.Bus.{Box, Bus, Device, Error, no_incoming_i2o}
use acq200_firmware.Driver.Send.{
  Want, Response, a3_only, send_command, send_command_a3_a4, send_query,
}

abbrev pub a1_a2_only : Want
a1_a2_only = record { a1 = true; a2 = true; a3 = false; a4 = false }

abbrev pub value_or : ℕ → Option ℕ → ℕ
value_or other none = other
value_or other (some value) = value

-- A voltage range in tenths, `vmin10` being the negative of `vmax10`.
pub code2v10 : ℕ → ℕ
code2v10 code =
    if code == 1
    then 100
    else if code == 2
    then 50
    else if code == 3
    then 20
    else if code == 4
    then 10
    else if code == 5
    then 25
    else 0

-- beFix: the bytes of each short change places.
pub be_fix : ℕ → List ℕ → List ℕ
be_fix zero bytes = bytes
be_fix (suc nshorts) (low ∷ high ∷ rest) = high ∷ low ∷ be_fix nshorts rest
be_fix (suc nshorts) bytes = bytes

module _ {L : Type 0} (bus : Bus L) where
  -- A command by the device's link.
  abbrev pub on_link : (L → Option Error × L) → Device L → Option Error × Device L
  on_link send d = let (error, link) = send d.link in (error, record d { link = link })

  pub dev_set_distributor : ℕ → Device L → Option Error × Device L
  dev_set_distributor idist d =
      on_link (send_command bus d.use_interrupts (bit_or (set_funcode b's') (set_a1 idist))) d

  pub dev_set_route : ℕ → Device L → Option Error × Device L
  dev_set_route route_id d =
      on_link (send_command bus d.use_interrupts (bit_or (set_funcode b'r') (set_a1 route_id))) d

  -- acq32_devGetStatus
  unfoldable pub dev_get_status : Device L → ℕ × Device L
  dev_get_status d =
      let (status, link) = bus.get_mailbox Box.status d.link in
      (
        get_state status,
        record d {
          link = link;
          mode = get_mode status;
          cycle = get_cycle status;
          error = get_error status;
          state = get_state status;
        },
      )

  -- acq32_GetState
  pub get_device_state : Device L → ℕ × Device L
  get_device_state d = elim d.use_interrupts [ true ↦ (d.state, d) | false ↦ dev_get_status d ]

  pub dev_get_channel_mask : Device L → Option Error × Option ℕ × Device L
  dev_get_channel_mask d =
      let (error, response, link) =
        send_query bus d.use_interrupts (set_funcode b'K') a3_only d.link in
      (error, response.a3, record d { link = link })

  abbrev pub keep_mask : Option Error × Option ℕ × Device L → Option Error × Device L
  keep_mask (some e, mask, d) = (some e, d)
  keep_mask (none, mask, d) = (none, record d { channel_mask = value_or d.channel_mask mask })

  abbrev pub then_get_mask : Option Error × Device L → Option Error × Device L
  then_get_mask (some e, d) = (some e, d)
  then_get_mask (none, d) = keep_mask (dev_get_channel_mask d)

  pub dev_set_channel_mask : ℕ → ℕ → Device L → Option Error × Device L
  dev_set_channel_mask mask boost d = then_get_mask (
      on_link
        (send_command_a3_a4 bus d.use_interrupts (set_funcode b'K' + b'R')
          ((mask, some boost) ∷ []))
        d)

  abbrev keep_streaming : Option Error × Device L → Option Error × Device L
  keep_streaming (some e, d) = (some e, d)
  keep_streaming (none, d) = (none, record d { streaming_enabled = d.streaming != 0 })

  -- acq32_devSetStreaming, whose `burst` is not used
  pub dev_set_streaming : ℕ → Bool → Device L → Option Error × Device L
  dev_set_streaming npairs burst d =
      let mean = if has d.streaming 0x80000000 then 1 else 0 in
      let stride = bit_and d.streaming 0xffff in
      let a2 = set_a2 (mean + bit_and (npairs <<< 4) 0xf0) in
      let command = bit_or (bit_or (set_funcode b'S') (set_a1 stride)) a2 in
      keep_streaming (on_link (send_command bus d.use_interrupts command) d)

  -- dev_getRange: the answer's range codes, as the largest input and output voltages.
  pub dev_get_range : Device L → Option Error × Option ℕ × Option ℕ × Device L
  dev_get_range d =
      let (error, response, link) =
        send_query bus d.use_interrupts (bit_or Ci.done (set_funcode b'm')) a1_a2_only d.link in
      (
        error,
        Option.map code2v10 response.a1,
        Option.map code2v10 response.a2,
        record d { link = link },
      )

  -- The I2O fifo's answer and the write of a message to a frame.
  -- acq32_sendI2O_kbuf: `mfa` is what the inbound fifo has, and `write` copies a message to a frame
  -- and gives the frame back to the fifo.
  pub send_i2o_kbuf : ℕ → (ℕ → Message → L → L) → Message → Device L → Option Error × Device L
  send_i2o_kbuf mfa write message d =
      if mfa == 0xffffffff
      then (some no_incoming_i2o, d)
      else let last = (d.i2o_last_id_out + 1) % 2 ^ 16 in
        let numbered = record message { id = make_id_dtacq last } in
        (
          none,
          record d {
            link = write (bit_and mfa 0x00ffffff) numbered d.link;
            i2o_last_id_out = last;
            i2o_packets_outgoing = (d.i2o_packets_outgoing + 1) % 2 ^ 32;
          },
        )

-- acq32_GetMemoryDepth, for the boards whose bit is set in the path's slaves: the depth of the
-- channel, or `none` for -1. Each round tests `ichan != channel` before the body tests
-- `ichan == channel`.
pub depth_in : {L : Type 0} → Device L → ℕ → ℕ → ℕ → ℕ → Option ℕ × ℕ
depth_in d zero ichannel_board ichan channel = (none, ichan)
depth_in d (suc left) ichannel_board ichan channel =
    let rest = depth_in d left (ichannel_board + 1) (ichan + 1) channel in
    if ichan != channel
    then if ichan == channel
      then (
        some (
            if has d.channel_mask (2 ^ ichannel_board)
            then d.total_sample_length / num_enabled_channels d.channel_mask
            else 0),
        ichan,
      )
      else rest
    else (none, ichan)

pub memory_depth_from : {L : Type 0} → List (Device L) → ℕ → ℕ → Option ℕ
memory_depth_from [] ichan channel = none
memory_depth_from (d ∷ ds) ichan channel =
    let (depth, next) = depth_in d d.nchannels 0 ichan channel in
    elim depth [ some n ↦ some n | none ↦ memory_depth_from ds next channel ]

pub get_memory_depth : {L : Type 0} → List (Device L) → ℕ → Option ℕ
get_memory_depth boards channel = memory_depth_from boards 0 channel
