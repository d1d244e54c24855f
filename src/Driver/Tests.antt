-- ===== src/Driver/Tests.antt =====
-- The driver at concrete commands, boards and devices.
use acq200_firmware.Prelude.{◌/◌, ◌%◌, ◌≡◌, refl, arith, true, false, none, [], ◌∷◌}
use acq200_firmware.Busprot.{set_funcode, get_funcode, get_a1, get_a2}
use acq200_firmware.MboxSlave.Types.{Slave, set_command}
use acq200_firmware.MboxSlave.Tests.{board, board-FitsBox, slave_with}
use acq200_firmware.Driver.Bus.{Device}
use acq200_firmware.Driver.Send.{command_word}
use acq200_firmware.Driver.Commands.{dev_set_channel_mask, get_memory_depth}
use acq200_firmware.Driver.Commands.Depth.{get_memory_depth-none}
use acq200_firmware.Driver.Gut.{Fx, Subject, make_gut_cmd}
use acq200_firmware.Driver.Gut.Words.{make_gut_cmd_lem}
use acq200_firmware.Driver.Protocol.{slave_bus}
use acq200_firmware.Driver.Protocol.Mask.{set_channel_mask-process}

-- A device whose link is the slave itself.
abbrev device : Device Slave
device = record {
  link = slave_with 0;
  use_interrupts = false;
  channel_mask = 0xffff;
  mode = 0;
  cycle = 0;
  error = false;
  state = 0;
  streaming = 0;
  streaming_enabled = false;
  nchannels = 32;
  total_sample_length = 65536;
  i2o_last_id_out = 0;
  i2o_packets_outgoing = 0;
}

-- The slave with BP_FC_SET_MODE waiting.
abbrev asked : Slave
asked =
    set_command (command_word (slave_bus board false) (set_funcode b'M') none none) (slave_with 0)

set_channel_mask_example :
    let result = dev_set_channel_mask (slave_bus board true) 0xff00ff 1 device in
    (result.0 ≡ none) × (result.1.channel_mask ≡ 0xff) × (result.1.link.channel_mask ≡ 0xff)
set_channel_mask_example = set_channel_mask-process board 0xff00ff 1 device board-FitsBox refl

get_memory_depth_example : get_memory_depth (device ∷ device ∷ []) 33 ≡ none
get_memory_depth_example = get_memory_depth-none (device ∷ device ∷ []) 33

make_gut_cmd_example :
    let word = make_gut_cmd b'2' Fx.ao (Subject.event 3) in
    (get_funcode word ≡ b'2')
    × (get_a1 word ≡ 0)
    × (get_a2 word / 32 ≡ 2)
    × (get_a2 word / 16 % 2 ≡ 1)
    × (get_a2 word % 16 ≡ 3)
make_gut_cmd_example = make_gut_cmd_lem b'2' Fx.ao (Subject.event 3) (omega arith) (omega arith)
