-- ===== src/MboxSlave/Incoming.antt =====
-- mboxProcessI2OIncoming of ARM/d-bug/mbox-slave.c, with processTest: the messages that the host
-- pushes through the I2O unit.
pub mod Sequence
use acq200_firmware.Prelude.{
  ℕ, ◌+◌, ◌*◌, ◌%◌, ◌/◌, ◌^◌, Bool, true, false, Option, none, some, List, [], ◌∷◌, ◌++◌, bit_and,
  bit_or, u32, ◌<<<◌, ◌>>>◌, ◌==◌, ◌!=◌, if◌then◌else◌,
}
use acq200_firmware.Busprot.{clear}

-- struct MESSAGE: its header and its payload's bytes.
pub record Message : Type 0 where
  pub id : ℕ
  pub length : ℕ
  pub type : ℕ
  pub payload : List ℕ

-- MAKE_ID_DTACQ, IS_ID_DTACQ and GET_IDN, on an unsigned short
abbrev pub make_id_dtacq : ℕ → ℕ
make_id_dtacq n = bit_or (bit_and n 0x7f <<< 8) 0xdc % 2 ^ 16

abbrev pub is_id_dtacq : ℕ → Bool
is_id_dtacq id = bit_and id 0xff == 0xdc

abbrev pub get_idn : ℕ → ℕ
get_idn id = id >>> 8

abbrev pub mt_type_mask : ℕ
mt_type_mask = 0xff000000

abbrev pub mt_id : ℕ → ℕ
mt_id type = bit_and type mt_type_mask

abbrev pub mt_pram : ℕ → ℕ
mt_pram type = clear type mt_type_mask

-- MT_COMMAND_PACKET and its subtypes
abbrev pub mt_command_packet : ℕ
mt_command_packet = u32 (b'z' <<< 24)

abbrev pub mtc_test : ℕ
mtc_test = 0

abbrev pub mtc_debug_text : ℕ
mtc_debug_text = 4

abbrev pub mtc_hostbound : ℕ
mtc_hostbound = 7

abbrev pub mtc_acqbound : ℕ
mtc_acqbound = 8

-- The calls that are made of d_bug_line, acq200_processHostbound, acq200_processAcqbound and
-- i2o_returnInboundMessage, and the reports of info and err.
pub data Event : Type 0 where
  unexpected_id : ℕ → ℕ → Event
  debug_line : List ℕ → Event
  hostbound acqbound : Message → Event
  not_implemented bad_type : ℕ → Event
  returned : Message → Event

-- enum MBOXI2OIN
pub data Phase : Type 0 where
  init enable poll : Phase

pub record Incoming : Type 0 where
  pub expected_id : ℕ
  pub state : Phase
  -- the static of processTest
  pub itest : ℕ
  pub events : List Event

abbrev pub report : Event → Incoming → Incoming
report e m = record m { events = m.events ++ e ∷ [] }

pub process_test : Option Message → Incoming → Incoming
process_test none m = record m { itest = 1 }
process_test (some message) m = record m { itest = (m.itest + 1) % 2 ^ 32 }

-- The switch on a message's type.
pub dispatch : Message → Incoming → Incoming
dispatch message m =
    let pram = mt_pram message.type in
    if mt_id message.type == mt_command_packet
    then if pram == mtc_debug_text
      then report (Event.debug_line message.payload) m
      else if pram == mtc_test
      then process_test (some message) m
      else if pram == mtc_hostbound
      then report (Event.hostbound message) m
      else if pram == mtc_acqbound
      then report (Event.acqbound message) m
      else report (Event.not_implemented pram) m
    else report (Event.bad_type message.type) m

-- The check of a message's number.
pub check_id : Message → Incoming → Incoming
check_id message m =
    if get_idn message.id != m.expected_id
    then report (Event.unexpected_id m.expected_id (get_idn message.id))
        (record m { expected_id = get_idn message.id })
    else m

pub take_message : Message → Incoming → Incoming
take_message message m =
    let done = report (Event.returned message) (dispatch message (check_id message m)) in
    record done { expected_id = bit_and (done.expected_id + 1) 0x7f }

-- The poll of i2o_getInboundMessage: `none` is NO_MESSAGE.
pub poll_message : Option Message → Incoming → Incoming
poll_message none m = m
poll_message (some message) m = take_message message m

-- mboxProcessI2OIncoming
pub process_incoming : Phase → Option Message → Incoming → Incoming
process_incoming Phase.init waiting m = record m { expected_id = 1; state = Phase.init }
process_incoming Phase.enable waiting m = record m { state = Phase.enable }
process_incoming Phase.poll waiting m = elim m.state [
  | Phase.enable ↦ poll_message waiting m
  | _ ↦ m
]
