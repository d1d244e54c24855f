-- ===== src/Driver/Bus.antt =====
-- What acq32_core.c has of a device: the mailboxes through the function pointers of struct
-- Acq32Device, and the fields of its m_dpd that the mailbox commands use.
use acq200_firmware.Prelude.{ℕ, Bool}

-- BP_MB_COMMAND, BP_MB_A3, BP_MB_A4 and BP_MB_STATUS
pub data Box : Type 0 where
  command a3 a4 status : Box

-- The device's get_mailbox and set_mailbox, and acq32_waitInt, which is true for a timeout. `L` is
-- the state of whatever is at the other end.
pub record Bus (L : Type 0) : Type 0 where
  pub get_mailbox : Box → L → ℕ × L
  pub set_mailbox : Box → ℕ → L → L
  pub wait_int : L → Bool × L

-- -ETIMEDOUT and -EACQ32_NO_INCOMING_I2O; success is `none`.
pub data Error : Type 0 where
  timed_out no_incoming_i2o : Error

pub record Device (L : Type 0) : Type 0 where
  pub link : L
  pub use_interrupts : Bool
  pub channel_mask : ℕ
  pub mode : ℕ
  pub cycle : ℕ
  pub error : Bool
  pub state : ℕ
  pub streaming : ℕ
  pub streaming_enabled : Bool
  pub nchannels : ℕ
  pub total_sample_length : ℕ
  pub i2o_last_id_out : ℕ
  pub i2o_packets_outgoing : ℕ
