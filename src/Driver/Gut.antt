-- ===== src/Driver/Gut.antt =====
-- The driver's phase, event and clock commands: make_gut_cmd and acq32_SetPhase to
-- acq32_ReserveAO of acq32_core.c.
pub mod Words
use acq200_firmware.Prelude.{
  ℕ, ◌+◌, ◌-◌, Bool, true, false, Option, none, some, List, [], ◌∷◌, bit_or, u32, ◌<<<◌, ◌==◌,
  if◌then◌else◌,
}
use acq200_firmware.Busprot.{set_funcode, set_a1, set_a2}
use acq200_firmware.Busprot.Ci
use acq200_firmware.Driver.Bus.{Bus, Device, Error}
use acq200_firmware.Driver.Send.{
  Want, Response, a3_only, send_command, send_command_a3_a4, send_query,
}
use acq200_firmware.Driver.Commands.{on_link, value_or}

-- enum FX, less the FX_NONE that make_gut_cmd asserts against
pub data Fx : Type 0 where
  ai ao do_ : Fx

abbrev pub fx_code : Fx → ℕ
fx_code Fx.ai = 0x80
fx_code Fx.ao = 0x40
fx_code Fx.do_ = 0x20

-- enum SUBJECT: PH_n is PH_REQUEST + n, and EV_n is EV_REQUEST + n.
pub data Subject : Type 0 where
  null : Subject
  phase event : ℕ → Subject

abbrev pub subject_code : Subject → ℕ
subject_code Subject.null = 0
subject_code (Subject.phase n) = n
subject_code (Subject.event n) = 0x10 + n

pub make_gut_cmd : ℕ → Fx → Subject → ℕ
make_gut_cmd cmd fx subject = set_funcode cmd + set_a2 (bit_or (fx_code fx) (subject_code subject))

-- enum EC and the parameters of struct EventConditionDef
pub data Condition : Type 0 where
  none_ true_ soft : Condition
  trigger_rising trigger_falling : ℕ → Condition
  data_above data_below : ℕ → ℕ → ℕ → Condition

-- The command word, a3 and a4 of an event's condition.
pub event_words : Fx → Subject → Condition → ℕ × ℕ × ℕ
event_words fx ev Condition.none_ = (make_gut_cmd 0 fx ev + (set_funcode b'2' + set_a1 0), 0, 0)
event_words fx ev Condition.true_ = (make_gut_cmd 0 fx ev + (set_funcode b'2' + set_a1 1), 0, 0)
event_words fx ev Condition.soft = (make_gut_cmd 0 fx ev + (set_funcode b'2' + set_a1 2), 0, 0)
event_words fx ev (Condition.trigger_rising bit) =
    (make_gut_cmd 0 fx ev + (set_funcode b'2' + set_a1 3), bit, 0)
event_words fx ev (Condition.trigger_falling bit) =
    (make_gut_cmd 0 fx ev + (set_funcode b'2' + set_a1 4), bit, 0)
event_words fx ev (Condition.data_above channel below above) =
    (set_funcode b't' + set_a1 channel, below, above)
event_words fx ev (Condition.data_below channel below above) =
    (set_funcode b't' + set_a1 channel, below, above)

module _ {L : Type 0} (bus : Bus L) where
  pub set_phase : Fx → Subject → ℕ → Device L → Option Error × Device L
  set_phase fx ph nsamples d =
      on_link bus
        (send_command_a3_a4 bus d.use_interrupts (make_gut_cmd b'1' fx ph) ((nsamples, none) ∷ []))
        d

  -- acq32_GetPhase returns the value whether or not the query fails: `none` where it was never set.
  pub get_phase : Fx → Subject → ℕ → Device L → Option ℕ × Device L
  get_phase fx ph property d =
      let query = Ci.done + make_gut_cmd b'1' fx ph + set_a1 property in
      let (error, response, link) = send_query bus d.use_interrupts query a3_only d.link in
      (response.a3, record d { link = link })

  pub set_event : Fx → Subject → Condition → Device L → Option Error × Device L
  set_event fx ev condition d =
      let (command, a3, a4) = event_words fx ev condition in
      on_link bus (send_command_a3_a4 bus d.use_interrupts command ((a3, some a4) ∷ [])) d

  -- The type and value that acq32_GetEvent puts together.
  abbrev event_value : Option ℕ → Option ℕ → Option ℕ
  event_value (some type) (some value) = some (bit_or (u32 (type <<< 8)) value)
  event_value _ _ = none

  pub get_event : Fx → Subject → Device L → Option ℕ × Device L
  get_event fx ev d =
      let query = Ci.done + make_gut_cmd b'2' fx ev + set_a1 0 in
      let want : Want = record { a1 = true; a2 = false; a3 = true; a4 = false } in
      let (error, response, link) = send_query bus d.use_interrupts query want d.link in
      (event_value response.a1 response.a3, record d { link = link })

  pub fire_event : Fx → Subject → Device L → Option Error × Device L
  fire_event fx ev d = on_link bus (send_command bus d.use_interrupts (make_gut_cmd b'3' fx ev)) d

  pub set_clock : Fx → ℕ → Device L → Option Error × Device L
  set_clock fx clk_source d =
      on_link bus
        (send_command bus d.use_interrupts (make_gut_cmd b'4' fx Subject.null + set_a1 clk_source))
        d

  pub clock_now : Device L → Option Error × Device L
  clock_now d = on_link bus (send_command bus d.use_interrupts (set_funcode b'5')) d

  pub reset_gut : Device L → Option Error × Device L
  reset_gut d = on_link bus (send_command bus d.use_interrupts (set_funcode b'6')) d

  pub reserve_ao : ℕ → Device L → Option Error × Device L
  reserve_ao nreserve d =
      on_link bus
        (send_command_a3_a4 bus d.use_interrupts (set_funcode b'a') ((nreserve, none) ∷ [])) d
