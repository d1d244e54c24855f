-- ===== src/Command/Gut.antt =====
-- The decoders of acq32_command.c for phases, events and their clocks: gutDecode, the event
-- conditions, and the commands made of them.
use acq200_firmware.Prelude.{
  ℕ, ◌+◌, ◌-◌, ◌/◌, ◌%◌, ◌^◌, Bool, true, false, ◌&&◌, ◌||◌, Option, none, some, List, [], ◌∷◌,
  length, bit_or, ltb, leb, ◌==◌, if◌then◌else◌, drop, get_or,
}
use acq200_firmware.Prelude.Int.{ℤ, pos, negsuc, is_negative, word_of, short_of}
use acq200_firmware.Driver.Gut.{Fx, Subject}
use acq200_firmware.Command.Text.{Str, text}
use acq200_firmware.Command.Types.{
  Acq32Path, MasterDriver, Decoder, str, dec, EventCondition, Method, arg, reply, report, help_or,
}
use acq200_firmware.Command.Tables.{
  lkup_key, key_of, or_text, fx_lut, subject_lut, phase_lut, condition_lut, clock_lut,
}
use acq200_firmware.Command.Capture.{verb_is}

-- What a command asks gutDecode for: no subject, a phase or an event.
pub data Request : Type 0 where
  no_subject ph_request ev_request : Request

-- gd->subject & subject
abbrev pub fits : Request → Subject → Bool
fits ph_request (Subject.phase n) = true
fits ev_request (Subject.event n) = true
fits request subject = false

-- The end of gutDecode: no match, an error, or what it has decoded; with the index it returns.
pub data Decoded : Type 0 where
  no_match : Decoded
  error : ℕ → Acq32Path → Decoded
  decoded : Fx → Subject → ℕ → Decoded

abbrev complain : Str → ℕ → Acq32Path → Decoded
complain message iarg p = error iarg (reply (str message ∷ []) p)

-- The argument that follows the subject, for a command that wants one.
abbrev want_args : Fx → Subject → Bool → List Str → ℕ → Acq32Path → Decoded
want_args fx subject wants argv iarg p =
    if wants
    then (if ltb (iarg + 1) (length argv)
        then decoded fx subject (iarg + 1)
        else complain (text "ERROR:wants args\n") (length argv) p)
    else decoded fx subject iarg

-- From the function on, which stands at `iarg + 1`. Without a subject a command that wants no
-- argument keeps its error flag.
pub gut_subject : Fx → Request → Bool → List Str → ℕ → Acq32Path → Decoded
gut_subject fx no_subject wants argv iarg p =
    if wants
    then (if ltb (iarg + 2) (length argv)
        then decoded fx Subject.null (iarg + 2)
        else complain (text "ERROR:wants args\n") iarg p)
    else error (iarg + 1) p
gut_subject fx request wants argv iarg p =
    if ltb (iarg + 2) (length argv)
    then elim (lkup_key (arg argv (iarg + 2)) subject_lut) [
      | none ↦ complain (text "ERROR:subject not recognised\n") iarg p
      | some subject ↦
          if fits request subject
          then want_args fx subject wants argv (iarg + 2) p
          else complain (text "ERROR: wrong subject\n") (length argv) p
    ]
    else complain (text "ERROR:please supply a subject\n") iarg p

unfoldable pub gut_decode : Str → Request → Bool → List Str → ℕ → Acq32Path → Decoded
gut_decode command request wants argv iarg p =
    if verb_is argv iarg command
    then (if ltb (iarg + 1) (length argv)
        then elim (lkup_key (arg argv (iarg + 1)) fx_lut) [
          | none ↦ complain (text "ERROR:fx must be one of AO, AI, DO\n") (length argv) p
          | some fx ↦ gut_subject fx request wants argv iarg p
        ]
        else complain (text "ERROR:please supply fx\n") (length argv) p)
    else no_match

-- What a command does with a decoded line; it returns what gutDecode does in the other cases.
abbrev pub on_decoded : Decoded → ℕ → Acq32Path → (Fx → Subject → ℕ → ℕ × Acq32Path) → ℕ × Acq32Path
on_decoded no_match iarg p act = (iarg, p)
on_decoded (error last q) iarg p act = (last, q)
on_decoded (decoded fx subject last) iarg p act = act fx subject last

pub str_get_fx : Fx → Str
str_get_fx Fx.ai = text "AI"
str_get_fx Fx.ao = text "AO"
str_get_fx Fx.do_ = text "DO"

abbrev is_di : Str → Bool
is_di token =
    (length token == 3)
    && ((get_or token 0 0 == b'D')
        && ((get_or token 1 0 == b'I')
            && (leb b'0' (get_or token 2 0) && leb (get_or token 2 0) b'5')))

-- The lines DIx of a trigger, as bits, or the complaint.
pub trigger_bits : List Str → ℕ → Option ℕ
trigger_bits [] bits = some bits
trigger_bits (token ∷ tokens) bits =
    let rest = trigger_bits tokens (bit_or bits (2 ^ (get_or token 2 0 - b'0'))) in
    if is_di token then rest else none

module _ (drvr : MasterDriver) where
  abbrev numbered : Bool → List Str → ℕ → ℤ → ℤ
  numbered given argv iarg default =
      if given then short_of (drvr.strtol (arg argv iarg)) else default

  -- The parameters of a condition from `iarg` on: EC_TRIGGER_*, EC_DATA_*, or none.
  pub condition_args : ℕ → List Str → ℕ → Acq32Path → Option EventCondition × Acq32Path
  condition_args ec argv iarg p =
      if (ec == 3) || (ec == 4)
      then (if ltb iarg (length argv)
          then elim (trigger_bits (drop iarg argv) 0) [
            | none ↦ (none, reply (str (text "ERROR DI def should be DI[0-5]\n") ∷ []) p)
            | some bits ↦ (some (EventCondition.trigger ec bits), p)
          ]
          else (none, reply (str (text "ERROR needs DI bit\n") ∷ []) p))
      else if (ec == 5) || (ec == 6)
      then (if ltb (iarg + 1) (length argv)
          then (
            some (
                EventCondition.threshold ec (short_of (drvr.strtol (arg argv iarg)))
                  (numbered (ec == 6) argv (iarg + 1) (negsuc 32767))
                  (numbered (ec == 5) argv (iarg + 1) (pos 32767))),
            p,
          )
          else (none, reply (str (text "ERROR wants ch th\n") ∷ []) p))
      else (some (EventCondition.plain ec), p)

  pub decode_event_condition : List Str → ℕ → Acq32Path → Option EventCondition × Acq32Path
  decode_event_condition argv iarg p = elim (lkup_key (arg argv iarg) condition_lut) [
    | none ↦ (
      none,
      reply
          (str (text "ERROR: failed to decode EVENT CONDITION ")
            ∷ str (arg argv iarg)
            ∷ str (text "\n")
            ∷ [])
          p,
    )
    | some ec ↦ condition_args ec argv (iarg + 1) p
  ]

  unfoldable pub do_set_phase : Decoder
  do_set_phase argv iarg p =
      help_or (text "setPhase f p n") (text "set phase samples") argv iarg p (
        on_decoded (gut_decode (text "setPhase") ph_request true argv iarg p) iarg p
          (λ fx subject last. (
            last + 1,
            report (text "ERROR:SetPhase failed ")
                (drvr.call (Method.set_phase fx subject (drvr.strtol (arg argv last))) p),
          )))

  abbrev got_phase : ℤ × Acq32Path → Acq32Path
  got_phase (value, p) =
      if is_negative value
      then reply (str (text "ERROR:GetPhase failed ") ∷ dec value ∷ str (text "\n") ∷ []) p
      else reply (dec value ∷ []) p

  unfoldable pub do_get_phase : Decoder
  do_get_phase argv iarg p =
      help_or (text "getPhase f p property") (text "get property") argv iarg p (
        on_decoded (gut_decode (text "getPhase") ph_request true argv iarg p) iarg p
          (λ fx subject last. (
            last + 1,
            elim (lkup_key (arg argv last) phase_lut) [
              | none ↦
                  reply
                    (str (text "ERROR:getPhase property not recognised ")
                      ∷ str (arg argv last)
                      ∷ str (text "\n")
                      ∷ [])
                    p
              | some property ↦ got_phase (drvr.call (Method.get_phase fx subject property) p)
            ],
          )))

  unfoldable pub do_set_event : Decoder
  do_set_event argv iarg p =
      help_or (text "setEventf E p") (text "set event property") argv iarg p (
        on_decoded (gut_decode (text "setEvent") ev_request true argv iarg p) iarg p
          (λ fx subject last.
            let (condition, q) = decode_event_condition argv last p in
            (
              length argv,
              elim condition [
                | none ↦ q
                | some ecd ↦ (drvr.call (Method.set_event fx subject ecd) q).1
              ],
            )))

  -- The loop over the six lines looks at bit 0 each time.
  abbrev line_text : ℕ → ℕ → Str
  line_text ev_type ev_value =
      if ((ev_type == 3) || (ev_type == 4)) && (ev_value % 2 == 1) then text "DI5" else []

  abbrev str_get_subject : Subject → Str
  str_get_subject Subject.null = text "no subject requested"
  str_get_subject (Subject.phase n) = if n == 1 then text "P1" else text "P2"
  str_get_subject (Subject.event n) =
      if n == 1 then text "E1" else if n == 2 then text "E2" else text "E3"

  abbrev got_event : Fx → Subject → ℤ × Acq32Path → Acq32Path
  got_event fx subject (ierrno, p) =
      if is_negative ierrno
      then reply (str (text "ERROR: GetEvent Failed\n") ∷ []) p
      else (let ev_type = word_of ierrno / 2 ^ 8 in
          let ev_value = word_of ierrno % 2 ^ 8 in
          reply
            (str (text "getEvent ")
              ∷ str (str_get_fx fx)
              ∷ str (text " ")
              ∷ str (str_get_subject subject)
              ∷ str (text " ")
              ∷ str (or_text (text "error") (key_of ev_type condition_lut))
              ∷ str (text " ")
              ∷ str (line_text ev_type ev_value)
              ∷ str (text "\n")
              ∷ [])
            p)

  unfoldable pub do_get_event : Decoder
  do_get_event argv iarg p = help_or (text "getEvent f E") (text "get event property") argv iarg p (
      on_decoded (gut_decode (text "getEvent") ev_request false argv iarg p) iarg p
        (λ fx subject last.
          (length argv, got_event fx subject (drvr.call (Method.get_event fx subject) p))))

  unfoldable pub do_fire_event : Decoder
  do_fire_event argv iarg p = help_or (text "fireEvent f E") (text "") argv iarg p (
      on_decoded (gut_decode (text "fireEvent") ev_request false argv iarg p) iarg p
        (λ fx subject last. (
          length argv,
          report (text "ERROR:FireEvent failed ") (drvr.call (Method.fire_event fx subject) p),
        )))

  unfoldable pub do_set_clock : Decoder
  do_set_clock argv iarg p =
      help_or (text "setClock f DIx") (text "select fxn clock source") argv iarg p (
        on_decoded (gut_decode (text "setClock") no_subject true argv iarg p) iarg p
          (λ fx subject last. elim (lkup_key (arg argv last) clock_lut) [
            | none ↦ (
              length argv,
              reply
                  (str (text "ERROR:SetClock failed, unknown subject ")
                    ∷ str (arg argv last)
                    ∷ str (text "\n")
                    ∷ [])
                  p,
            )
            | some cs ↦ (
              last + 1,
              report (text "ERROR:SetClock failed ") (drvr.call (Method.set_clock fx cs) p),
            )
          ]))

  unfoldable pub do_reset_gut : Decoder
  do_reset_gut argv iarg p = help_or (text "resetGUT") (text "") argv iarg p (
      if verb_is argv iarg (text "resetGUT")
      then (iarg + 1, report (text "ERROR:resetGUT failed ") (drvr.call Method.reset_gut p))
      else (iarg, p))

  unfoldable pub do_clock_now : Decoder
  do_clock_now argv iarg p =
      if verb_is argv iarg (text "clockNow")
      then (iarg + 1, report (text "ERROR:ClockNow failed ") (drvr.call Method.clock_now p))
      else (iarg, p)
