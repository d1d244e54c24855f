-- ===== src/MboxSlave/Incoming/Sequence.antt =====
-- The numbers of the messages that mboxProcessI2OIncoming takes.
use acq200_firmware.Prelude.{
  ℕ, ◌+◌, ◌*◌, ◌/◌, ◌%◌, ◌≡◌, refl, sym, ap, ◌∙◌, arith, Bool, true, false, some, List, [], ◌∷◌,
  ◌++◌, append-nil, append_assoc, bit_and, bit_or, bit_and_mask, bit_or-div, bit_or-zero, ◌==◌,
  ◌!=◌, if◌then◌else◌, length, inl, inr, Bool-cases,
}
use acq200_firmware.MboxSlave.Incoming.{
  Message, make_id_dtacq, get_idn, mt_id, mt_pram, mt_command_packet, mtc_test, mtc_debug_text,
  mtc_hostbound, mtc_acqbound, Event, unexpected_id, debug_line, hostbound, acqbound,
  not_implemented, bad_type, returned, Phase, Incoming, report, process_test, dispatch, check_id,
  take_message, poll_message, process_incoming,
}

-- The reports of an unexpected number.
abbrev unexpected_one : Event → List Event
unexpected_one (unexpected_id want got) = unexpected_id want got ∷ []
unexpected_one (debug_line text) = []
unexpected_one (hostbound message) = []
unexpected_one (acqbound message) = []
unexpected_one (not_implemented code) = []
unexpected_one (bad_type type) = []
unexpected_one (returned message) = []

abbrev pub unexpected : List Event → List Event
unexpected [] = []
unexpected (e ∷ es) = unexpected_one e ++ unexpected es

unexpected-append : (xs ys : List Event) → unexpected (xs ++ ys) ≡ unexpected xs ++ unexpected ys
unexpected-append [] ys = refl
unexpected-append (x ∷ xs) ys =
    ap (λ t. unexpected_one x ++ t) (unexpected-append xs ys)
    ∙ sym (append_assoc (unexpected_one x) (unexpected xs) (unexpected ys))

-- `n` differs from `m` in nothing that numbers messages.
record SameCount (m n : Incoming) : Type 0 where
  count_kept : n.expected_id ≡ m.expected_id
  state_kept : n.state ≡ m.state
  reports_kept : unexpected n.events ≡ unexpected m.events

report-SameCount : (e : Event) (m : Incoming) → unexpected_one e ≡ [] → SameCount m (report e m)
report-SameCount e m none_in = record {
  count_kept = refl;
  state_kept = refl;
  reports_kept =
      unexpected-append m.events (e ∷ [])
      ∙ ap (λ t. unexpected m.events ++ (t ++ [])) none_in
      ∙ append-nil (unexpected m.events);
}

SameCount-if :
    (b : Bool) (m x y : Incoming) → SameCount m x → SameCount m y → SameCount m (if b then x else y)
SameCount-if true m x y p q = p
SameCount-if false m x y p q = q

dispatch-SameCount : (message : Message) (m : Incoming) → SameCount m (dispatch message m)
unfolding dispatch process_test
dispatch-SameCount message m =
    let pram = mt_pram message.type in
    SameCount-if (mt_id message.type == mt_command_packet) m _ _
      (SameCount-if (pram == mtc_debug_text) m _ _
        (report-SameCount (debug_line message.payload) m refl)
        (SameCount-if (pram == mtc_test) m (process_test (some message) m) _
          record { count_kept = refl; state_kept = refl; reports_kept = refl }
          (SameCount-if (pram == mtc_hostbound) m _ _ (report-SameCount (hostbound message) m refl)
            (SameCount-if (pram == mtc_acqbound) m _ _ (report-SameCount (acqbound message) m refl)
              (report-SameCount (not_implemented pram) m refl)))))
      (report-SameCount (bad_type message.type) m refl)

!=_false : (a b : ℕ) → (a != b) ≡ false → a ≡ b
!=_false a b = ground arith

!=_self : (a : ℕ) → (a != a) ≡ false
!=_self a = ground arith

checked_count :
    (message : Message) (m : Incoming) → (check_id message m).expected_id ≡ get_idn message.id
unfolding check_id
checked_count message m = elim (Bool-cases (get_idn message.id != m.expected_id)) [
  | inl e ↦ rw e refl
  | inr e ↦ rw e (sym (!=_false (get_idn message.id) m.expected_id e))
]

pub take_message-next :
    (message : Message) (m : Incoming)
    → (take_message message m).expected_id ≡ (get_idn message.id + 1) % 128
unfolding take_message
take_message-next message m =
    ap (λ k. bit_and (k + 1) 0x7f)
      ((dispatch-SameCount message (check_id message m)).count_kept ∙ checked_count message m)
    ∙ bit_and_mask 7 (get_idn message.id + 1)

-- The number in the header that the host makes.
idn-make_id : (n : ℕ) → get_idn (make_id_dtacq n) ≡ n % 128
idn-make_id n =
    let number = bit_and n 0x7f in
    let high : bit_or (number * 256) 0xdc / 256 ≡ n % 128 =
      bit_or-div 8 (number * 256) 0xdc
      ∙ bit_or-zero (number * 256 / 256)
      ∙ omega (arith, bit_and_mask 7 n) in
    omega (arith, high)

check_id_expected :
    (message : Message) (m : Incoming) → get_idn message.id ≡ m.expected_id → check_id message m ≡ m
unfolding check_id
check_id_expected message m e = rw (ap (λ k. k != m.expected_id) e ∙ !=_self m.expected_id) refl

-- A message that has the expected number makes no report of its number.
take_message_reports :
    (message : Message) (m : Incoming)
    → get_idn message.id ≡ m.expected_id
    → unexpected (take_message message m).events ≡ unexpected m.events
unfolding take_message
take_message_reports message m e =
    let checked = check_id message m in
    (report-SameCount (returned message) (dispatch message checked) refl).reports_kept
    ∙ (dispatch-SameCount message checked).reports_kept
    ∙ ap (λ c. unexpected c.events) (check_id_expected message m e)

take_message_state : (message : Message) (m : Incoming) → (take_message message m).state ≡ m.state
unfolding take_message check_id
take_message_state message m =
    (dispatch-SameCount message (check_id message m)).state_kept
    ∙ same_state (get_idn message.id != m.expected_id)
  where
    same_state :
        (b : Bool)
        → (if b
            then report
                (unexpected_id m.expected_id (get_idn message.id))
                (record m { expected_id = get_idn message.id })
            else m).state
          ≡ m.state
    same_state true = refl
    same_state false = refl

-- Messages that the host numbers with MAKE_ID_DTACQ from `n` on.
abbrev pub Numbered : ℕ → List Message → Type 0
Numbered n [] = Unit
Numbered n (message ∷ rest) = (message.id ≡ make_id_dtacq n) × Numbered (n + 1) rest

abbrev pub poll_all : List Message → Incoming → Incoming
poll_all [] m = m
poll_all (message ∷ rest) m = poll_all rest (process_incoming Phase.poll (some message) m)

poll_enabled :
    (message : Message) (m : Incoming)
    → m.state ≡ Phase.enable
    → process_incoming Phase.poll (some message) m ≡ take_message message m
unfolding process_incoming poll_message
poll_enabled message m e = rw e refl

-- However many messages the host sends with the numbers that its counter gives, an enabled slave
-- that expects the first of them reports none as out of sequence, and ends expecting the next.
pub poll_all-Numbered :
    (messages : List Message) (n : ℕ) (m : Incoming)
    → Numbered n messages
    → m.state ≡ Phase.enable
    → m.expected_id ≡ n % 128
    → (unexpected (poll_all messages m).events ≡ unexpected m.events)
      × ((poll_all messages m).expected_id ≡ (n + length messages) % 128)
poll_all-Numbered [] n m numbered enabled expected = (refl, expected ∙ omega arith)
poll_all-Numbered (message ∷ rest) n m (is_next, numbered) enabled expected =
    let idn : get_idn message.id ≡ n % 128 = ap get_idn is_next ∙ idn-make_id n in
    let taken = process_incoming Phase.poll (some message) m in
    let step : taken ≡ take_message message m = poll_enabled message m enabled in
    let ih =
      poll_all-Numbered rest (n + 1) taken numbered
        (ap (λ t. t.state) step ∙ take_message_state message m ∙ enabled)
        (ap (λ t. t.expected_id) step
          ∙ take_message-next message m
          ∙ ap (λ k. (k + 1) % 128) idn
          ∙ omega arith) in
    (
      ih.0
          ∙ ap (λ t. unexpected t.events) step
          ∙ take_message_reports message m (idn ∙ sym expected),
      ih.1 ∙ omega arith,
    )
