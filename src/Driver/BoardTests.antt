-- ===== src/Driver/BoardTests.antt =====
-- The commands for all boards on three boards, with links that acknowledge and links that do not.
use acq200_firmware.Prelude.{
  ℕ, ◌≡◌, ◌⊎◌, refl, ap, ◌∙◌, true, false, Option, none, some, List, [], ◌∷◌, arith,
}
use acq200_firmware.Busprot.{set_funcode}
use acq200_firmware.Driver.Bus.{Bus, Error, timed_out}
use acq200_firmware.Driver.Send.{max_timeout, send_command, command_word}
use acq200_firmware.Driver.Send.Polls.{send_command_lem, poll_ack_idle, poll_ack_seen}
use acq200_firmware.Driver.Commands.{dev_get_status}
use acq200_firmware.Driver.Slaves.{sis, each_slave, slaves_of, is_master_all}
use acq200_firmware.Driver.Slaves.Selected.{
  selected, path_mask, visited, each_of, each_of-nil, each_of-cons,
}
use acq200_firmware.Driver.Slaves.Visits.{each_slave-visited}
use acq200_firmware.Driver.Boards.{Board, Boards, put, on_board, set_arm_of, set_arm_all}
use acq200_firmware.Driver.Boards.Path.{IsOnPath}
use acq200_firmware.Driver.Boards.Once.{each_slave-once}
use acq200_firmware.Driver.Go.{busy, failed, dev_get_cycle, go_begin, go_all}
use acq200_firmware.Driver.Go.Busy.{go_all-busy}

-- A link that keeps the last word written and answers every read with `word`.
abbrev answering : ℕ → Bus ℕ
answering word = record {
  get_mailbox = λ box link. (word, link);
  set_mailbox = λ box value link. value;
  wait_int = λ link. (false, link);
}

abbrev dead : Bus ℕ
dead = answering 0

abbrev live : Bus ℕ
live = answering 0x80000000

abbrev board : Board ℕ
board = record {
  device = record {
    link = 0;
    use_interrupts = false;
    channel_mask = 0xff;
    mode = 0;
    cycle = 3;
    error = false;
    state = 0;
    streaming = 0;
    streaming_enabled = false;
    nchannels = 32;
    total_sample_length = 65536;
    i2o_last_id_out = 0;
    i2o_packets_outgoing = 0;
  };
  requested_post = 0;
  requested_pre = 0;
  actual_post = 1024;
  actual_pre = 0;
  itrigger = 0;
  contains_valid_data = true;
  clock_internal = 1000000;
  clock_divisor = 1;
  clock_di = 0;
  clock_do = 0;
  sample_tagging = 0;
  dio_dir = 0;
  dio_outputs = 0;
  dio_inputs = 0;
  input_nchannels = 32;
  output_nchannels = 0;
  input_vmax10 = 100;
  output_vmax10 = 0;
  set_arm_busy = false;
  wdt_start = 0;
  wdt_last_poll = 0;
  wdt_scheduled = false;
  cos_inhibit = false;
}

abbrev boards : Boards ℕ
boards iboard = board

-- The minor number 0x85 selects boards 0 and 2; the path's own device is board 1.
visited_three : visited 3 0x85 1 ≡ 0 ∷ 2 ∷ 1 ∷ []
unfolding visited selected path_mask slaves_of is_master_all
visited_three = refl

visited_self : visited 3 0 1 ≡ 1 ∷ []
unfolding visited selected path_mask slaves_of is_master_all
visited_self = refl

abbrev IsPolled : Board ℕ → Type 0
IsPolled b = b.device.use_interrupts ≡ false

arm_live : (b : Board ℕ) → IsPolled b → (set_arm_of live b).0 ≡ none
unfolding set_arm_of
arm_live b polled =
    let word = command_word live (set_funcode b'A') none none in
    let sent : send_command live false (set_funcode b'A') b.device.link ≡ (none, word) =
      send_command_lem live (set_funcode b'A') b.device.link
      ∙ poll_ack_seen live 0xfffff word 0x80000000 word refl refl in
    rw (polled, sent) refl

arm_dead : (b : Board ℕ) → IsPolled b → (set_arm_of dead b).0 ≡ some timed_out
unfolding set_arm_of
arm_dead b polled =
    let word = command_word dead (set_funcode b'A') none none in
    let sent : send_command dead false (set_funcode b'A') b.device.link ≡ (some timed_out, word) =
      send_command_lem dead (set_funcode b'A') b.device.link
      ∙ poll_ack_idle dead max_timeout word 0 refl refl in
    rw (polled, sent) refl

each_slave_example :
    each_slave 3 0x85 1 (on_board (set_arm_of live)) 5 sis boards
    ≡ some (each_of (on_board (set_arm_of live)) (visited 3 0x85 1) boards)
each_slave_example = each_slave-visited 3 0x85 1 (on_board (set_arm_of live)) (omega arith) boards

abbrev arm : ℕ → Boards ℕ → Option Error × Boards ℕ
arm = on_board (set_arm_of live)

arm_step :
    (iboard : ℕ) (rest : List ℕ) (w : Boards ℕ)
    → IsPolled (w iboard)
    → each_of arm (iboard ∷ rest) w ≡ each_of arm rest (put iboard (set_arm_of live (w iboard)).1 w)
arm_step iboard rest w polled =
    each_of-cons arm iboard rest w ∙ rw (arm_live (w iboard) polled) refl

abbrev first : Boards ℕ
first = put 0 (set_arm_of live board).1 boards

abbrev second : Boards ℕ
second = put 2 (set_arm_of live (first 2)).1 first

abbrev third : Boards ℕ
third = put 1 (set_arm_of live (second 1)).1 second

armed_three : each_slave 3 0x85 1 arm 5 sis boards ≡ some (none, third)
unfolding put
armed_three =
    each_slave_example
    ∙ ap some (
        ap (λ bs. each_of arm bs boards) visited_three
        ∙ arm_step 0 (2 ∷ 1 ∷ []) boards refl
        ∙ arm_step 2 (1 ∷ []) first refl
        ∙ arm_step 1 [] second refl
        ∙ each_of-nil arm third)

each_slave-once_example :
    (IsOnPath 3 0x85 1 2 × (third 2 ≡ (set_arm_of live board).1))
    ⊎ ((¬ IsOnPath 3 0x85 1 2) × (third 2 ≡ board))
each_slave-once_example =
    each_slave-once (set_arm_of live) 3 0x85 1 boards third 2 (omega arith) armed_three

abbrev begun : Boards ℕ
begun = (go_begin dead 3 0 1 10 2 boards).1

abbrev refused : Boards ℕ
refused = put 1 (set_arm_of dead (begun 1)).1 begun

begun-IsPolled : IsPolled (begun 1)
unfolding go_begin dev_get_cycle dev_get_status put
begun-IsPolled = refl

arm_fails : set_arm_all dead 3 0 1 begun ≡ some (some timed_out, refused)
unfolding set_arm_all
arm_fails =
    each_slave-visited 3 0 1 (on_board (set_arm_of dead)) (omega arith) begun
    ∙ ap some (
        ap (λ bs. each_of (on_board (set_arm_of dead)) bs begun) visited_self
        ∙ each_of-cons (on_board (set_arm_of dead)) 1 [] begun
        ∙ rw (arm_dead (begun 1) begun-IsPolled) refl)

go_all-busy_example :
    (go_all dead 3 0 1 10 2 true 5000 boards ≡ some (some (failed timed_out), refused))
    × (go_all dead 3 0 1 10 0 false 6000 refused ≡ some (some busy, refused))
go_all-busy_example =
    go_all-busy dead 3 0 1 10 2 0 true false 5000 6000 boards refused timed_out (omega arith) refl
      arm_fails
