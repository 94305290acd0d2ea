-- ===== src/Server/ProgramExamples.antt =====
-- Tests of `main` of the server: a pool of one thread, two clients, then an interrupt.
use tavernmx.Common.{◌≡◌, refl, ℕ, true, false, none, some, List, [], ◌∷◌, ◌++◌}
use tavernmx.Common.Result.{transport_error}
use tavernmx.Json.Sample.{sample_json}
use tavernmx.Ssl
use tavernmx.Ssl.{Write, write_loop}
use tavernmx.Messaging.Block.{set_payload}
use tavernmx.Messaging.Pack.{pack_message, push_messages, message_to_json}
use tavernmx.Transport.{send_message, send_message_block, is_connected}
use tavernmx.Server.Manager.{new_manager}
use tavernmx.Server.Program.{Round, returns_zero, unwinds, main}
use tavernmx.Server.Capacity.{AreQuiet, main_lem}
use tavernmx.Server.Failing.{refusal_is_fatal, interrupt_is_lost}

abbrev quiet_round : Round
quiet_round = record {
  interrupted = false;
  shutdown_signalled = false;
  interrupted_between = false;
  bound = true;
  incoming = some 1;
  is_connected = λ c. true;
  tasks_running = 0;
  thread_count = 1;
  answers = record { has_ssl = true; shut_down = false };
  writes = record { negative = false; writes_nothing = false; should_retry = false } ∷ [];
}

abbrev full_round : Round
full_round = record quiet_round { incoming = some 2; tasks_running = 1 }

abbrev interrupt : Round
interrupt = record quiet_round { interrupted = true; incoming = none }

abbrev rounds : List Round
rounds = quiet_round ∷ full_round ∷ []

rounds-AreQuiet : AreQuiet sample_json rounds
unfolding send_message send_message_block is_connected Ssl.send_message write_loop pack_message
    push_messages message_to_json set_payload
rounds-AreQuiet = (
  record { calm = refl; calm_between = refl; open_still = refl; refusal_goes = tt },
  (record { calm = refl; calm_between = refl; open_still = refl; refusal_goes = (_, refl) }, tt),
)

main_lem_example :
    main sample_json true (rounds ++ interrupt ∷ [])
    ≡ (returns_zero, record { connections = new_manager; served = 1 ∷ []; refused = 2 ∷ [] })
main_lem_example = main_lem sample_json rounds [] interrupt rounds-AreQuiet refl

-- The refused client is already gone.
abbrev broken_round : Round
broken_round = record full_round {
  writes = record { negative = true; writes_nothing = false; should_retry = false } ∷ [];
}

refusal_is_fatal_example :
    (active : List ℕ) × (main sample_json true (rounds ++ broken_round ∷ quiet_round ∷ []) ≡ (
      unwinds transport_error,
      record {
        connections = record { active_connections = active; accept_bio = true };
        served = 1 ∷ [];
        refused = 2 ∷ [];
      },
    ))
unfolding send_message send_message_block is_connected Ssl.send_message write_loop pack_message
    push_messages message_to_json set_payload
refusal_is_fatal_example =
    refusal_is_fatal sample_json rounds (quiet_round ∷ []) broken_round 2 transport_error
      rounds-AreQuiet refl refl refl refl refl refl

abbrev late_interrupt : Round
late_interrupt = record quiet_round { interrupted_between = true; incoming = none }

interrupt_is_lost_example :
    main sample_json true (rounds ++ late_interrupt ∷ (rounds ++ interrupt ∷ [])) ≡ (
      returns_zero,
      record { connections = new_manager; served = 1 ∷ 1 ∷ []; refused = 2 ∷ 2 ∷ [] },
    )
interrupt_is_lost_example =
    interrupt_is_lost sample_json rounds rounds [] late_interrupt interrupt rounds-AreQuiet refl
      refl refl refl refl rounds-AreQuiet refl
