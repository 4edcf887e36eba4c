-- ===== src/Tests/Events.antt =====
-- The queue, the dispatcher and the readers, on small inputs.
use pointer_force.Prelude.{
  ℕ, ◌≡◌, refl, ◌↔◌, true, false, some, [], ◌∷◌, ◌++◌, if◌then◌else◌, is_empty, In, returns, pos,
  int_beq, string_eq, int_eq, nat_eq,
}
use pointer_force.Common.{InputEvent, key_press}
use pointer_force.Mapper.{Table, lookup}
use pointer_force.EventQueue.{EventQueue, pushes, pops, shuts_down, run_calls}
use pointer_force.EventQueue.Order.{run_calls_fifo}
use pointer_force.Multiplexer.{Shared, Observer, notified, executed, handle_event, run}
use pointer_force.Multiplexer.Round.{command_of, In-handle_event, notified-handle_event}
use pointer_force.Multiplexer.Run.{run_drains, handle_all, quiet_rounds}
use pointer_force.Tests.Sample.{sample_json, sample_code}
use pointer_force.Tests.Loading.{files, old_config}

abbrev press : InputEvent
press = record {
  device_id = "mouse";
  device_path = "/dev/input/event3";
  code = pos 80;
  value = pos 1;
  timestamp = 0;
}

abbrev release : InputEvent
release = record press { value = pos 0; timestamp = 1 }

abbrev table : Table
table = ("mouse", (pos 80, "mute-mouse") ∷ []) ∷ ("*", (pos 80, "mute") ∷ []) ∷ []

abbrev waiting : EventQueue
waiting = record { q = press ∷ []; is_shutdown = false }

run_calls_fifo_example :
    (run_calls (pushes release ∷ pops ∷ shuts_down ∷ []) waiting).0
      ++ (run_calls (pushes release ∷ pops ∷ shuts_down ∷ []) waiting).1.q
    ≡ press ∷ release ∷ []
run_calls_fifo_example = run_calls_fifo (pushes release ∷ pops ∷ shuts_down ∷ []) waiting

abbrev state : Shared
state = record {
  queue = waiting;
  table = table;
  config = old_config;
  observers = (0, 7) ∷ [];
  next_obs_id = 1;
  is_running = true;
  reload = false;
}

In-handle_event_example : In (executed "mute-mouse") (handle_event table ((0, 7) ∷ []) press) ↔ (
    (press.value ≡ key_press)
    × (lookup table "mouse" (pos 80) ≡ some "mute-mouse")
    × (is_empty "mute-mouse" ≡ false))
In-handle_event_example = In-handle_event table ((0, 7) ∷ []) press "mute-mouse"

notified-handle_event_example :
    In (notified 0 7 release "") (handle_event table ((0, 7) ∷ []) release) ↔ (
      In {A = ℕ × Observer} (0, 7) ((0, 7) ∷ [])
      × (release ≡ release)
      × ("" ≡ (if int_beq release.value key_press then command_of table release else "")))
notified-handle_event_example = notified-handle_event table ((0, 7) ∷ []) release release 0 7 ""

abbrev asked : Shared
asked = record state { reload = true }

run_drains_example :
    run sample_json sample_code files (quiet_rounds (press ∷ [])) state
    ≡ returns (
      handle_all table ((0, 7) ∷ []) (press ∷ []),
      record state { queue = record waiting { q = [] } },
    )
run_drains_example = run_drains sample_json sample_code files (press ∷ []) state refl refl refl
