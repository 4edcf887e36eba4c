-- ===== src/System.antt =====
-- The running daemon: its threads as one step relation.
--
-- From the start of the event loop on (src/main.cpp) four kinds of threads share the state: the
-- reader threads push events, the signal handlers set the two flags, each connection of the
-- control server handles its lines, and the main thread runs rounds of the multiplexer. A step is
-- what one of them does under a lock, in any order. The configuration file may be another one at
-- each step. A stream of events is two steps, its beginning and its end. A round is a step up to
-- its copy of the observers; the calls of the copied observers and the command are steps of their
-- own, between which the other threads go on, and the next round waits for them. A call that blocks
-- for good is one that is never performed.
pub mod Applied
pub mod Consistent
pub mod Lines
pub mod Reached
pub mod Started
pub mod Streams
pub mod Unbinding
use pointer_force.Prelude.{
  ℕ, zero, suc, ◌+◌, ◌-◌, ◌*◌, ◌%◌, ◌≤◌, ◌<◌, min, String, ◌≡◌, refl, sym, ap, subst, ◌∙◌, ◌≢◌, ◌↔◌,
  ◌⊎◌, inl, inr, Bool, true, false, not, ◌&&◌, ◌||◌, Option, none, some, List, [], ◌∷◌, ◌++◌, map,
  append_assoc, append-nil, arith, eq_iff, eq_refl, ltb, leb, nat_beq, nat_beq_iff, if◌then◌else◌,
  Eq, ◌==◌, is_empty, Bool-cases, Option-cases, length, length-append, get_elem?, In,
  In-append_left, In-append_right, In-append, All, All-append, Outcome, returns, throws,
  Outcome-cases, >>=-eq-returns, Ensures, Ensures-returns, Ensures-if, Ensures-bind, Returns,
  Returns-bind, Returns-if, Returns-after, ◌>>=◌, ◌>>◌, ℤ, pos, negsuc, is_negative, int_beq,
  int_beq_iff, string_eq, int_eq, nat_eq,
}
use pointer_force.Assoc.{Assoc, find, erase}
use pointer_force.Common.{Config, InputEvent}
use pointer_force.Json.{Json, Bytes}
use pointer_force.Mapper.{init}
use pointer_force.EventQueue.{empty_queue}
use pointer_force.DeviceManager.{DeviceInfo}
use pointer_force.Multiplexer.{
  Shared, Observer, Effect, Outside, event_pushed, terminate_signal, reload_signal, outside_step,
  add_observer, remove_observer, round,
}
use pointer_force.Control.{Turn, handle_line}

-- `streams` are the event streams that are open: the id of each and the client. `pending` is what
-- the last round has still to do.
pub record State : Type 0 where
  pub shared : Shared
  pub streams : Assoc ℕ Observer
  pub pending : List Effect

pub data Signal : Type 0 where
  sigterm sigint sighup : Signal

-- Daemon::install_signal_handlers
abbrev pub handler : Signal → Outside
handler sigterm = terminate_signal
handler sigint = terminate_signal
handler sighup = reload_signal

-- Where the loop begins, with the configuration that was loaded.
unfoldable pub launch : Config → State
launch config = record {
  shared = record {
    queue = empty_queue;
    table = init config;
    config = config;
    observers = [];
    next_obs_id = 0;
    is_running = true;
    reload = false;
  };
  streams = [];
  pending = [];
}

module _ (J : Json) (input_code : String → ℕ) where
  pub data Step (s : State) : List Effect → State → Type 0 where
    pressed :
        (ev : InputEvent)
        → Step s [] (record s { shared = outside_step (event_pushed ev) s.shared })
    signalled :
        (signal : Signal) → Step s [] (record s { shared = outside_step (handler signal) s.shared })
    answered :
        (files : String → Option Bytes) (info : List DeviceInfo) (client : Observer) (line : Bytes)
        {turn : Turn}
        → handle_line J input_code files info client [] line s.shared ≡ returns turn
        → Step s [] (record s { shared = turn.state })
    subscribed :
        (client : Observer)
        → Step s [] (record s {
          shared = (add_observer client s.shared).1;
          streams = ((add_observer client s.shared).0, client) ∷ s.streams;
        })
    unsubscribed :
        (id : ℕ) {client : Observer}
        → find id s.streams ≡ some client
        → Step s []
            (record s { shared = remove_observer id s.shared; streams = erase id s.streams })
    dispatched :
        (files : String → Option Bytes) {effects : List Effect} {after : Shared}
        → s.pending ≡ []
        → s.shared.is_running ≡ true
        → round J input_code files s.shared ≡ returns (effects, after)
        → Step s [] (record s { shared = after; pending = effects })
    performed :
        (effect : Effect) (rest : List Effect)
        → s.pending ≡ effect ∷ rest
        → Step s (effect ∷ []) (record s { pending = rest })

  -- What is reached from a launch.
  pub data Reach (config : Config) : State → Type 0 where
    launched : Reach config (launch config)
    later :
        {s t : State} {effects : List Effect} → Reach config s → Step s effects t → Reach config t
