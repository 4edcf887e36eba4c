-- ===== src/Multiplexer.antt =====
-- src/multiplexer.cpp: the event dispatcher, with src/executor.cpp.
--
-- What the process does to the outside is a list of effects: a call of an observer, with the
-- arguments that it gets, and a command handed to the shell. `Shared` is what the multiplexer
-- reads and writes; what the other threads and the signal handlers do to it between two rounds of
-- the loop is a list of `Outside` steps.
pub mod Observers
pub mod Serving
pub mod Progress
pub mod Ending
pub mod Round
pub mod Run
use pointer_force.Prelude.{
  ℕ, zero, suc, ◌+◌, ◌-◌, ◌*◌, ◌%◌, ◌≤◌, ◌<◌, min, String, ◌≡◌, refl, sym, ap, subst, ◌∙◌, ◌≢◌, ◌↔◌,
  ◌⊎◌, inl, inr, Bool, true, false, not, ◌&&◌, ◌||◌, Option, none, some, List, [], ◌∷◌, ◌++◌, map,
  append_assoc, append-nil, arith, eq_iff, eq_refl, ltb, leb, nat_beq, nat_beq_iff, if◌then◌else◌,
  Eq, ◌==◌, is_empty, Bool-cases, Option-cases, length, length-append, get_elem?, In,
  In-append_left, In-append_right, In-append, All, All-append, Outcome, returns, throws,
  Outcome-cases, >>=-eq-returns, Ensures, Ensures-returns, Ensures-if, Ensures-bind, Returns,
  Returns-bind, Returns-if, Returns-after, ◌>>=◌, ◌>>◌, ℤ, pos, negsuc, is_negative, int_beq,
  int_beq_iff, string_eq, int_eq, nat_eq,
}
use pointer_force.Assoc.{Assoc, assign, erase}
use pointer_force.Common.{Config, InputEvent, key_press}
use pointer_force.Json.{Json, Bytes}
use pointer_force.Mapper.{Table, init, lookup}
use pointer_force.Config.{load}
use pointer_force.EventQueue.{EventQueue, push, pop}

-- An observer is known by the name under which its calls are recorded.
abbrev pub Observer : Type 0
Observer = ℕ

pub data Effect : Type 0 where
  notified : ℕ → Observer → InputEvent → String → Effect
  executed : String → Effect

pub record Shared : Type 0 where
  pub queue : EventQueue
  pub table : Table
  pub config : Config
  pub observers : Assoc ℕ Observer
  pub next_obs_id : ℕ
  pub is_running : Bool
  pub reload : Bool

unfoldable pub add_observer : Observer → Shared → ℕ × Shared
add_observer obs s = (
  s.next_obs_id,
  record s { observers = assign s.next_obs_id obs s.observers; next_obs_id = s.next_obs_id + 1 },
)

unfoldable pub remove_observer : ℕ → Shared → Shared
remove_observer id s = record s { observers = erase id s.observers }

-- The map is copied under the lock, and then each observer of the copy is called without it, also
-- one that is taken out meanwhile. The effect is the call, with its arguments; `run` takes a call to
-- return. The observer that src/control.cpp registers drops what is not a press, and sends the rest
-- to its client by a ::write that may block for good.
unfoldable pub notify : Assoc ℕ Observer → InputEvent → String → List Effect
notify [] ev cmd = []
notify ((id, obs) ∷ rest) ev cmd = notified id obs ev cmd ∷ notify rest ev cmd

-- Executor::run: an empty command is refused.
unfoldable pub run_command : String → List Effect
run_command cmd = if is_empty cmd then [] else executed cmd ∷ []

abbrev pub value_or : Option String → String → String
value_or none d = d
value_or (some cmd) d = cmd

-- The part of a round that handles one event.
unfoldable pub handle_event : Table → Assoc ℕ Observer → InputEvent → List Effect
unfolding run_command
handle_event table observers ev =
    if int_beq ev.value key_press
    then (let cmd = value_or (lookup table ev.device_id ev.code) "" in
        notify observers ev cmd ++ (if is_empty cmd then [] else run_command cmd))
    else notify observers ev ""

pub data Outside : Type 0 where
  event_pushed : InputEvent → Outside
  terminate_signal reload_signal : Outside
  observer_added : Observer → Outside
  observer_removed : ℕ → Outside
  -- the control server edited or reloaded
  table_changed : Table → Outside
  config_changed : Config → Outside

unfoldable pub outside_step : Outside → Shared → Shared
outside_step (event_pushed ev) s = record s { queue = push ev s.queue }
outside_step terminate_signal s = record s { is_running = false }
outside_step reload_signal s = record s { reload = true }
outside_step (observer_added obs) s = (add_observer obs s).1
outside_step (observer_removed id) s = remove_observer id s
outside_step (table_changed t) s = record s { table = t }
outside_step (config_changed c) s = record s { config = c }

unfoldable pub outside_steps : List Outside → Shared → Shared
outside_steps [] s = s
outside_steps (o ∷ os) s = outside_steps os (outside_step o s)

abbrev pub reloaded : Shared → Bool × Config → Shared
reloaded s (true, c) = record s { config = c; table = init c; reload = false }
reloaded s (false, c) = record s { config = c; reload = false }

abbrev pub handle_popped : Shared → Option InputEvent → List Effect
handle_popped s none = []
handle_popped s (some ev) = handle_event s.table s.observers ev

unfoldable pub pop_and_handle : Shared → List Effect × Shared
pop_and_handle s =
    let (ev, queue) = pop s.queue in
    let s' : Shared = record s { queue = queue } in (handle_popped s' ev, s')

module _ (J : Json) (input_code : String → ℕ) (files : String → Option Bytes) where
  -- if (g_reload.exchange(false)) …
  unfoldable pub reload_if_asked : Shared → Outcome Shared
  reload_if_asked s =
      if s.reload
      then (do
        result ← load J input_code files s.config.config_path s.config
        returns (reloaded s result))
      else returns s

  -- One round of the loop. What another thread does between its reload, its pop, its lookup and its
  -- copy of the observers is listed before or after the round: each of the four reads one field of
  -- the state, and a step on another field makes no difference to it.
  unfoldable pub round : Shared → Outcome (List Effect × Shared)
  round s = do s' ← reload_if_asked s; returns (pop_and_handle s')

  -- The loop, over what happens outside before each test of `g_running`. With the list at its end
  -- the loop still runs, and has done so much.
  unfoldable pub run : List (List Outside) → Shared → Outcome (List Effect × Shared)
  run [] s = returns ([], s)
  run (os ∷ rest) s =
      let s' = outside_steps os s in
      elim s'.is_running [
        | false ↦ returns ([], s')
        | true ↦ do
          (effects, s'') ← round s'
          (more, last) ← run rest s''
          returns (effects ++ more, last)
      ]
