-- ===== src/Main.antt =====
-- src/main.cpp: the command line, the start and the end of the program.
pub mod Instance
use pointer_force.Prelude.{
  ℕ, zero, suc, ◌+◌, ◌-◌, ◌*◌, ◌%◌, ◌≤◌, ◌<◌, min, String, ◌≡◌, refl, sym, ap, subst, ◌∙◌, ◌≢◌, ◌↔◌,
  ◌⊎◌, inl, inr, Bool, true, false, not, ◌&&◌, ◌||◌, Option, none, some, List, [], ◌∷◌, ◌++◌, map,
  append_assoc, append-nil, arith, eq_iff, eq_refl, ltb, leb, nat_beq, nat_beq_iff, if◌then◌else◌,
  Eq, ◌==◌, is_empty, Bool-cases, Option-cases, length, length-append, get_elem?, In,
  In-append_left, In-append_right, In-append, All, All-append, Outcome, returns, throws,
  Outcome-cases, >>=-eq-returns, Ensures, Ensures-returns, Ensures-if, Ensures-bind, Returns,
  Returns-bind, Returns-if, Returns-after, ◌>>=◌, ◌>>◌, ℤ, pos, negsuc, is_negative, int_beq,
  int_beq_iff, string_eq, int_eq, nat_eq,
}
use pointer_force.Common.{Config, default_control_socket, default_config_file}
use pointer_force.Json.{Json, Bytes}
use pointer_force.Config.{load, validate}
use pointer_force.Daemon.{
  Machine, KillAnswer, write_pid, remove_pid, is_running, ForkAnswer, Daemonized, daemonized,
  daemonize_failed, parent_exits, daemonize,
}

pub record Flags : Type 0 where
  pub config_path : String
  pub cli_daemon : Bool
  pub cli_foreground : Bool

abbrev pub default_flags : Flags
default_flags = record {
  config_path = default_config_file;
  cli_daemon = false;
  cli_foreground = false;
}

-- `none` for the flags if the program ends at once, with its exit status.
pub data Parsed : Type 0 where
  ends : ℕ → Parsed
  goes_on : Flags → Parsed

unfoldable pub parse_args : List String → Flags → Parsed
parse_args [] f = goes_on f
parse_args (arg ∷ []) f =
    if arg == "-h"
    then ends 0
    else if arg == "-v"
    then ends 0
    else if arg == "-d"
    then goes_on (record f { cli_daemon = true })
    else if arg == "-f"
    then goes_on (record f { cli_foreground = true })
    else ends 1
parse_args (arg ∷ next ∷ args) f =
    if arg == "-h"
    then ends 0
    else if arg == "-v"
    then ends 0
    else if arg == "-d"
    then parse_args (next ∷ args) (record f { cli_daemon = true })
    else if arg == "-f"
    then parse_args (next ∷ args) (record f { cli_foreground = true })
    else if arg == "-c"
    then parse_args args (record f { config_path = next })
    else ends 1

-- What `Config` is built with.
abbrev pub default_config : Config
default_config = record {
  devices = [];
  daemon_mode = false;
  debug = false;
  control_socket = default_control_socket;
  config_path = default_config_file;
}

-- if (cli_daemon) …; if (cli_foreground) …
unfoldable pub override : Flags → Config → Config
override f c =
    let c' : Config = if f.cli_daemon then record c { daemon_mode = true } else c in
    if f.cli_foreground then record c' { daemon_mode = false; debug = true } else c'

-- The answers of the system to one start: kill, the two forks, setsid, the opening of the pid
-- file, the process's own pid, and how many devices open_all opens.
pub record Answers : Type 0 where
  pub kill : ℤ → KillAnswer
  pub first_fork : ForkAnswer
  pub setsid_works : Bool
  pub second_fork : ForkAnswer
  pub pid_opens : Bool
  pub pid : ℤ
  pub opened : Config → ℕ

pub data Started : Type 0 where
  exits : ℕ → Started
  runs : Config → Started

-- The devices are opened; without any the program gives up.
unfoldable pub open_devices : Answers → Config → Machine → Started × Machine
open_devices a c m = if nat_beq (a.opened c) 0 then (exits 1, remove_pid m) else (runs c, m)

-- After `daemonize`, the pid file is written.
unfoldable pub go_background : Daemonized → Answers → Config → Machine → Started × Machine
go_background daemonize_failed a c m = (exits 1, m)
go_background parent_exits a c m = (exits 0, m)
go_background daemonized a c m =
    let (wrote, m') = write_pid a.pid_opens a.pid m in
    if wrote then open_devices a c m' else (exits 1, m')

-- From the loaded configuration on.
unfoldable pub start_loaded : Answers → Config → Machine → Started × Machine
start_loaded a c m =
    if not (validate c)
    then (exits 1, m)
    else (let (running, m') = is_running a.kill m in
        if running
        then (exits 1, m')
        else if c.daemon_mode
        then go_background (daemonize a.first_fork a.setsid_works a.second_fork) a c m'
        else open_devices a c m')

abbrev pub after_load : Answers → Flags → Machine → Bool × Config → Started × Machine
after_load a f m (false, c) = (exits 1, m)
after_load a f m (true, c) = start_loaded a (override f c) m

module _ (J : Json) (input_code : String → ℕ) (files : String → Option Bytes) where
  unfoldable pub start : List String → Answers → Machine → Outcome (Started × Machine)
  start args a m = elim (parse_args args default_flags) [
    | ends status ↦ returns (exits status, m)
    | goes_on f ↦ do
      result ←
          load J input_code files f.config_path
            (record default_config { config_path = f.config_path })
      returns (after_load a f m result)
  ]

-- The end of a run that returned from the event loop.
unfoldable pub shut_down : Machine → ℕ × Machine
shut_down m = (0, remove_pid m)
