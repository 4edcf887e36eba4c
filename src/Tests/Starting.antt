-- ===== src/Tests/Starting.antt =====
-- The program's start on small inputs.
use pointer_force.Prelude.{
  ℕ, ◌≡◌, refl, ◌≢◌, true, false, none, some, [], ◌∷◌, arith, pos, string_eq, int_eq, nat_eq,
}
use pointer_force.Common.{Config}
use pointer_force.Config.{validate}
use pointer_force.Daemon.{
  Machine, signalled, no_process, in_child, is_running, daemonize, daemonized, write_pid,
}
use pointer_force.Main.{
  default_flags, goes_on, ends, parse_args, Answers, exits, runs, open_devices, go_background,
  start_loaded, shut_down,
}
use pointer_force.Main.Instance.{start_loaded-runs, second_instance_refused, foreground_not_guarded}
use pointer_force.Tests.Loading.{new_config}

flags_read :
    parse_args ("-d" ∷ "-c" ∷ "pf.json" ∷ []) default_flags
    ≡ goes_on (record { config_path = "pf.json"; cli_daemon = true; cli_foreground = false })
unfolding parse_args
flags_read = refl

missing_path : parse_args ("-c" ∷ []) default_flags ≡ ends 1
unfolding parse_args
missing_path = refl

abbrev pub none_yet : Machine
none_yet = record { pid_file = none }

abbrev pub answers : Answers
answers = record {
  kill = λ pid. signalled;
  first_fork = in_child;
  setsid_works = true;
  second_fork = in_child;
  pid_opens = true;
  pid = pos 42;
  opened = λ c. 2;
}

abbrev background : Config
background = record new_config { daemon_mode = true }

abbrev guarded : Machine
guarded = record { pid_file = some (pos 42) }

started : start_loaded answers background none_yet ≡ (runs background, guarded)
unfolding start_loaded validate is_running daemonize go_background write_pid open_devices
started = refl

start_loaded-runs_example :
    (background ≡ background)
    × (validate background ≡ true)
    × (◌≢◌ {A = ℕ} 2 0)
    × ((is_running answers.kill none_yet).0 ≡ false)
    × (guarded.pid_file ≡ some (pos 42))
start_loaded-runs_example = start_loaded-runs answers background background none_yet guarded started

still_there : signalled ≢ no_process
still_there h = cc

second_instance_refused_example : start_loaded answers new_config guarded ≡ (exits 1, guarded)
second_instance_refused_example =
    second_instance_refused answers answers background background new_config none_yet guarded
      started refl refl still_there

valid_foreground : validate new_config ≡ true
unfolding validate
valid_foreground = refl

valid_background : validate background ≡ true
unfolding validate
valid_background = refl

in_background : daemonize answers.first_fork answers.setsid_works answers.second_fork ≡ daemonized
unfolding daemonize
in_background = refl

two_devices : ◌≢◌ {A = ℕ} 2 0
two_devices = omega arith

foreground_not_guarded_example :
    (start_loaded answers new_config none_yet ≡ (runs new_config, none_yet))
    × (start_loaded answers background none_yet ≡ (runs background, guarded))
    × ((is_running answers.kill (shut_down guarded).1).0 ≡ false)
foreground_not_guarded_example =
    foreground_not_guarded answers answers new_config background answers.kill valid_foreground refl
      two_devices valid_background refl in_background refl two_devices
