-- ===== src/Daemon.antt =====
-- src/daemon.cpp: the pid file and the way into the background.
--
-- The file is what `f >> pid` reads from it; what the system calls answer is an argument.
use pointer_force.Prelude.{
  Bool, true, false, not, ◌&&◌, Option, none, some, if◌then◌else◌, ℤ, pos, is_negative, int_beq,
  string_eq, int_eq, nat_eq,
}

-- The pid file, `none` if it cannot be opened, and the number that it gives.
pub record Machine : Type 0 where
  pub pid_file : Option ℤ

-- kill(pid, 0): it succeeds, fails with EPERM, or fails otherwise.
pub data KillAnswer : Type 0 where
  signalled not_permitted no_process : KillAnswer

unfoldable pub write_pid : Bool → ℤ → Machine → Bool × Machine
write_pid opens pid m = if opens then (true, record m { pid_file = some pid }) else (false, m)

unfoldable pub remove_pid : Machine → Machine
remove_pid m = record m { pid_file = none }

abbrev pub is_positive : ℤ → Bool
is_positive pid = not (is_negative pid) && not (int_beq pid (pos 0))

-- A stale file is removed.
unfoldable pub answered : Machine → KillAnswer → Bool × Machine
answered m signalled = (true, m)
answered m not_permitted = (true, m)
answered m no_process = (false, remove_pid m)

unfoldable pub is_running : (ℤ → KillAnswer) → Machine → Bool × Machine
is_running kill m = elim m.pid_file [
  | none ↦ (false, m)
  | some pid ↦ if is_positive pid then answered m (kill pid) else (false, m)
]

-- fork as the process that returns from it sees it.
pub data ForkAnswer : Type 0 where
  fork_failed in_parent in_child : ForkAnswer

pub data Daemonized : Type 0 where
  daemonized daemonize_failed parent_exits : Daemonized

unfoldable pub daemonize : ForkAnswer → Bool → ForkAnswer → Daemonized
daemonize fork_failed setsid_works second = daemonize_failed
daemonize in_parent setsid_works second = parent_exits
daemonize in_child false second = daemonize_failed
daemonize in_child true fork_failed = daemonize_failed
daemonize in_child true in_parent = parent_exits
daemonize in_child true in_child = daemonized
