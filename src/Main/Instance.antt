-- ===== src/Main/Instance.antt =====
-- The guard against a second instance.
use pointer_force.Prelude.{
  ◌≡◌, refl, ap, ◌∙◌, ◌≢◌, inl, inr, true, false, none, some, arith, nat_beq, nat_beq_iff,
  if◌then◌else◌, Bool-cases, ℤ, string_eq, int_eq, nat_eq,
}
use pointer_force.Common.{Config}
use pointer_force.Config.{validate}
use pointer_force.Daemon.{
  Machine, KillAnswer, signalled, not_permitted, no_process, is_positive, answered, write_pid,
  remove_pid, is_running, Daemonized, daemonized, daemonize_failed, parent_exits, daemonize,
}
use pointer_force.Main.{Answers, exits, runs, open_devices, go_background, start_loaded, shut_down}

open_devices-runs :
    (a : Answers) (c c' : Config) (m m' : Machine)
    → open_devices a c m ≡ (runs c', m')
    → (c' ≡ c) × (a.opened c ≢ 0) × (m' ≡ m)
unfolding open_devices
open_devices-runs a c c' m m' h = elim (Bool-cases (nat_beq (a.opened c) 0)) [
  | inl e ↦ absurd (ground (arith, e))
  | inr e ↦ (ground (arith, e), ground (arith, nat_beq_iff (a.opened c) 0), ground (arith, e))
]

go_background-runs :
    (z : Daemonized) (a : Answers) (c c' : Config) (m m' : Machine)
    → go_background z a c m ≡ (runs c', m')
    → (c' ≡ c) × (a.opened c ≢ 0) × (m'.pid_file ≡ some a.pid)
unfolding go_background write_pid
go_background-runs daemonize_failed a c c' m m' h = absurd (ground arith)
go_background-runs parent_exits a c c' m m' h = absurd (ground arith)
go_background-runs daemonized a c c' m m' h = elim (Bool-cases a.pid_opens) [
  | inl e ↦
      let (x, y, z) =
        open_devices-runs a c c' (record m { pid_file = some a.pid }) m' (ground (arith, e)) in
      (x, y, ap (λ (k : Machine). k.pid_file) z)
  | inr e ↦ absurd (ground (arith, e))
]

-- A start that gets to run has a configuration with devices and opened some; nothing that the
-- guard takes for a running instance was there; and the pid file holds the own pid exactly as far
-- as the program went into the background.
pub start_loaded-runs :
    (a : Answers) (c c' : Config) (m m' : Machine)
    → start_loaded a c m ≡ (runs c', m')
    → (c' ≡ c)
      × (validate c ≡ true)
      × (a.opened c ≢ 0)
      × ((is_running a.kill m).0 ≡ false)
      × (m'.pid_file ≡ (if c.daemon_mode then some a.pid else (is_running a.kill m).1.pid_file))
unfolding start_loaded
start_loaded-runs a c c' m m' h = elim (Bool-cases (validate c)) [
  | inr n ↦ absurd (ground (arith, n))
  | inl v ↦ elim (Bool-cases (is_running a.kill m).0) [
    | inl r ↦ absurd (ground (arith, v, r))
    | inr r ↦ elim (Bool-cases c.daemon_mode) [
      | inl d ↦
          let (x, y, z) =
            go_background-runs (daemonize a.first_fork a.setsid_works a.second_fork) a c c'
              (is_running a.kill m).1 m' (ground (arith, v, r, d)) in
          (x, v, y, r, rw d z)
      | inr d ↦
          let (x, y, z) =
            open_devices-runs a c c' (is_running a.kill m).1 m' (ground (arith, v, r, d)) in
          (x, v, y, r, rw d (ap (λ (k : Machine). k.pid_file) z))
    ]
  ]
]

found_running :
    (kill : ℤ → KillAnswer) (pid : ℤ) (m : Machine)
    → m.pid_file ≡ some pid
    → is_positive pid ≡ true
    → kill pid ≢ no_process
    → is_running kill m ≡ (true, m)
unfolding is_running answered
found_running kill pid m e p n = ground (arith, e, p, running (kill pid) n)
  where
    running : (k : KillAnswer) → k ≢ no_process → answered m k ≡ (true, m)
    running signalled h = refl
    running not_permitted h = refl
    running no_process h = absurd (h refl)

-- While a daemon that was started in the background is still a process, and the pid file is as its
-- start left it, another start is refused with status 1, whatever its configuration, and leaves the
-- pid file alone.
pub second_instance_refused :
    (a b : Answers) (c c' d : Config) (m m' : Machine)
    → start_loaded a c m ≡ (runs c', m')
    → c.daemon_mode ≡ true
    → is_positive a.pid ≡ true
    → b.kill a.pid ≢ no_process
    → start_loaded b d m' ≡ (exits 1, m')
unfolding start_loaded
second_instance_refused a b c c' d m m' h daemon positive alive =
    let (_, _, _, _, file) = start_loaded-runs a c c' m m' h in
    let found = found_running b.kill a.pid m' (file ∙ ground (arith, daemon)) positive alive in
    ground (arith, found)

-- The guard sees only instances in the background: with no pid file a program in the foreground
-- runs without leaving one, so a second program starts beside it, and when the one in the
-- foreground ends it takes away the pid file that the second one wrote, after which the guard
-- finds nothing running.
pub foreground_not_guarded :
    (a b : Answers) (c d : Config) (kill : ℤ → KillAnswer)
    → let none_yet : Machine = record { pid_file = none } in
      validate c ≡ true
      → c.daemon_mode ≡ false
      → a.opened c ≢ 0
      → validate d ≡ true
      → d.daemon_mode ≡ true
      → daemonize b.first_fork b.setsid_works b.second_fork ≡ daemonized
      → b.pid_opens ≡ true
      → b.opened d ≢ 0
      → (start_loaded a c none_yet ≡ (runs c, none_yet))
        × (start_loaded b d none_yet ≡ (runs d, record { pid_file = some b.pid }))
        × ((is_running kill (shut_down (record { pid_file = some b.pid })).1).0 ≡ false)
unfolding start_loaded go_background open_devices write_pid is_running shut_down remove_pid
foreground_not_guarded a b c d kill vc fc oc vd bd z w od = (
  ground (arith, vc, fc, nat_beq_iff (a.opened c) 0),
  ground (arith, vd, bd, z, w, nat_beq_iff (b.opened d) 0),
  refl,
)
