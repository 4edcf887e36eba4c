-- ===== src/System/Started.antt =====
-- What `main` starts is sound.
use pointer_force.Prelude.{
  returns_inj, ℕ, String, ◌≡◌, refl, sym, subst, ◌⊎◌, inl, inr, Bool, true, false, Option, List,
  arith, Bool-cases, returns, >>=-eq-returns, string_eq, int_eq, nat_eq,
}
use pointer_force.Common.{Config}
use pointer_force.Json.{Json, Bytes}
use pointer_force.Config.{load}
use pointer_force.Config.Loaded.{IsLeft, load-IsLoadable}
use pointer_force.Daemon.{Machine}
use pointer_force.Main.{
  Flags, default_flags, default_config, Parsed, ends, goes_on, parse_args, override, Answers, runs,
  after_load, start,
}
use pointer_force.Main.Instance.{start_loaded-runs}
use pointer_force.System.{State, Reach}
use pointer_force.System.Reached.{IsSound, Reach-IsSound}

Parsed-cases : (p : Parsed) → ((status : ℕ) × (p ≡ ends status)) ⊎ ((f : Flags) × (p ≡ goes_on f))
Parsed-cases (ends status) = inl (status, refl)
Parsed-cases (goes_on f) = inr (f, refl)

module _ (J : Json) (input_code : String → ℕ) where
  -- The flags of the command line leave the devices and the path.
  override-IsLeft :
      (path : String) (f : Flags) (c : Config)
      → IsLeft J input_code path c
      → IsLeft J input_code path (override f c)
  unfolding override
  override-IsLeft path f c l = elim (Bool-cases f.cli_daemon) [
    | inl d ↦ elim (Bool-cases f.cli_foreground) [
      | inl g ↦ rw (d, g) (record { loadable = l.loadable; same_path = l.same_path })
      | inr g ↦ rw (d, g) (record { loadable = l.loadable; same_path = l.same_path })
    ]
    | inr d ↦ elim (Bool-cases f.cli_foreground) [
      | inl g ↦ rw (d, g) (record { loadable = l.loadable; same_path = l.same_path })
      | inr g ↦ rw (d, g) l
    ]
  ]

  after_load-IsLeft :
      (files : String → Option Bytes) (a : Answers) (f : Flags) (m m' : Machine) (config c : Config)
      (result : Bool × Config)
      → load J input_code files f.config_path config ≡ returns result
      → after_load a f m result ≡ (runs c, m')
      → IsLeft J input_code f.config_path c
  after_load-IsLeft files a f m m' config c (true, loaded) e h =
      let (all, path) = load-IsLoadable J input_code files f.config_path config loaded e in
      subst (IsLeft J input_code f.config_path)
        (sym (start_loaded-runs a (override f loaded) c m m' h).0)
        (override-IsLeft f.config_path f loaded (record { loadable = all; same_path = path }))
  after_load-IsLeft files a f m m' config c (false, loaded) e h = absurd (ground (arith, h))

  -- Whatever the command line, the files and the system answer: if `main` gets to run, then in every
  -- state that its threads reach the table is well-formed and binds known keys, the configuration is
  -- loadable and has the path that the command line gives, and the observers are the open streams,
  -- in the order of their ids.
  pub started-IsSound :
      (files : String → Option Bytes) (args : List String) (a : Answers) (m m' : Machine)
      (c : Config) (s : State)
      → start J input_code files args a m ≡ returns (runs c, m')
      → Reach J input_code c s
      → (f : Flags) × (parse_args args default_flags ≡ goes_on f)
        × IsSound J input_code f.config_path s
  unfolding start
  started-IsSound files args a m m' c s h reached =
      elim (Parsed-cases (parse_args args default_flags)) [
        | inl (status, e) ↦ absurd (ground (arith, rw (e, start) at h))
        | inr (f, e) ↦
            let config : Config = record default_config { config_path = f.config_path } in
            let (result, g, k) =
              >>=-eq-returns (load J input_code files f.config_path config) _
                (rw (e, start) at h) in
            let l = after_load-IsLeft files a f m m' config c result g (returns_inj k) in
            (f, e, Reach-IsSound J input_code f.config_path c s l reached)
      ]
