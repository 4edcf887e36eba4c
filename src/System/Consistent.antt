-- ===== src/System/Consistent.antt =====
-- What holds of the daemon between any two steps of its threads.
use pointer_force.Prelude.{
  ℕ, String, ◌≡◌, sym, subst, Bool, true, false, Option, List, [], ◌∷◌, All, Ensures, string_eq,
  int_eq, nat_eq,
}
use pointer_force.Assoc.{Assoc, find}
use pointer_force.Common.{DeviceConfig, Config}
use pointer_force.Json.{Json, Bytes}
use pointer_force.Mapper.{Table, init}
use pointer_force.Mapper.WellFormed.{IsWellFormed, init-IsWellFormed}
use pointer_force.Mapper.Named.{BindsKnown, init-BindsKnown, IsKnown}
use pointer_force.Config.{load}
use pointer_force.Config.Loaded.{IsLoadable, IsLeft, load-IsLeft}
use pointer_force.EventQueue.{EventQueue}
use pointer_force.Multiplexer.{Shared, Observer}
use pointer_force.Control.{reload_result}
use pointer_force.Multiplexer.Observers.{IsOrdered}

module _ (J : Json) (input_code : String → ℕ) (path : String) (streams : Assoc ℕ Observer) where
  -- The table is well-formed and binds known keys, the configuration was loaded from the path, and
  -- the observers are the open streams, in the order of their ids.
  pub record IsConsistent (s : Shared) : Type 0 where
    pub well_formed : IsWellFormed s.table
    pub named : BindsKnown input_code s.table
    pub left : IsLeft J input_code path s.config
    pub ordered : IsOrdered s
    pub listening : (k : ℕ) → find k s.observers ≡ find k streams

  loadable-IsKnown :
      (dcs : List DeviceConfig)
      → All (IsLoadable input_code) dcs
      → All (λ (dc : DeviceConfig). All (IsKnown input_code) dc.bindings) dcs
  loadable-IsKnown [] a = tt
  loadable-IsKnown (dc ∷ dcs) a = (a.0.known, loadable-IsKnown dcs a.1)

  pub loaded-BindsKnown :
      (config : Config) → IsLeft J input_code path config → BindsKnown input_code (init config)
  loaded-BindsKnown config left =
      init-BindsKnown input_code config (loadable-IsKnown config.devices left.loadable)

  -- Another table, flag or queue.
  pub with_table :
      (t : Table) (s : Shared)
      → IsWellFormed t
      → BindsKnown input_code t
      → IsConsistent s
      → IsConsistent (record s { table = t })
  with_table t s w b c = record {
    well_formed = w;
    named = b;
    left = c.left;
    ordered = c.ordered;
    listening = c.listening;
  }

  pub with_queue :
      (queue : EventQueue) (running asked : Bool) (s : Shared)
      → IsConsistent s
      → IsConsistent (record s { queue = queue; is_running = running; reload = asked })
  with_queue queue running asked s c = record {
    well_formed = c.well_formed;
    named = c.named;
    left = c.left;
    ordered = c.ordered;
    listening = c.listening;
  }

  pub with_config :
      (config : Config) (s : Shared)
      → IsLeft J input_code path config
      → IsConsistent s
      → IsConsistent (record s { config = config })
  with_config config s l c = record {
    well_formed = c.well_formed;
    named = c.named;
    left = l;
    ordered = c.ordered;
    listening = c.listening;
  }

  -- A reload, of a client or of the loop.
  pub reload_result-IsConsistent :
      (files : String → Option Bytes) (s : Shared) (r : Bool × Config)
      → IsLeft J input_code path r.1
      → IsConsistent s
      → IsConsistent (reload_result J input_code files s r)
  reload_result-IsConsistent files s (true, config) l c =
      with_table (init config) (record s { config = config }) (init-IsWellFormed config)
        (loaded-BindsKnown config l) (with_config config s l c)
  reload_result-IsConsistent files s (false, config) l c = with_config config s l c

  -- A load from the path that is configured.
  pub load_again-IsLeft :
      (files : String → Option Bytes) (config : Config)
      → IsLeft J input_code path config
      → Ensures
          (λ (r : Bool × Config). IsLeft J input_code path r.1)
          (load J input_code files config.config_path config)
  load_again-IsLeft files config l =
      subst
        (λ p.
          Ensures (λ (r : Bool × Config). IsLeft J input_code path r.1)
            (load J input_code files p config))
        (sym l.same_path) (load-IsLeft J input_code files path config l)
