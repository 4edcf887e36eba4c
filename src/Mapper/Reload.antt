-- ===== src/Mapper/Reload.antt =====
-- `init` against the list of configured devices.
use pointer_force.Prelude.{
  String, ◌≡◌, refl, Option, none, List, [], ◌∷◌, arith, eq_iff, if◌then◌else◌, ◌==◌, All, ℤ,
  int_beq_iff, string_eq, int_eq, nat_eq,
}
use pointer_force.Assoc.{Assoc, find, assign, find-assign}
use pointer_force.Assoc.Keys.{IsUnique}
use pointer_force.Common.{DeviceConfig, Config}
use pointer_force.Mapper.{Table, sub_table, lookup_in, lookup, load_bindings, load_devices, init}
use pointer_force.Mapper.View.{view, view-assign, view-sub_table, or_else, lookup-eq-view}

-- The command that the last device of that id gives the key.
abbrev pub configured : List DeviceConfig → String → ℤ → Option String
configured [] d c = none
configured (dc ∷ dcs) d c =
    or_else (configured dcs d c) (if dc.id == d then find c dc.bindings else none)

abbrev pub HasUniqueKeys : DeviceConfig → Type 0
HasUniqueKeys dc = IsUnique dc.bindings

find-load_bindings :
    (c : ℤ) (bs sub : Assoc ℤ String)
    → IsUnique bs
    → find c (load_bindings bs sub) ≡ or_else (find c bs) (find c sub)
unfolding load_bindings find
find-load_bindings c [] sub u = refl
find-load_bindings c ((k, cmd) ∷ bs) sub u = ground (
  arith,
  find-load_bindings c bs (assign k cmd sub) u.1,
  find-assign k c cmd sub,
  int_beq_iff k c,
)

view-load_devices :
    (dcs : List DeviceConfig) (t : Table) (d : String) (c : ℤ)
    → All HasUniqueKeys dcs
    → view (load_devices dcs t) d c ≡ or_else (configured dcs d c) (view t d c)
unfolding load_devices
view-load_devices [] t d c u = refl
view-load_devices (dc ∷ dcs) t d c u =
    let sub = load_bindings dc.bindings (sub_table dc.id t) in
    ground (
      arith,
      view-load_devices dcs (assign dc.id sub t) d c u.1,
      view-assign dc.id d c sub t,
      find-load_bindings c dc.bindings (sub_table dc.id t) u.0,
      view-sub_table dc.id c t,
      eq_iff dc.id d,
    )

pub view-init :
    (config : Config) (d : String) (c : ℤ)
    → All HasUniqueKeys config.devices
    → view (init config) d c ≡ configured config.devices d c
unfolding init view lookup_in find
view-init config d c u = ground (arith, view-load_devices config.devices [] d c u)

-- After `init` a lookup returns what the last configured device of that id gives the key, or else
-- what the last wildcard device gives it, if each device binds a key once.
pub lookup-init :
    (config : Config) (d : String) (c : ℤ)
    → All HasUniqueKeys config.devices
    → lookup (init config) d c
      ≡ or_else (configured config.devices d c) (configured config.devices "*" c)
lookup-init config d c u =
    rw (lookup-eq-view (init config) d c, view-init config d c u, view-init config "*" c u)
