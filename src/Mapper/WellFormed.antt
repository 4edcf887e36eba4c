-- ===== src/Mapper/WellFormed.antt =====
-- No device stands twice in a table, and no key twice under a device.
use pointer_force.Prelude.{
  ℕ, String, inl, inr, List, [], ◌∷◌, Bool-cases, Option-cases, ℤ, is_negative, string_eq, int_eq,
  nat_eq,
}
use pointer_force.Assoc.{Assoc, find, assign}
use pointer_force.Assoc.Keys.{IsUnique, assign-IsUnique, erase-IsUnique}
use pointer_force.Assoc.Values.{AllValues, assign-AllValues, find-AllValues}
use pointer_force.Common.{DeviceConfig, Config}
use pointer_force.Keys.{name_to_code}
use pointer_force.Mapper.{
  Table, sub_table, load_bindings, load_devices, init, add_binding, remove_binding,
}

abbrev pub SubIsUnique : Assoc ℤ String → Type 0
SubIsUnique sub = IsUnique sub

pub record IsWellFormed (t : Table) : Type 0 where
  pub devices_unique : IsUnique t
  pub keys_unique : AllValues SubIsUnique t

assign-IsWellFormed :
    (d : String) (sub : Assoc ℤ String) (t : Table)
    → IsUnique sub
    → IsWellFormed t
    → IsWellFormed (assign d sub t)
assign-IsWellFormed d sub t u w = record {
  devices_unique = assign-IsUnique d sub t w.devices_unique;
  keys_unique = assign-AllValues SubIsUnique d sub t u w.keys_unique;
}

sub_table-IsUnique : (d : String) (t : Table) → IsWellFormed t → IsUnique (sub_table d t)
unfolding sub_table
sub_table-IsUnique d t w = elim (Option-cases (find d t)) [
  | inl e ↦ rw (e, sub_table) tt
  | inr (sub, e) ↦ rw (e, sub_table) (find-AllValues SubIsUnique d sub t w.keys_unique e)
]

load_bindings-IsUnique : (bs sub : Assoc ℤ String) → IsUnique sub → IsUnique (load_bindings bs sub)
unfolding load_bindings
load_bindings-IsUnique [] sub u = u
load_bindings-IsUnique ((c, cmd) ∷ bs) sub u =
    load_bindings-IsUnique bs (assign c cmd sub) (assign-IsUnique c cmd sub u)

load_devices-IsWellFormed :
    (dcs : List DeviceConfig) (t : Table) → IsWellFormed t → IsWellFormed (load_devices dcs t)
unfolding load_devices
load_devices-IsWellFormed [] t w = w
load_devices-IsWellFormed (dc ∷ dcs) t w = load_devices-IsWellFormed dcs _ (
    assign-IsWellFormed dc.id _ t
      (load_bindings-IsUnique dc.bindings _ (sub_table-IsUnique dc.id t w)) w)

pub init-IsWellFormed : (config : Config) → IsWellFormed (init config)
unfolding init
init-IsWellFormed config =
    load_devices-IsWellFormed config.devices [] (record { devices_unique = tt; keys_unique = tt })

module _ (input_code : String → ℕ) where
  pub add_binding-IsWellFormed :
      (t : Table) (d k cmd : String)
      → IsWellFormed t
      → IsWellFormed (add_binding input_code t d k cmd).0
  unfolding add_binding
  add_binding-IsWellFormed t d k cmd w =
      elim (Bool-cases (is_negative (name_to_code input_code k))) [
        | inl e ↦ rw (e, add_binding) w
        | inr e ↦
            rw (e, add_binding)
              (assign-IsWellFormed d _ t (assign-IsUnique _ cmd _ (sub_table-IsUnique d t w)) w)
      ]

  pub remove_binding-IsWellFormed :
      (t : Table) (d k : String) → IsWellFormed t → IsWellFormed (remove_binding input_code t d k).0
  unfolding remove_binding
  remove_binding-IsWellFormed t d k w =
      elim (Bool-cases (is_negative (name_to_code input_code k))) [
        | inl e ↦ rw (e, remove_binding) w
        | inr e ↦ elim (Option-cases (find d t)) [
          | inl n ↦ rw (e, n, remove_binding) w
          | inr (sub, f) ↦
              rw (e, f, remove_binding)
                (assign-IsWellFormed d _ t
                  (erase-IsUnique _ sub (find-AllValues SubIsUnique d sub t w.keys_unique f)) w)
        ]
      ]
