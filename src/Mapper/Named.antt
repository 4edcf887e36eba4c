-- ===== src/Mapper/Named.antt =====
-- Bindings of keys that a name of the key table has.
use pointer_force.Prelude.{
  ℕ, String, inl, inr, List, [], ◌∷◌, arith, Bool-cases, Option-cases, All, ℤ, is_negative,
  string_eq, int_eq, nat_eq,
}
use pointer_force.Assoc.{Assoc, find, assign, erase}
use pointer_force.Assoc.Values.{AllValues, assign-AllValues, find-AllValues}
use pointer_force.Common.{DeviceConfig, Config}
use pointer_force.Keys.{name_to_code}
use pointer_force.Keys.Named.{IsNamed, name_to_code-IsNamed}
use pointer_force.Mapper.{
  Table, sub_table, load_bindings, load_devices, init, add_binding, remove_binding,
}

module _ (input_code : String → ℕ) where
  abbrev pub IsKnown : ℤ × String → Type 0
  IsKnown p = IsNamed input_code p.0

  pub assign-IsKnown :
      (c : ℤ) (cmd : String) (m : Assoc ℤ String)
      → IsNamed input_code c
      → All IsKnown m
      → All IsKnown (assign c cmd m)
  unfolding assign
  assign-IsKnown c cmd [] h a = (h, tt)
  assign-IsKnown c cmd ((k, x) ∷ m) h a = ground (arith, assign-IsKnown c cmd m h a.1)

  erase-IsKnown : (c : ℤ) (m : Assoc ℤ String) → All IsKnown m → All IsKnown (erase c m)
  unfolding erase
  erase-IsKnown c [] a = tt
  erase-IsKnown c ((k, x) ∷ m) a = ground (arith, erase-IsKnown c m a.1)

  -- Each device of the table binds only such keys.
  abbrev pub BindsKnown : Table → Type 0
  BindsKnown t = AllValues (All IsKnown) t

  sub_table-IsKnown : (d : String) (t : Table) → BindsKnown t → All IsKnown (sub_table d t)
  unfolding sub_table
  sub_table-IsKnown d t a = elim (Option-cases (find d t)) [
    | inl e ↦ rw (e, sub_table) tt
    | inr (sub, e) ↦ rw (e, sub_table) (find-AllValues (All IsKnown) d sub t a e)
  ]

  load_bindings-IsKnown :
      (bs sub : Assoc ℤ String)
      → All IsKnown bs
      → All IsKnown sub
      → All IsKnown (load_bindings bs sub)
  unfolding load_bindings
  load_bindings-IsKnown [] sub h a = a
  load_bindings-IsKnown ((code, cmd) ∷ bs) sub h a =
      load_bindings-IsKnown bs _ h.1 (assign-IsKnown code cmd sub h.0 a)

  load_devices-BindsKnown :
      (dcs : List DeviceConfig) (t : Table)
      → All (λ (dc : DeviceConfig). All IsKnown dc.bindings) dcs
      → BindsKnown t
      → BindsKnown (load_devices dcs t)
  unfolding load_devices
  load_devices-BindsKnown [] t h a = a
  load_devices-BindsKnown (dc ∷ dcs) t h a = load_devices-BindsKnown dcs _ h.1 (
      assign-AllValues (All IsKnown) dc.id _ t
        (load_bindings-IsKnown dc.bindings _ h.0 (sub_table-IsKnown dc.id t a)) a)

  pub init-BindsKnown :
      (config : Config)
      → All (λ (dc : DeviceConfig). All IsKnown dc.bindings) config.devices
      → BindsKnown (init config)
  unfolding init
  init-BindsKnown config h = load_devices-BindsKnown config.devices [] h tt

  pub add_binding-BindsKnown :
      (t : Table) (d k cmd : String)
      → BindsKnown t
      → BindsKnown (add_binding input_code t d k cmd).0
  unfolding add_binding
  add_binding-BindsKnown t d k cmd a = elim (Bool-cases (is_negative (name_to_code input_code k))) [
    | inl unknown ↦ rw (unknown, add_binding) a
    | inr known ↦
        rw (known, add_binding)
          (assign-AllValues (All IsKnown) d _ t
            (assign-IsKnown _ cmd _ (name_to_code-IsNamed input_code k known)
              (sub_table-IsKnown d t a))
            a)
  ]

  pub remove_binding-BindsKnown :
      (t : Table) (d k : String) → BindsKnown t → BindsKnown (remove_binding input_code t d k).0
  unfolding remove_binding
  remove_binding-BindsKnown t d k a = elim (Bool-cases (is_negative (name_to_code input_code k))) [
    | inl unknown ↦ rw (unknown, remove_binding) a
    | inr known ↦ elim (Option-cases (find d t)) [
      | inl e ↦ rw (known, e, remove_binding) a
      | inr (sub, e) ↦
          rw (known, e, remove_binding)
            (assign-AllValues (All IsKnown) d _ t
              (erase-IsKnown _ sub (find-AllValues (All IsKnown) d sub t a e)) a)
    ]
  ]
