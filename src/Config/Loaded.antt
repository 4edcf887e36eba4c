-- ===== src/Config/Loaded.antt =====
-- What holds of each device of a configuration that was loaded.
use pointer_force.Prelude.{
  ℕ, String, ◌≡◌, refl, ◌⊎◌, inl, inr, Bool, true, false, not, ◌&&◌, Option, none, some, List, [],
  ◌∷◌, arith, eq_iff, ◌==◌, Option-cases, All, returns, Ensures, Ensures-returns, Ensures-if,
  Ensures-bind, ℤ, is_negative, string_eq, int_eq, nat_eq,
}
use pointer_force.Assoc.{Assoc}
use pointer_force.Assoc.Keys.{IsUnique, assign-IsUnique}
use pointer_force.Common.{DeviceMatch, DeviceConfig, Config}
use pointer_force.Mapper.{lookup, init}
use pointer_force.Mapper.View.{or_else}
use pointer_force.Mapper.Reload.{configured, HasUniqueKeys, lookup-init}
use pointer_force.Keys.{name_to_code}
use pointer_force.Keys.Named.{name_to_code-IsNamed}
use pointer_force.Mapper.Named.{IsKnown, assign-IsKnown}
use pointer_force.Json.{Json, Bytes}
use pointer_force.Json.Access.{has_kind, string_or, bool_or}
use pointer_force.Config.{
  lacks_criteria, read_match, read_binding, read_members, read_bindings, finish_device, read_device,
  push_if, read_devices, load_root, load,
}

-- No key is bound twice, and each key has a code that a name of the table has.
pub record IsLoadable (input_code : String → ℕ) (dc : DeviceConfig) : Type 0 where
  pub can_match : (lacks_criteria dc.criteria ≡ false) ⊎ (dc.id ≡ "*")
  pub unique : IsUnique dc.bindings
  pub known : All (IsKnown input_code) dc.bindings

module _ (J : Json) (input_code : String → ℕ) where
  open J use {
    Value, parse, at, as_string, get_member_names, elements, is_object, is_array, is_string,
  }

  abbrev AreGood : Assoc ℤ String → Type 0
  AreGood m = IsUnique m × All (IsKnown input_code) m

  read_binding-AreGood :
      (b : Value) (key : String) (sub : Assoc ℤ String)
      → AreGood sub
      → Ensures AreGood (read_binding J input_code b key sub)
  unfolding read_binding
  read_binding-AreGood b key sub g =
      Ensures-if (is_negative (name_to_code input_code key)) _ _ (λ _. Ensures-returns sub g)
        λ k. Ensures-bind (at b key) _ λ x _. Ensures-bind (as_string x) _ λ cmd _.
          Ensures-returns _ (
            assign-IsUnique _ cmd sub g.0,
            assign-IsKnown input_code _ cmd sub (name_to_code-IsNamed input_code key k) g.1,
          )

  read_members-AreGood :
      (b : Value) (names : List String) (sub : Assoc ℤ String)
      → AreGood sub
      → Ensures AreGood (read_members J input_code b names sub)
  unfolding read_members
  read_members-AreGood b [] sub g = Ensures-returns sub g
  read_members-AreGood b (key ∷ names) sub g =
      Ensures-bind (read_binding J input_code b key sub) _
        λ s e. read_members-AreGood b names s ((read_binding-AreGood b key sub g).at_return s e)

  read_bindings-AreGood : (dev : Value) → Ensures AreGood (read_bindings J input_code dev)
  unfolding read_bindings
  read_bindings-AreGood dev = Ensures-bind (has_kind J is_object dev "bindings") _ λ object _.
      Ensures-if object _ _
        (λ _. Ensures-bind (at dev "bindings") _ λ b _.
          Ensures-bind (get_member_names b) _ λ names _. read_members-AreGood b names [] (tt, tt))
        (λ _. Ensures-returns [] (tt, tt))

  abbrev IsSkippedOrLoadable : Option DeviceConfig → Type 0
  IsSkippedOrLoadable none = Unit
  IsSkippedOrLoadable (some dc) = IsLoadable input_code dc

  device-IsLoadable :
      (id : String) (m : DeviceMatch) (grab : Bool) (bindings : Assoc ℤ String)
      → (lacks_criteria m && not (id == "*")) ≡ false
      → AreGood bindings
      → IsLoadable input_code (record { id = id; criteria = m; grab = grab; bindings = bindings })
  device-IsLoadable id m grab bindings h g = record {
    can_match = ground (arith, eq_iff id "*");
    unique = g.0;
    known = g.1;
  }

  finish_device-IsLoadable :
      (dev : Value) (id : String) (m : DeviceMatch)
      → Ensures IsSkippedOrLoadable (finish_device J input_code dev id m)
  unfolding finish_device
  finish_device-IsLoadable dev id m =
      Ensures-if (lacks_criteria m && not (id == "*")) _ _ (λ _. Ensures-returns none tt)
        (λ h. Ensures-bind (bool_or J dev "grab" false) _ λ grab _.
          Ensures-bind (read_bindings J input_code dev) _ λ bindings e. Ensures-returns _ (
            device-IsLoadable id m grab bindings h
              ((read_bindings-AreGood dev).at_return bindings e)))

  read_device-IsLoadable :
      (dev : Value) → Ensures IsSkippedOrLoadable (read_device J input_code dev)
  unfolding read_device
  read_device-IsLoadable dev = Ensures-bind (has_kind J is_string dev "id") _ λ named _.
      Ensures-if named _ _
        (λ _. Ensures-bind (at dev "id") _ λ x _.
          Ensures-bind (as_string x) _
            λ id _. Ensures-bind (read_match J dev) _ λ m _. finish_device-IsLoadable dev id m)
        (λ _. Ensures-returns none tt)

  push_if-IsLoadable :
      (dc : Option DeviceConfig) (dcs : List DeviceConfig)
      → IsSkippedOrLoadable dc
      → All (IsLoadable input_code) dcs
      → All (IsLoadable input_code) (push_if dc dcs)
  push_if-IsLoadable none dcs h a = a
  push_if-IsLoadable (some dc) dcs h a = (h, a)

  read_devices-IsLoadable :
      (devs : List Value) → Ensures (All (IsLoadable input_code)) (read_devices J input_code devs)
  unfolding read_devices
  read_devices-IsLoadable [] = Ensures-returns [] tt
  read_devices-IsLoadable (dev ∷ devs) = Ensures-bind (read_device J input_code dev) _ λ dc e.
      Ensures-bind (read_devices J input_code devs) _ λ dcs f. Ensures-returns _ (
        push_if-IsLoadable dc dcs ((read_device-IsLoadable dev).at_return dc e)
          ((read_devices-IsLoadable devs).at_return dcs f))

  -- What a load leaves behind, also one that fails: loadable devices and the path.
  pub record IsLeft (path : String) (config : Config) : Type 0 where
    pub loadable : All (IsLoadable input_code) config.devices
    pub same_path : config.config_path ≡ path

  load_root-IsLeft :
      (path : String) (root : Value) (config : Config)
      → Ensures (λ r. IsLeft path r.1) (load_root J input_code path root config)
  unfolding load_root
  load_root-IsLeft path root config =
      Ensures-bind (bool_or J root "daemon" config.daemon_mode) _ λ _ _.
        Ensures-bind (bool_or J root "debug" config.debug) _ λ _ _.
          Ensures-bind (string_or J root "control_socket" config.control_socket) _ λ _ _.
            Ensures-bind (has_kind J is_array root "devices") _ λ array _.
              Ensures-if array _ _
                (λ _. Ensures-bind (at root "devices") _ λ devs _.
                  Ensures-bind (read_devices J input_code (elements devs)) _ λ dcs e.
                    Ensures-returns _ (record {
                      loadable = (read_devices-IsLoadable (elements devs)).at_return dcs e;
                      same_path = refl;
                    }))
                (λ _. Ensures-returns _ (record { loadable = tt; same_path = refl }))

  -- A load from the path of a configuration whose devices are loadable leaves it so.
  pub load-IsLeft :
      (files : String → Option Bytes) (path : String) (config : Config)
      → IsLeft path config
      → Ensures (λ r. IsLeft path r.1) (load J input_code files path config)
  unfolding load
  load-IsLeft files path config h = elim (Option-cases (files path)) [
    | inl e ↦ rw (e, load) (Ensures-returns _ h)
    | inr (content, e) ↦ elim (Option-cases (parse content)) [
      | inl f ↦
          rw (e, f, load)
            (Ensures-if (J.gives_up content) _ _ (λ _. record { at_return = λ r g. cc })
              (λ _. Ensures-returns _ h))
      | inr (root, f) ↦ rw (e, f, load) (load_root-IsLeft path root config)
    ]
  ]

  -- A load that succeeds parsed the file.
  load_parsed :
      (files : String → Option Bytes) (path : String) (config c : Config)
      → load J input_code files path config ≡ returns (true, c)
      → (root : Value) × (load_root J input_code path root config ≡ returns (true, c))
  unfolding load
  load_parsed files path config c h = elim (Option-cases (files path)) [
    | inl e ↦ absurd (ground arith)
    | inr (content, e) ↦ elim (Option-cases (parse content)) [
      | inl f ↦ absurd (ground arith)
      | inr (root, f) ↦ (root, ground arith)
    ]
  ]

  -- After a successful load every device can match or is the wildcard, binds each key once, to a
  -- key of the table, and the path is remembered for the next reload.
  pub load-IsLoadable :
      (files : String → Option Bytes) (path : String) (config c : Config)
      → load J input_code files path config ≡ returns (true, c)
      → All (IsLoadable input_code) c.devices × (c.config_path ≡ path)
  load-IsLoadable files path config c h =
      let (root, e) = load_parsed files path config c h in
      let left = (load_root-IsLeft path root config).at_return _ e in
      (left.loadable, left.same_path)

  loadable_unique :
      (dcs : List DeviceConfig) → All (IsLoadable input_code) dcs → All HasUniqueKeys dcs
  loadable_unique [] a = tt
  loadable_unique (dc ∷ dcs) a = (a.0.unique, loadable_unique dcs a.1)

  -- A reload, `load` and then `init`, answers each lookup from the loaded devices alone.
  pub lookup-reload :
      (files : String → Option Bytes) (path : String) (config c : Config) (d : String) (k : ℤ)
      → load J input_code files path config ≡ returns (true, c)
      → lookup (init c) d k ≡ or_else (configured c.devices d k) (configured c.devices "*" k)
  lookup-reload files path config c d k h =
      lookup-init c d k (loadable_unique c.devices (load-IsLoadable files path config c h).0)
