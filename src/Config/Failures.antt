-- ===== src/Config/Failures.antt =====
-- What a failed load leaves behind.
use pointer_force.Prelude.{
  ℕ, String, ◌≡◌, refl, ◌⊎◌, inl, inr, Bool, true, false, Option, none, some, [], arith,
  Option-cases, returns, Ensures, Ensures-returns, Ensures-if, Ensures-bind, string_eq, int_eq,
  nat_eq,
}
use pointer_force.Common.{Config}
use pointer_force.Json.{Json, Bytes, IsTotalOnKinds}
use pointer_force.Json.Access.{has_kind, string_or, bool_or, bool_or-Returns, string_or-Returns}
use pointer_force.Config.{read_devices, load_root, load}

module _ (J : Json) (input_code : String → ℕ) where
  open J use {Value, parse, at, elements, is_object, is_array, is_string}

  abbrev ClearedIfFailed : Bool × Config → Type 0
  ClearedIfFailed r = r.0 ≡ false → r.1.devices ≡ []

  load_root_failed :
      (path : String) (root : Value) (config : Config)
      → Ensures ClearedIfFailed (load_root J input_code path root config)
  unfolding load_root
  load_root_failed path root config =
      Ensures-bind (bool_or J root "daemon" config.daemon_mode) _ λ _ _.
        Ensures-bind (bool_or J root "debug" config.debug) _ λ _ _.
          Ensures-bind (string_or J root "control_socket" config.control_socket) _ λ _ _.
            Ensures-bind (has_kind J is_array root "devices") _ λ array _.
              Ensures-if array _ _
                (λ _. Ensures-bind (at root "devices") _ λ devs _.
                  Ensures-bind (read_devices J input_code (elements devs)) _
                    λ dcs e. Ensures-returns _ (λ h. cc))
                (λ _. Ensures-returns _ (λ _. refl))

  -- A load that returns false leaves the configuration as it was if the file cannot be opened or
  -- parsed, and leaves it without any device if it can.
  load_failed :
      (files : String → Option Bytes) (path : String) (config c : Config)
      → load J input_code files path config ≡ returns (false, c)
      → (((content : Bytes) → files path ≡ some content → parse content ≡ none) × (c ≡ config))
        ⊎ ((content : Bytes) × (root : Value) × (files path ≡ some content)
            × (parse content ≡ some root)
            × (c.devices ≡ []))
  unfolding load
  load_failed files path config c h = elim (Option-cases (files path)) [
    | inl e ↦ inl ((λ content f. ground arith), ground arith)
    | inr (content, e) ↦ elim (Option-cases (parse content)) [
      | inl f ↦ inl ((λ other g. ground arith), ground arith)
      | inr (root, f) ↦ inr (
        content,
        root,
        e,
        f,
        (load_root_failed path root config).at_return (false, c) (ground arith) refl,
      )
    ]
  ]

  -- A file that is a JSON object without a devices array makes the load fail, drops every device
  -- that was configured and takes over the path, whatever the configuration was.
  pub load_without_devices :
      (total : IsTotalOnKinds J) (files : String → Option Bytes) (path : String) (config : Config)
      (content : Bytes) (root : Value)
      → files path ≡ some content
      → parse content ≡ some root
      → is_object root ≡ true
      → has_kind J is_array root "devices" ≡ returns false
      → (c : Config) × (load J input_code files path config ≡ returns (false, c))
        × (c.devices ≡ [])
        × (c.config_path ≡ path)
  unfolding load load_root
  load_without_devices total files path config content root opened parsed object missing =
      let (d, e) = bool_or-Returns J total root "daemon" config.daemon_mode object in
      let (b, f) = bool_or-Returns J total root "debug" config.debug object in
      let (s, g) = string_or-Returns J total root "control_socket" config.control_socket object in
      (
        record { devices = []; daemon_mode = d; debug = b; control_socket = s; config_path = path },
        ground (arith, e, f, g),
        refl,
        refl,
      )
