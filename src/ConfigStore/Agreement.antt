-- ===== src/ConfigStore/Agreement.antt =====
-- The editor and the daemon agree: what the one accepts, the other loads.
pub mod Inversion
mod Loading
use pointer_force.Prelude.{
  ℕ, zero, suc, ◌+◌, ◌-◌, ◌*◌, ◌%◌, ◌≤◌, ◌<◌, min, String, ◌≡◌, refl, sym, ap, subst, ◌∙◌, ◌≢◌, ◌↔◌,
  ◌⊎◌, inl, inr, Bool, true, false, not, ◌&&◌, ◌||◌, Option, none, some, List, [], ◌∷◌, ◌++◌, map,
  append_assoc, append-nil, arith, eq_iff, eq_refl, ltb, leb, nat_beq, nat_beq_iff, if◌then◌else◌,
  Eq, ◌==◌, is_empty, Bool-cases, Option-cases, length, length-append, get_elem?, In,
  In-append_left, In-append_right, In-append, All, All-append, Outcome, returns, throws,
  Outcome-cases, >>=-eq-returns, Ensures, Ensures-returns, Ensures-if, Ensures-bind, Returns,
  Returns-bind, Returns-if, ◌>>=◌, ◌>>◌, ℤ, pos, negsuc, is_negative, int_beq, int_beq_iff,
  string_eq, int_eq, nat_eq,
}
use pointer_force.Common.{DeviceConfig, Config}
use pointer_force.Json.{Json, IsTotalOnKinds}
use pointer_force.Json.Access.{has_kind, bool_or, string_or, bool_or-Returns, string_or-Returns}
use pointer_force.Config.{read_devices, load_root}
use pointer_force.ConfigStore.{valid, validate, check_devices}
use Inversion.{valid_config, valid_devices}
use Loading.{read_devices-Returns, read_devices-AreDistinct}
pub use Loading.{AreDistinct}

abbrev load_result : Bool → Bool → String → String → List DeviceConfig → Config
load_result daemon_mode debug control_socket path dcs = record {
  devices = dcs;
  daemon_mode = daemon_mode;
  debug = debug;
  control_socket = control_socket;
  config_path = path;
}

module _ (J : Json) (total : IsTotalOnKinds J) (input_code : String → ℕ) where
  open J use {Value, is_member, at, is_array, is_object, elements}

  -- The devices part of a load of a valid document.
  valid_devices_read :
      (root : Value)
      → check_devices J root ≡ returns valid
      → is_member root "devices" ≡ returns true
      → (ds : Value) × (dcs : List DeviceConfig) × (at root "devices" ≡ returns ds)
        × (is_array ds ≡ true)
        × (read_devices J input_code (elements ds) ≡ returns dcs)
        × AreDistinct [] dcs
  valid_devices_read root v m =
      let (ds, e, a, w) = valid_devices J root v m in
      let (dcs, r) = read_devices-Returns J total input_code (elements ds) [] w in
      (ds, dcs, e, a, r, (read_devices-AreDistinct J input_code (elements ds) [] w).at_return dcs r)

  -- A document that the editor accepts is loaded without an exception. The load succeeds exactly
  -- if the document has a devices member, and the loaded devices have pairwise distinct ids.
  pub validated-load_root :
      (path : String) (root : Value) (config : Config) (listed : Bool)
      → validate J root ≡ returns valid
      → is_member root "devices" ≡ returns listed
      → (c : Config) × (load_root J input_code path root config ≡ returns (listed, c))
        × AreDistinct [] c.devices
  unfolding load_root has_kind
  validated-load_root path root config listed v m =
      let (object, checked) = valid_config J root v in
      let (d, e) = bool_or-Returns J total root "daemon" config.daemon_mode object in
      let (b, f) = bool_or-Returns J total root "debug" config.debug object in
      let (s, g) = string_or-Returns J total root "control_socket" config.control_socket object in
      let global = λ (dcs : List DeviceConfig). load_result d b s path dcs in
      elim (Bool-cases listed) [
        | inl t ↦
            let (ds, dcs, h, a, r, distinct) = valid_devices_read root checked (m ∙ ap returns t) in
            (global dcs, ground (arith, e, f, g, h, a, r), distinct)
        | inr n ↦ (global [], ground (arith, e, f, g), tt)
      ]
