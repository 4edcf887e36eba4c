-- ===== src/Config.antt =====
-- src/config.cpp: loading and validating the configuration.
--
-- `g_config` is passed in and handed back. `files` gives the content of the files that can be
-- opened, and an exception that escapes `load` ends the process: nothing in the program catches it.
pub mod Loaded
pub mod Failures
use pointer_force.Prelude.{
  ℕ, zero, suc, ◌+◌, ◌-◌, ◌*◌, ◌%◌, ◌≤◌, ◌<◌, min, String, ◌≡◌, refl, sym, ap, subst, ◌∙◌, ◌≢◌, ◌↔◌,
  ◌⊎◌, inl, inr, Bool, true, false, not, ◌&&◌, ◌||◌, Option, none, some, List, [], ◌∷◌, ◌++◌, map,
  append_assoc, append-nil, arith, eq_iff, eq_refl, ltb, leb, nat_beq, nat_beq_iff, if◌then◌else◌,
  Eq, ◌==◌, is_empty, Bool-cases, Option-cases, length, length-append, get_elem?, In,
  In-append_left, In-append_right, In-append, All, All-append, Outcome, returns, throws, ◌>>=◌,
  ◌>>◌, ℤ, pos, negsuc, is_negative, int_beq, int_beq_iff, string_eq, int_eq, nat_eq,
}
use pointer_force.Assoc.{Assoc, find, assign}
use pointer_force.Common.{DeviceMatch, DeviceConfig, Config}
use pointer_force.Keys.{name_to_code}
use pointer_force.Json.{Json, Bytes}
use pointer_force.Json.Access.{has_kind, string_or, bool_or}

abbrev pub no_match : DeviceMatch
no_match = record { name_contains = ""; vendor_product = ""; path = "" }

-- No criterion is given.
abbrev pub lacks_criteria : DeviceMatch → Bool
lacks_criteria m = is_empty m.name_contains && is_empty m.vendor_product && is_empty m.path

abbrev pub push_if : Option DeviceConfig → List DeviceConfig → List DeviceConfig
push_if none dcs = dcs
push_if (some dc) dcs = dc ∷ dcs

module _ (J : Json) where
  open J use {Value, at, is_object}

  unfoldable pub read_match : Value → Outcome DeviceMatch
  read_match dev = do
    object ← has_kind J is_object dev "match"
    if object
        then (do
          m ← at dev "match"
          name ← string_or J m "name" ""
          vendor_product ← string_or J m "vendor_product" ""
          path ← string_or J m "path" ""
          returns (record { name_contains = name; vendor_product = vendor_product; path = path }))
        else (do path ← string_or J dev "path" ""; returns (record no_match { path = path }))

module _ (J : Json) (input_code : String → ℕ) where
  open J use {
    Value, parse, gives_up, is_member, at, is_bool, is_string, is_array, is_object, as_bool,
    as_string, elements, get_member_names,
  }

  unfoldable pub read_binding : Value → String → Assoc ℤ String → Outcome (Assoc ℤ String)
  read_binding bindings key_name sub =
      let code = name_to_code input_code key_name in
      if is_negative code
      then returns sub
      else (do x ← at bindings key_name; cmd ← as_string x; returns (assign code cmd sub))

  unfoldable pub read_members : Value → List String → Assoc ℤ String → Outcome (Assoc ℤ String)
  read_members bindings [] sub = returns sub
  read_members bindings (key_name ∷ names) sub = do
    sub' ← read_binding bindings key_name sub
    read_members bindings names sub'

  unfoldable pub read_bindings : Value → Outcome (Assoc ℤ String)
  read_bindings dev = do
    object ← has_kind J is_object dev "bindings"
    if object
        then (do
          bindings ← at dev "bindings"
          names ← get_member_names bindings
          read_members bindings names [])
        else returns []

  unfoldable pub finish_device : Value → String → DeviceMatch → Outcome (Option DeviceConfig)
  finish_device dev id m = if lacks_criteria m && not (id == "*") then returns none else (do
    grab ← bool_or J dev "grab" false
    bindings ← read_bindings dev
    returns (some (record { id = id; criteria = m; grab = grab; bindings = bindings })))

  -- One entry of the devices array; `none` if it is skipped.
  unfoldable pub read_device : Value → Outcome (Option DeviceConfig)
  read_device dev = do
    named ← has_kind J is_string dev "id"
    if named
        then (do x ← at dev "id"; id ← as_string x; m ← read_match J dev; finish_device dev id m)
        else returns none

  unfoldable pub read_devices : List Value → Outcome (List DeviceConfig)
  read_devices [] = returns []
  read_devices (dev ∷ devs) = do
    dc ← read_device dev
    dcs ← read_devices devs
    returns (push_if dc dcs)

  -- What follows the parse: the devices are cleared and the path is remembered at once.
  unfoldable pub load_root : String → Value → Config → Outcome (Bool × Config)
  load_root path root config = do
    daemon_mode ← bool_or J root "daemon" config.daemon_mode
    debug ← bool_or J root "debug" config.debug
    control_socket ← string_or J root "control_socket" config.control_socket
    let global : Config = record {
      devices = [];
      daemon_mode = daemon_mode;
      debug = debug;
      control_socket = control_socket;
      config_path = path;
    }
    array ← has_kind J is_array root "devices"
    if array
        then (do
          devs ← at root "devices"
          dcs ← read_devices (elements devs)
          returns (true, record global { devices = dcs }))
        else returns (false, global)

  unfoldable pub load : (String → Option Bytes) → String → Config → Outcome (Bool × Config)
  load files path config = elim (files path) [
    | none ↦ returns (false, config)
    | some content ↦ elim (parse content) [
      | none ↦ if gives_up content then throws else returns (false, config)
      | some root ↦ load_root path root config
    ]
  ]

unfoldable pub validate : Config → Bool
validate config = elim config.devices [ [] ↦ false | _ ↦ true ]
