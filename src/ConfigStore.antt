-- ===== src/ConfigStore.antt =====
-- frontend/services/ConfigStore.cc: reading, validating and writing the configuration file.
--
-- Each `error` text that the code builds is a constructor of `Refusal` here.
pub mod Checks
pub mod Agreement
pub mod Disk
use pointer_force.Prelude.{
  ℕ, zero, suc, ◌+◌, ◌-◌, ◌*◌, ◌%◌, ◌≤◌, ◌<◌, min, String, ◌≡◌, refl, sym, ap, subst, ◌∙◌, ◌≢◌, ◌↔◌,
  ◌⊎◌, inl, inr, Bool, true, false, not, ◌&&◌, ◌||◌, Option, none, some, List, [], ◌∷◌, ◌++◌, map,
  append_assoc, append-nil, arith, eq_iff, eq_refl, ltb, leb, nat_beq, nat_beq_iff, if◌then◌else◌,
  Eq, ◌==◌, is_empty, Bool-cases, Option-cases, length, length-append, get_elem?, In,
  In-append_left, In-append_right, In-append, All, All-append, Outcome, returns, throws,
  Outcome-cases, >>=-eq-returns, Ensures, Ensures-returns, Ensures-if, Ensures-bind, ◌>>=◌, ◌>>◌, ℤ,
  pos, negsuc, is_negative, int_beq, int_beq_iff, string_eq, int_eq, nat_eq,
}
use pointer_force.Json.{Json, Bytes}
use pointer_force.Json.Access.{has_kind}

pub data Refusal : Type 0 where
  device_not_object bad_id match_not_object match_missing grab_not_bool bindings_not_object :
      Refusal
  binding_not_string : String → Refusal
  config_not_object daemon_not_bool debug_not_bool socket_not_string devices_not_array : Refusal
  duplicate_id : String → Refusal

pub data Verdict : Type 0 where
  valid : Verdict
  invalid : Refusal → Verdict

-- The next check, unless one failed and the function has returned.
abbrev pub if_valid : Verdict → Outcome Verdict → Outcome Verdict
if_valid valid next = next
if_valid (invalid r) next = returns (invalid r)

abbrev pub require : Bool → Refusal → Verdict
require true r = valid
require false r = invalid r

-- seenIds.count(id)
unfoldable pub seen : String → List String → Bool
seen id [] = false
seen id (x ∷ xs) = id == x || seen id xs

module _ (J : Json) where
  open J use {
    Value, parse, is_member, at, is_bool, is_string, is_array, is_object, as_string, elements,
    get_member_names,
  }

  -- if (v.isMember(k) && !v[k].isKind()) refuse
  unfoldable pub check_kind : (Value → Bool) → Value → String → Refusal → Outcome Verdict
  check_kind is_kind v k r = do
    there ← is_member v k
    if there then (do x ← at v k; returns (require (is_kind x) r)) else returns valid

  unfoldable pub check_match : Value → String → Outcome Verdict
  check_match device id = do
    there ← is_member device "match"
    if there
        then (do m ← at device "match"; returns (require (is_object m) match_not_object))
        else returns (require (id == "*") match_missing)

  unfoldable pub check_commands : Value → List String → Outcome Verdict
  check_commands bindings [] = returns valid
  check_commands bindings (key ∷ keys) = do
    x ← at bindings key
    if is_string x then check_commands bindings keys else returns (invalid (binding_not_string key))

  unfoldable pub check_bindings : Value → Outcome Verdict
  check_bindings device = do
    there ← is_member device "bindings"
    if there
        then (do
          bindings ← at device "bindings"
          if is_object bindings
              then (do names ← get_member_names bindings; check_commands bindings names)
              else returns (invalid bindings_not_object))
        else returns valid

  unfoldable pub check_parts : Value → String → Outcome Verdict
  check_parts device id = do
    matches ← check_match device id
    if_valid matches (do
      grab ← check_kind is_bool device "grab" grab_not_bool
      if_valid grab (check_bindings device))

  unfoldable pub validate_device : Value → Outcome Verdict
  validate_device device =
      if is_object device
      then (do
        named ← has_kind J is_string device "id"
        if named
            then (do
              x ← at device "id"
              id ← as_string x
              if is_empty id then returns (invalid bad_id) else check_parts device id)
            else returns (invalid bad_id))
      else returns (invalid device_not_object)

  unfoldable pub validate_devices : List Value → List String → Outcome Verdict
  validate_devices [] ids = returns valid
  validate_devices (device ∷ devices) ids = do
    verdict ← validate_device device
    if_valid verdict (do
      x ← at device "id"
      id ← as_string x
      if seen id ids
          then returns (invalid (duplicate_id id))
          else validate_devices devices (id ∷ ids))

  unfoldable pub check_devices : Value → Outcome Verdict
  check_devices config = do
    there ← is_member config "devices"
    if there
        then (do
          devices ← at config "devices"
          if is_array devices
              then validate_devices (elements devices) []
              else returns (invalid devices_not_array))
        else returns valid

  unfoldable pub validate : Value → Outcome Verdict
  validate config =
      if is_object config
      then (do
        daemon ← check_kind is_bool config "daemon" daemon_not_bool
        if_valid daemon (do
          debug ← check_kind is_bool config "debug" debug_not_bool
          if_valid debug (do
            socket ← check_kind is_string config "control_socket" socket_not_string
            if_valid socket (check_devices config))))
      else returns (invalid config_not_object)

pub data ReadResult (V : Type 0) : Type 0 where
  content : V → ReadResult V
  cannot_open invalid_json not_an_object : ReadResult V

module _ (J : Json) where
  open J use {Value, parse, is_object}

  unfoldable pub read : (String → Option Bytes) → String → ReadResult Value
  read files path = elim (files path) [
    | none ↦ cannot_open
    | some text ↦ elim (parse text) [
      | none ↦ invalid_json
      | some out ↦ if is_object out then content out else not_an_object
    ]
  ]
