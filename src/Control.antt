-- ===== src/Control.antt =====
-- src/control.cpp: the control server's replies and its handling of one request line.
--
-- What a request reads and writes is the multiplexer's `Shared` state; the devices are what
-- DeviceManager::get_info lists. A client's connection is an observer of its own.
pub mod Client
pub mod Listening
pub mod Replies
pub mod Requests
pub mod Serve
pub mod Texts
pub mod Shaped
pub mod Answered
use Prim.Native.String.{◌++◌ as str_append}
use pointer_force.Prelude.{
  ℕ, zero, suc, ◌+◌, ◌-◌, ◌*◌, ◌%◌, ◌≤◌, ◌<◌, min, String, ◌≡◌, refl, sym, ap, subst, ◌∙◌, ◌≢◌, ◌↔◌,
  ◌⊎◌, inl, inr, Bool, true, false, not, ◌&&◌, ◌||◌, Option, none, some, List, [], ◌∷◌, ◌++◌, map,
  append_assoc, append-nil, arith, eq_iff, eq_refl, ltb, leb, nat_beq, nat_beq_iff, if◌then◌else◌,
  Eq, ◌==◌, is_empty, Bool-cases, Option-cases, length, length-append, get_elem?, In,
  In-append_left, In-append_right, In-append, All, All-append, Outcome, returns, throws,
  Outcome-cases, >>=-eq-returns, Ensures, Ensures-returns, Ensures-if, Ensures-bind, Returns,
  Returns-bind, Returns-if, Returns-after, ◌>>=◌, ◌>>◌, ℤ, pos, negsuc, is_negative, int_beq,
  int_beq_iff, string_eq, int_eq, nat_eq,
}
use pointer_force.Common.{Config, InputEvent, key_press, version}
use pointer_force.Json.{Json, Bytes}
use pointer_force.Keys.{code_to_name}
use pointer_force.Mapper.{Table, BindingEntry, init, add_binding, remove_binding, all_bindings}
use pointer_force.Config.{load}
use pointer_force.DeviceManager.{DeviceInfo}
use pointer_force.Multiplexer.{
  Observer, Shared, Outside, outside_steps, add_observer, remove_observer,
}

-- What one line did: the lines written to the client, the state, and whether the connection stays.
pub record Turn : Type 0 where
  pub replies : List Bytes
  pub state : Shared
  pub stays : Bool

abbrev pub replied : Shared → Bytes → Turn
replied s reply = record { replies = reply ∷ []; state = s; stays = true }

module _ (J : Json) where
  open J use {
    Value, parse, write, is_member, at, set_member, as_string, append, null_value, object_value,
    array_value, of_bool, of_string, of_int,
  }

  -- Assignments to members, one after the other.
  unfoldable pub set_members : List (String × Value) → Value → Outcome Value
  set_members [] v = returns v
  set_members ((k, x) ∷ fields) v = do v' ← set_member v k x; set_members fields v'

  unfoldable pub ok_response : Value → Outcome Bytes
  ok_response payload = do v ← set_member payload "ok" (of_bool true); returns (write v)

  unfoldable pub err_response : String → Outcome Bytes
  err_response msg = do
    v ← set_members (("ok", of_bool false) ∷ ("error", of_string msg) ∷ []) null_value
    returns (write v)

  -- ok ? ok_response() : err_response(msg)
  unfoldable pub ok_or : Bool → String → Outcome Bytes
  ok_or ok msg = if ok then ok_response object_value else err_response msg

  -- req[k].asString()
  unfoldable pub text_at : Value → String → Outcome String
  text_at req k = do x ← at req k; as_string x

  -- arr.append for each of the values that `row` builds
  unfoldable pub append_all : List (Outcome Value) → Value → Outcome Value
  append_all [] arr = returns arr
  append_all (row ∷ rows) arr = do x ← row; arr' ← append arr x; append_all rows arr'

  unfoldable pub status : List DeviceInfo → List BindingEntry → Bool → Config → Outcome Bytes
  status info bindings running config = do
    resp ←
        set_members
          (("version", of_string version)
            ∷ ("running", of_bool running)
            ∷ ("device_count", of_int (pos (length info)))
            ∷ ("binding_count", of_int (pos (length bindings)))
            ∷ ("config", of_string config.config_path)
            ∷ [])
          null_value
    ok_response resp

  unfoldable pub device_row : DeviceInfo → Outcome Value
  device_row di =
      set_members
        (("id", of_string di.id)
          ∷ ("path", of_string di.path)
          ∷ ("name", of_string di.hw_name)
          ∷ ("active", of_bool di.active)
          ∷ [])
        null_value

  unfoldable pub devices : List DeviceInfo → Outcome Bytes
  devices info = do
    arr ← append_all (map device_row info) array_value
    resp ← set_members (("devices", arr) ∷ []) null_value
    ok_response resp

  unfoldable pub binding_row : BindingEntry → Outcome Value
  binding_row b =
      set_members
        (("device", of_string b.device_id)
          ∷ ("key", of_string b.key_name)
          ∷ ("code", of_int b.keycode)
          ∷ ("command", of_string b.command)
          ∷ [])
        null_value

  -- if (!filter.empty() && b.device_id != filter) continue;
  unfoldable pub keep : String → List BindingEntry → List BindingEntry
  keep filter [] = []
  keep filter (b ∷ bs) =
      if not (is_empty filter) && not (b.device_id == filter)
      then keep filter bs
      else b ∷ keep filter bs

  unfoldable pub bindings : Value → List BindingEntry → Outcome Bytes
  bindings req entries = do
    there ← is_member req "device"
    filter ← (if there then text_at req "device" else returns "")
    arr ← append_all (map binding_row (keep filter entries)) array_value
    resp ← set_members (("bindings", arr) ∷ []) null_value
    ok_response resp

  -- req.isMember(k) for each of the names, left to right, until one is missing
  unfoldable pub has_all : List String → Value → Outcome Bool
  has_all [] req = returns true
  has_all (k ∷ ks) req = do there ← is_member req k; if there then has_all ks req else returns false

module _ (J : Json) (input_code : String → ℕ) where
  open J use {Value, write, at, as_string, null_value, of_string, of_int}

  unfoldable pub bind : Value → Shared → Outcome Turn
  bind req s = do
    complete ← has_all J ("device" ∷ "key" ∷ "command" ∷ []) req
    if complete
        then (do
          device ← text_at J req "device"
          key ← text_at J req "key"
          command ← text_at J req "command"
          let (table, ok) = add_binding input_code s.table device key command
          reply ← ok_or J ok "Unknown key name"
          returns (replied (record s { table = table }) reply))
        else (do
          reply ← err_response J "bind requires fields: device, key, command"
          returns (replied s reply))

  unfoldable pub unbind : Value → Shared → Outcome Turn
  unbind req s = do
    complete ← has_all J ("device" ∷ "key" ∷ []) req
    if complete
        then (do
          device ← text_at J req "device"
          key ← text_at J req "key"
          let (table, ok) = remove_binding input_code s.table device key
          reply ← ok_or J ok "Binding not found"
          returns (replied (record s { table = table }) reply))
        else (do
          reply ← err_response J "unbind requires fields: device, key"
          returns (replied s reply))

  -- The observer of an event stream: the line that it writes, if it writes one.
  unfoldable pub event_line : Bool → InputEvent → String → Outcome (Option Bytes)
  event_line disconnected ev bound_cmd =
      if disconnected
      then returns none
      else if not (int_beq ev.value key_press)
      then returns none
      else (do
        msg ←
            set_members J
              (("type", of_string "event")
                ∷ ("device", of_string ev.device_id)
                ∷ ("path", of_string ev.device_path)
                ∷ ("key", of_string (code_to_name input_code ev.code))
                ∷ ("code", of_int ev.code)
                ∷ ("command", of_string bound_cmd)
                ∷ [])
              null_value
        returns (some (write msg)))

-- The stream registers its observer, stays for as long as the client does, while `meanwhile`
-- happens in the other threads, and takes the observer out again.
unfoldable pub events : Observer → List Outside → Shared → Turn
events client meanwhile s =
    let (obs_id, s') = add_observer client s in
    record {
      replies = [];
      state = remove_observer obs_id (outside_steps meanwhile s');
      stays = false;
    }

module _ (J : Json) (input_code : String → ℕ) (files : String → Option Bytes) where
  open J use {Value, parse, gives_up, is_member, at, as_string}

  abbrev pub reload_result : Shared → Bool × Config → Shared
  reload_result s (true, c) = record s { config = c; table = init c }
  reload_result s (false, c) = record s { config = c }

  unfoldable pub reload : Shared → Outcome Turn
  reload s = do
    result ← load J input_code files s.config.config_path s.config
    reply ← ok_or J result.0 "Config reload failed – see log"
    returns (replied (reload_result s result) reply)

  module _ (info : List DeviceInfo) (client : Observer) (meanwhile : List Outside) where
    unfoldable pub dispatch : String → Value → Shared → Outcome Turn
    dispatch cmd req s =
        if cmd == "status"
        then (do
          reply ← status J info (all_bindings input_code s.table) s.is_running s.config
          returns (replied s reply))
        else if cmd == "devices"
        then (do reply ← devices J info; returns (replied s reply))
        else if cmd == "bindings"
        then (do
          reply ← bindings J req (all_bindings input_code s.table)
          returns (replied s reply))
        else if cmd == "bind"
        then bind J input_code req s
        else if cmd == "unbind"
        then unbind J input_code req s
        else if cmd == "events"
        then returns (events client meanwhile s)
        else if cmd == "reload"
        then reload s
        else (do
          reply ← err_response J (str_append "Unknown command: " cmd)
          returns (replied s reply))

    -- One line that is not empty.
    unfoldable pub handle_line : Bytes → Shared → Outcome Turn
    handle_line line s = elim (parse line) [
      | none ↦ if gives_up line then throws else (do
        reply ← err_response J "Invalid JSON or missing 'cmd'"
        returns (replied s reply))
      | some req ↦ do
        there ← is_member req "cmd"
        if there then (do cmd ← text_at J req "cmd"; dispatch cmd req s) else (do
          reply ← err_response J "Invalid JSON or missing 'cmd'"
          returns (replied s reply))
    ]
