-- ===== src/Bridge.antt =====
-- frontend/main.cpp: the handlers that pass a command on to the daemon, and the queue of an event
-- stream. The transport is what ControlClient::send makes of a request.
pub mod Events
pub mod Queue
pub mod Relay
pub mod Warning
use Prim.Native.String.{◌++◌ as str_append}
use pointer_force.Prelude.{
  ℕ, zero, suc, ◌+◌, ◌-◌, ◌<◌, ◌≤◌, String, ◌≡◌, refl, sym, ap, subst, ◌∙◌, ◌⊎◌, inl, inr, Bool,
  true, false, not, ◌&&◌, ◌||◌, Option, none, some, List, [], ◌∷◌, ◌++◌, append_assoc, append-nil,
  arith, eq_iff, nat_beq, leb, ltb, if◌then◌else◌, ◌==◌, is_empty, Bool-cases, Option-cases,
  Outcome-cases, length, length-append, Outcome, returns, throws, ◌>>=◌, string_eq, ℤ, pos, map,
}
use pointer_force.Json.{Json, Bytes}
use pointer_force.Control.{set_members, text_at, has_all, append_all}
use pointer_force.ControlClient.{
  Result, cannot_connect, write_failed, empty_response, invalid_response, response,
}
use pointer_force.Socket.{split}

-- Why a command failed: the transport, or what the daemon says.
pub data CommandError : Type 0 where
  no_transport : CommandError
  daemon_says : String → CommandError

pub data CommandOutcome (V : Type 0) : Type 0 where
  succeeded : V → CommandOutcome V
  failed : CommandError → CommandOutcome V

-- An HTTP reply: a JSON document, a refusal of the request (400), or the failure of the command
-- (500).
pub data HttpReply (V : Type 0) : Type 0 where
  json_ok : V → HttpReply V
  bad_request : String → HttpReply V
  command_failed : CommandError → HttpReply V

module _ (J : Json) where
  open J use {
    Value, is_member, at, set_member, as_bool, as_string, as_int, elements, null_value, array_value,
    of_bool, of_string, of_int,
  }

  -- v.get(k, default)
  unfoldable pub get : Value → String → Value → Outcome Value
  get v k default = do there ← is_member v k; if there then at v k else returns default

  -- v.get(k, default).asString()
  unfoldable pub get_text : Value → String → String → Outcome String
  get_text v k default = do x ← get v k (of_string default); as_string x

  unfoldable pub get_bool : Value → String → Outcome Bool
  get_bool v k = do x ← get v k (of_bool false); as_bool x

  unfoldable pub run_command : (Value → Result Value) → Value → Outcome (CommandOutcome Value)
  run_command transport request = elim (transport request) [
    | response r ↦ do
      ok ← get_bool r "ok"
      if ok
          then returns (succeeded r)
          else (do error ← get_text r "error" "unknown error"; returns (failed (daemon_says error)))
    | _ ↦ returns (failed no_transport)
  ]

  -- The reply that a handler makes of the outcome of its command.
  abbrev pub relayed : CommandOutcome Value → (Value → Outcome Value) → Outcome (HttpReply Value)
  relayed (failed e) build = returns (command_failed e)
  relayed (succeeded r) build = do j ← build r; returns (json_ok j)

  unfoldable pub relay :
      (Value → Result Value)
      → List (String × Value)
      → (Value → Outcome Value)
      → Outcome (HttpReply Value)
  relay transport fields build = do
    req ← set_members J fields null_value
    outcome ← run_command transport req
    relayed outcome build

  abbrev yes_or_no : Bool → String
  yes_or_no b = if b then "yes" else "no"

  -- `decimal` is std::to_string.
  unfoldable pub status_document : (ℤ → String) → Value → Outcome Value
  status_document decimal r = do
    version ← get_text r "version" ""
    running ← get_bool r "running"
    d ← get r "device_count" (of_int (pos 0))
    device_count ← as_int d
    b ← get r "binding_count" (of_int (pos 0))
    binding_count ← as_int b
    config ← get_text r "config" ""
    set_members J
        (("version", of_string version)
          ∷ ("running", of_string (yes_or_no running))
          ∷ ("devices", of_string (decimal device_count))
          ∷ ("bindings", of_string (decimal binding_count))
          ∷ ("config", of_string config)
          ∷ [])
        null_value

  unfoldable pub device_out : Value → Outcome Value
  device_out d = do
    id ← get_text d "id" ""
    path ← get_text d "path" ""
    name ← get_text d "name" ""
    active ← get_bool d "active"
    set_members J
        (("id", of_string id)
          ∷ ("path", of_string path)
          ∷ ("name", of_string name)
          ∷ ("active", of_string (yes_or_no active))
          ∷ [])
        null_value

  unfoldable pub binding_out : Value → Outcome Value
  binding_out b = do
    device ← get_text b "device" ""
    key ← get_text b "key" ""
    command ← get_text b "command" ""
    set_members J
        (("device", of_string device)
          ∷ ("key", of_string key)
          ∷ ("command", of_string command)
          ∷ [])
        null_value

  -- The elements of the member, each converted.
  unfoldable pub converted : String → (Value → Outcome Value) → Value → Outcome Value
  converted k row r = do xs ← at r k; append_all J (map row (elements xs)) array_value

  unfoldable pub done_document : String → Outcome Value
  done_document output =
      set_members J (("ok", of_bool true) ∷ ("output", of_string output) ∷ []) null_value

  module _ (decimal : ℤ → String) (transport : Value → Result Value) where
    unfoldable pub api_status : Outcome (HttpReply Value)
    api_status = relay transport (("cmd", of_string "status") ∷ []) (status_document decimal)

    unfoldable pub api_devices : Outcome (HttpReply Value)
    api_devices =
        relay transport (("cmd", of_string "devices") ∷ []) (converted "devices" device_out)

    unfoldable pub api_bindings : Outcome (HttpReply Value)
    api_bindings =
        relay transport (("cmd", of_string "bindings") ∷ []) (converted "bindings" binding_out)

    unfoldable pub api_reload : Outcome (HttpReply Value)
    api_reload =
        relay transport (("cmd", of_string "reload") ∷ []) λ r. done_document "config reloaded"

    unfoldable pub api_bind : Option Value → Outcome (HttpReply Value)
    api_bind none = returns (bad_request "request body must include device, key, command")
    api_bind (some json) = do
      complete ← has_all J ("device" ∷ "key" ∷ "command" ∷ []) json
      if complete
          then (do
            device ← text_at J json "device"
            key ← text_at J json "key"
            command ← text_at J json "command"
            if is_empty device || (is_empty key || is_empty command)
                then returns (bad_request "device, key, and command must be non-empty")
                else relay transport
                    (("cmd", of_string "bind")
                      ∷ ("device", of_string device)
                      ∷ ("key", of_string key)
                      ∷ ("command", of_string command)
                      ∷ [])
                    λ r.
                      done_document (str_append "bound " (str_append device (str_append " " key))))
          else returns (bad_request "request body must include device, key, command")

    unfoldable pub api_unbind : Option Value → Outcome (HttpReply Value)
    api_unbind none = returns (bad_request "request body must include device, key")
    api_unbind (some json) = do
      complete ← has_all J ("device" ∷ "key" ∷ []) json
      if complete
          then (do
            device ← text_at J json "device"
            key ← text_at J json "key"
            if is_empty device || is_empty key
                then returns (bad_request "device and key must be non-empty")
                else relay transport
                    (("cmd", of_string "unbind")
                      ∷ ("device", of_string device)
                      ∷ ("key", of_string key)
                      ∷ [])
                    λ r.
                      done_document
                        (str_append "unbound " (str_append device (str_append " " key))))
          else returns (bad_request "request body must include device, key")

  unfoldable pub format_event_line : Value → Outcome String
  format_event_line event = do
    device ← get_text event "device" ""
    key ← get_text event "key" ""
    command ← get_text event "command" ""
    let line : String = str_append "[" (str_append device (str_append "] " key))
    returns (if is_empty command then line else str_append line (str_append "  →  " command))

-- The callback of the event stream: the oldest line is dropped from a long queue.
unfoldable pub enqueue : String → List String → List String
enqueue line [] = line ∷ []
enqueue line (front ∷ queue) =
    if ltb 500 (length (front ∷ queue)) then queue ++ line ∷ [] else (front ∷ queue) ++ line ∷ []

-- The line that one call of the stream's callback takes, or that there is none after 15 seconds.
abbrev pub take_line : List String → Option String × List String
take_line [] = (none, [])
take_line (front ∷ queue) = (some front, queue)

abbrev pub chunk_text : Option String → String
chunk_text none = ": keep-alive\n\n"
chunk_text (some line) = str_append "data: " (str_append line "\n\n")

-- What the call writes, at most `max_len` bytes, and the queue after it; `bytes` are those of a
-- string.
unfoldable pub next_chunk : (String → Bytes) → ℕ → List String → Bytes × List String
next_chunk bytes max_len queue =
    let (line, rest) = take_line queue in ((split max_len (bytes (chunk_text line))).0, rest)
