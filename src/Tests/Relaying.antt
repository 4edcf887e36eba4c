-- ===== src/Tests/Relaying.antt =====
-- The bridge passes a command on.
use pointer_force.Prelude.{
  ◌⊎◌, ◌≢◌, List, [], ◌∷◌, ◌++◌, String, Option, if◌then◌else◌, ◌==◌, ◌≡◌, refl, ◌⊎◌, true, false,
  some, returns, string_eq, int_eq, nat_eq,
}
use pointer_force.Control.{text_at}
use pointer_force.Control.Requests.{HasText}
use pointer_force.ControlClient.{Result, response}
use pointer_force.Json.{Bytes}
use pointer_force.Socket.{split}
use pointer_force.Bridge.Events.{
  StreamCall, arrives, pulls, Delivery, IsWithin, stream_calls, arrivals, stream_calls-IsWithin,
}
use pointer_force.Bridge.{
  get, get_text, enqueue, next_chunk, format_event_line, daemon_says, json_ok, command_failed,
  api_bind,
}
use pointer_force.Bridge.Relay.{HasBool, bind_relayed}
use pointer_force.Bridge.Warning.{
  NamesOne, config_path, warning_text, attach_config_warning, attached,
}
use pointer_force.Tests.Sample.{
  Doc, text, boolean, object, end, member, find_member, request, sample_json,
}
use pointer_force.Tests.Building.{sample-IsBuilding, sample-IsReadable}

has_device : HasText sample_json request "device" "mouse"
unfolding text_at find_member
has_device = (refl, refl)

has_key : HasText sample_json request "key" "KEY_MUTE"
unfolding text_at find_member
has_key = (refl, refl)

has_command : HasText sample_json request "command" "mute"
unfolding text_at find_member
has_command = (refl, refl)

-- A daemon that accepts every request.
abbrev accepted : Doc
accepted = object (member "ok" (boolean true) end)

says_ok : HasBool sample_json accepted "ok" true
unfolding find_member
says_ok = (refl, refl)

abbrev accepts : Doc → Result Doc
accepts v = response accepted

bind_relayed_example :
    ((true ≡ true)
      × ((doc : Doc) × (api_bind sample_json (λ n. "1") accepts (some request)
            ≡ returns (json_ok doc))))
    ⊎ ((true ≡ false)
        × (api_bind sample_json (λ n. "1") accepts (some request)
            ≡ returns (command_failed (daemon_says "none"))))
bind_relayed_example =
    bind_relayed sample_json sample-IsBuilding sample-IsReadable (λ n. "1") accepts request accepted
      "mouse" "KEY_MUTE" "mute" "none" true has_device has_key has_command refl (λ req h. refl)
      says_ok (λ h. cc)

-- A daemon that loaded another file.
abbrev elsewhere : Doc
elsewhere = object (member "ok" (boolean true) (member "config" (text "/etc/pf.json") end))

elsewhere_ok : HasBool sample_json elsewhere "ok" true
unfolding find_member
elsewhere_ok = (refl, refl)

elsewhere_path : HasText sample_json elsewhere "config" "/etc/pf.json"
unfolding text_at find_member
elsewhere_path = (refl, refl)

abbrev absolute : String → Option String
absolute path = if path == config_path then some "/srv/config/pointerforce.json" else some path

attached_example :
    (j' : Doc) × (attach_config_warning sample_json absolute (λ req. response elsewhere) accepted
      ≡ returns j')
    × ((k : String) → (k == "warning") ≡ false → sample_json.at j' k ≡ sample_json.at accepted k)
    × (((◌≡◌ {A = String} "/etc/pf.json" "" ⊎ NamesOne absolute "/etc/pf.json" config_path)
          × (j' ≡ accepted))
        ⊎ ((◌≢◌ {A = String} "/etc/pf.json" "")
            × (¬ NamesOne absolute "/etc/pf.json" config_path)
            × HasText sample_json j' "warning" (warning_text "/etc/pf.json")))
attached_example =
    attached sample_json sample-IsBuilding sample-IsReadable absolute (λ req. response elsewhere)
      elsewhere accepted "/etc/pf.json" (λ req h. refl) elsewhere_ok elsewhere_path refl

abbrev no_bytes : String → Bytes
no_bytes s = []

abbrev calls : List (StreamCall Doc)
calls = arrives request ∷ pulls 80 ∷ pulls 80 ∷ arrives request ∷ []

abbrev delivery : Delivery
delivery = record {
  chunks = [] ∷ [] ∷ [];
  taken = "[mouse] KEY_MUTE  →  mute" ∷ [];
  queue = "[mouse] KEY_MUTE  →  mute" ∷ [];
}

delivered : stream_calls sample_json no_bytes calls [] ≡ returns delivery
unfolding stream_calls next_chunk split enqueue format_event_line get_text get find_member
delivered = refl

arrived :
    arrivals sample_json no_bytes calls
    ≡ returns ("[mouse] KEY_MUTE  →  mute" ∷ "[mouse] KEY_MUTE  →  mute" ∷ [])
unfolding arrivals format_event_line get_text get find_member
arrived = refl

stream_calls-IsWithin_example :
    IsWithin
      (delivery.taken ++ delivery.queue)
      ("[mouse] KEY_MUTE  →  mute" ∷ "[mouse] KEY_MUTE  →  mute" ∷ [])
stream_calls-IsWithin_example =
    stream_calls-IsWithin sample_json no_bytes calls []
      ("[mouse] KEY_MUTE  →  mute" ∷ "[mouse] KEY_MUTE  →  mute" ∷ []) delivery arrived delivered
