-- ===== src/Tests/Requests.antt =====
-- The control server on small requests.
use pointer_force.Prelude.{
  ℕ, zero, suc, String, ◌≡◌, refl, subst, ◌≢◌, true, false, none, some, [], ◌∷◌, arith, eq_iff,
  ◌==◌, In, Outcome, returns, throws, pos, is_negative, string_eq, int_eq, nat_eq,
}
use pointer_force.Assoc.{find}
use pointer_force.Common.{InputEvent}
use pointer_force.Keys.{name_to_code, name_table}
use pointer_force.Json.{Bytes}
use pointer_force.Multiplexer.{Shared, executed, handle_event}
use pointer_force.Control.{Turn, replied, text_at, bind, handle_line}
use pointer_force.Control.Requests.{HasText, bind_takes_effect}
use pointer_force.Control.Shaped.{IsWellShaped, IsReplied}
use pointer_force.Control.Answered.{handle_line-answered}
use pointer_force.Control.Client.{Handled, handle_client}
use pointer_force.Control.Client.Framing.{lines_of, handle_lines, handle_client-eq-handle_lines}
use pointer_force.Tests.Sample.{
  request, Doc, text, find_member, sample_json, sample_total, sample_code,
}
use pointer_force.Tests.Building.{sample-IsBuilding}
use pointer_force.Tests.Loading.{old_config}

abbrev pub state : Shared
state = record {
  queue = record { q = []; is_shutdown = false };
  table = [];
  config = old_config;
  observers = (0, 7) ∷ [];
  next_obs_id = 1;
  is_running = true;
  reload = false;
}

has_device : HasText sample_json request "device" "mouse"
unfolding text_at find_member
has_device = (refl, refl)

has_key : HasText sample_json request "key" "KEY_MUTE"
unfolding text_at find_member
has_key = (refl, refl)

has_command : HasText sample_json request "command" "mute"
unfolding text_at find_member
has_command = (refl, refl)

mute_known : is_negative (name_to_code sample_code "KEY_MUTE") ≡ false
unfolding name_to_code name_table find sample_code
mute_known = refl

abbrev press : InputEvent
press = record {
  device_id = "mouse";
  device_path = "/dev/input/event3";
  code = name_to_code sample_code "KEY_MUTE";
  value = pos 1;
  timestamp = 0;
}

bind_takes_effect_example :
    (v : Doc) × (s' : Shared) × (bind sample_json sample_code request state
      ≡ returns (replied s' (sample_json.write v)))
    × (sample_json.at v "ok" ≡ returns (sample_json.of_bool true))
    × In (executed "mute") (handle_event s'.table s'.observers press)
bind_takes_effect_example =
    bind_takes_effect sample_json sample-IsBuilding sample_code request state "mouse" "KEY_MUTE"
      "mute" press has_device has_key has_command mute_known refl refl refl refl

request_shaped : IsWellShaped sample_json request
unfolding find_member
request_shaped = record {
  object = refl;
  cmd = λ h. (text "bind", refl, refl);
  device = λ h. (text "mouse", refl, refl);
  key = λ h. (text "KEY_MUTE", refl, refl);
  command = λ h. (text "mute", refl, refl);
}

has_cmd : text_at sample_json request "cmd" ≡ returns "bind"
unfolding text_at find_member
has_cmd = refl

not_cmd : (k : String) → ("bind" == k) ≡ false → text_at sample_json request "cmd" ≢ returns k
not_cmd k n h = ground (arith, h, has_cmd, eq_iff "bind" k)

parsed_request :
    (req : Doc)
    → sample_json.parse (3 ∷ []) ≡ some req
    → IsWellShaped sample_json req
      × (text_at sample_json req "cmd" ≢ returns "reload")
      × (text_at sample_json req "cmd" ≢ returns "events")
parsed_request req h =
    let same : request ≡ req = ground arith in
    subst
      (λ (r : Doc).
        IsWellShaped sample_json r
        × (text_at sample_json r "cmd" ≢ returns "reload")
        × (text_at sample_json r "cmd" ≢ returns "events"))
      same (request_shaped, not_cmd "reload" refl, not_cmd "events" refl)

handle_line-answered_example :
    (turn : Turn) × (handle_line sample_json sample_code (λ p. none) [] 8 [] (3 ∷ []) state
      ≡ returns turn)
    × IsReplied turn
handle_line-answered_example =
    handle_line-answered sample_json sample_total sample-IsBuilding sample_code (λ p. none) [] 8 []
      (3 ∷ []) state refl parsed_request

-- A handler that sends each line back and closes on a line that starts with a zero.
abbrev echo : Bytes → ℕ → Outcome (Handled ℕ)
echo [] n = throws
echo (zero ∷ line) n = returns ([], n, false)
echo (suc b ∷ line) n = returns ((suc b ∷ line) ∷ [], suc n, true)

handle_client-eq-handle_lines_example :
    handle_client echo 20 ((65 ∷ []) ∷ (66 ∷ 10 ∷ 10 ∷ 67 ∷ []) ∷ (10 ∷ 68 ∷ []) ∷ []) [] 0
    ≡ some (handle_lines echo (lines_of (65 ∷ 66 ∷ 10 ∷ 10 ∷ 67 ∷ 10 ∷ 68 ∷ [])) 0)
handle_client-eq-handle_lines_example =
    handle_client-eq-handle_lines echo 20
      ((65 ∷ []) ∷ (66 ∷ 10 ∷ 10 ∷ 67 ∷ []) ∷ (10 ∷ 68 ∷ []) ∷ []) [] 0 (omega arith)
