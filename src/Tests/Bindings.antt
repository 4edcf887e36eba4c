-- ===== src/Tests/Bindings.antt =====
-- The key tables and the mapper on a few bindings.
use pointer_force.Prelude.{
  ◌≡◌, refl, true, false, List, some, [], ◌∷◌, In, pos, string_eq, int_eq, nat_eq,
}
use pointer_force.Assoc.{find}
use pointer_force.Common.{DeviceConfig, Config}
use pointer_force.Keys.{key_names, name_table, name_to_code, code_to_name}
use pointer_force.Keys.RoundTrip.{code_to_name-name_to_code}
use pointer_force.Mapper.{init, lookup, BindingEntry}
use pointer_force.Mapper.Reload.{lookup-init, configured}
use pointer_force.Mapper.Abstract.{
  Call, reloads, adds, removes, looks_up, done, said, found, answers, specified_answers,
  answers-eq-specified_answers,
}
use pointer_force.Tests.Sample.{sample_code, sample_distinct, get_elem?-In}

mute_listed : In "KEY_MUTE" key_names
unfolding key_names
mute_listed = get_elem?-In "KEY_MUTE" key_names 80 refl

code_to_name-name_to_code_example :
    code_to_name sample_code (name_to_code sample_code "KEY_MUTE") ≡ "KEY_MUTE"
code_to_name-name_to_code_example =
    code_to_name-name_to_code sample_code sample_distinct "KEY_MUTE" mute_listed

abbrev mouse_config : DeviceConfig
mouse_config = record {
  id = "mouse";
  criteria = record { name_contains = "Mouse"; vendor_product = ""; path = "" };
  grab = false;
  bindings = (pos 80, "mute-mouse") ∷ [];
}

abbrev all_config : DeviceConfig
all_config = record {
  id = "*";
  criteria = record { name_contains = ""; vendor_product = ""; path = "" };
  grab = false;
  bindings = (pos 80, "mute") ∷ (pos 81, "louder") ∷ [];
}

abbrev config : Config
config = record {
  devices = mouse_config ∷ all_config ∷ [];
  daemon_mode = false;
  debug = false;
  control_socket = "/tmp/pf.sock";
  config_path = "pf.json";
}

lookup-init_example : lookup (init config) "mouse" (pos 81) ≡ some "louder"
unfolding find
lookup-init_example = lookup-init config "mouse" (pos 81) ((refl, tt), ((refl, (refl, tt)), tt))

abbrev calls : List Call
calls =
    adds "mouse" "KEY_MUTE" "x"
    ∷ adds "mouse" "KEY_NONE" "y"
    ∷ looks_up "mouse" (pos 80)
    ∷ removes "mouse" "KEY_MUTE"
    ∷ looks_up "mouse" (pos 80)
    ∷ reloads config
    ∷ looks_up "mouse" (pos 80)
    ∷ []

answers-eq-specified_answers_example :
    answers sample_code calls (init config)
    ≡ specified_answers sample_code calls (configured config.devices)
unfolding find
answers-eq-specified_answers_example =
    answers-eq-specified_answers sample_code config calls ((refl, tt), ((refl, (refl, tt)), tt))
      (tt, (tt, (tt, (tt, (tt, (((refl, tt), ((refl, (refl, tt)), tt)), (tt, tt)))))))

calls_answered :
    specified_answers sample_code calls (configured config.devices)
    ≡ said true
      ∷ said false
      ∷ found (some "x")
      ∷ said true
      ∷ found (some "mute")
      ∷ done
      ∷ found (some "mute-mouse")
      ∷ []
unfolding specified_answers name_to_code name_table find sample_code
calls_answered = refl

abbrev mute_entry : BindingEntry
mute_entry = record {
  device_id = "*";
  key_name = code_to_name sample_code (pos 80);
  keycode = pos 80;
  command = "mute";
}
