-- ===== src/Tests/Loading.antt =====
-- The loader, the editor's checks and its file, on a small document.
use pointer_force.Prelude.{
  String, ◌≡◌, refl, true, false, Option, none, some, [], ◌∷◌, if◌then◌else◌, ◌==◌, All, returns,
  string_eq, int_eq, nat_eq,
}
use pointer_force.Assoc.{find, assign, erase}
use pointer_force.Common.{Config}
use pointer_force.Keys.{name_to_code, name_table}
use pointer_force.Json.{Bytes}
use pointer_force.Json.Access.{has_kind, string_or, bool_or}
use pointer_force.Config.{
  no_match, read_match, read_binding, read_members, read_bindings, finish_device, read_device,
  read_devices, load_root, load,
}
use pointer_force.Config.Loaded.{IsLoadable, load-IsLoadable}
use pointer_force.Config.Failures.{load_without_devices}
use pointer_force.ConfigStore.{
  valid, validate, seen, check_kind, check_match, check_commands, check_bindings, check_parts,
  validate_device, validate_devices, check_devices, read, content,
}
use pointer_force.ConfigStore.Agreement.{validated-load_root, AreDistinct}
use pointer_force.ConfigStore.Disk.{Faults, written, Files, replace_file, write, read-write}
use pointer_force.Tests.Sample.{
  sample_json, sample_total, sample_code, good_config, bare_config, find_member, member_names,
  docs_list,
}

abbrev pub files : String → Option Bytes
files path =
    if path == "pf.json" then some (1 ∷ []) else if path == "bare.json" then some (2 ∷ []) else none

abbrev pub old_config : Config
old_config = record {
  devices = record { id = "old"; criteria = no_match; grab = false; bindings = [] } ∷ [];
  daemon_mode = false;
  debug = false;
  control_socket = "/tmp/pf.sock";
  config_path = "pf.json";
}

abbrev pub new_config : Config
new_config = record {
  devices =
      record {
        id = "mouse";
        criteria = record no_match { name_contains = "BT5.1 Mouse" };
        grab = false;
        bindings = (name_to_code sample_code "BTN_SIDE", "notify-send side") ∷ [];
      }
      ∷ record {
        id = "*";
        criteria = no_match;
        grab = false;
        bindings = (name_to_code sample_code "KEY_MUTE", "mute") ∷ [];
      }
      ∷ [];
  daemon_mode = false;
  debug = true;
  control_socket = "/tmp/pf.sock";
  config_path = "pf.json";
}

pub loaded : load sample_json sample_code files "pf.json" old_config ≡ returns (true, new_config)
unfolding load load_root read_devices read_device read_match finish_device read_bindings
    read_members read_binding bool_or string_or has_kind find_member member_names docs_list assign
    name_to_code name_table find sample_code
loaded = refl

load-IsLoadable_example :
    All (IsLoadable sample_code) new_config.devices × (new_config.config_path ≡ "pf.json")
load-IsLoadable_example =
    load-IsLoadable sample_json sample_code files "pf.json" old_config new_config loaded

abbrev cleared_config : Config
cleared_config = record old_config { devices = []; debug = true; config_path = "bare.json" }

not_loaded :
    load sample_json sample_code files "bare.json" old_config ≡ returns (false, cleared_config)
unfolding load load_root bool_or string_or has_kind find_member
not_loaded = refl

no_devices : has_kind sample_json sample_json.is_array bare_config "devices" ≡ returns false
unfolding has_kind find_member
no_devices = refl

load_without_devices_example :
    (c : Config) × (load sample_json sample_code files "bare.json" old_config ≡ returns (false, c))
    × (c.devices ≡ [])
    × (c.config_path ≡ "bare.json")
load_without_devices_example =
    load_without_devices sample_json sample_code sample_total files "bare.json" old_config (2 ∷ [])
      bare_config refl refl refl no_devices

is_valid : validate sample_json good_config ≡ returns valid
unfolding validate check_devices validate_devices validate_device check_parts check_bindings
    check_commands check_match check_kind seen has_kind find_member member_names docs_list
is_valid = refl

lists_devices : sample_json.is_member good_config "devices" ≡ returns true
unfolding find_member
lists_devices = refl

validated-load_root_example :
    (c : Config) × (load_root sample_json sample_code "pf.json" good_config old_config
      ≡ returns (true, c))
    × AreDistinct [] c.devices
validated-load_root_example =
    validated-load_root sample_json sample_total sample_code "pf.json" good_config old_config true
      is_valid lists_devices

abbrev no_faults : Faults
no_faults = record {
  open_fails = false;
  write_fails = false;
  flush_fails = false;
  rename_fails = false;
  kept = 0;
}

abbrev disk : Files
disk = ("pf.json", 2 ∷ []) ∷ []

abbrev new_disk : Files
new_disk = ("pf.json", 1 ∷ []) ∷ []

write_done : write sample_json no_faults "pf.json" good_config disk ≡ returns (written, new_disk)
unfolding write replace_file validate check_devices validate_devices validate_device check_parts
    check_bindings check_commands check_match check_kind seen has_kind find_member member_names
    docs_list assign erase
write_done = refl

read-write_example :
    (validate sample_json good_config ≡ returns valid)
    × (read sample_json (λ p. find p new_disk) "pf.json" ≡ content good_config)
read-write_example =
    read-write sample_json no_faults "pf.json" good_config disk new_disk refl refl write_done
