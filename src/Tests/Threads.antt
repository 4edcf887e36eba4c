-- ===== src/Tests/Threads.antt =====
-- The running daemon, from a small configuration.
use pointer_force.Prelude.{
  String, ◌≡◌, refl, ◌↔◌, inl, true, false, ◌&&◌, Option, none, some, List, [], ◌∷◌, if◌then◌else◌,
  ◌==◌, In, returns, ℤ, pos, is_negative, string_eq, int_eq, nat_eq,
}
use pointer_force.Assoc.{find, assign}
use pointer_force.Common.{Config, InputEvent, default_control_socket}
use pointer_force.Keys.{name_to_code, code_to_name, name_table, code_table, invert, emplace}
use pointer_force.Keys.Named.{name_to_code-IsNamed}
use pointer_force.Json.{Bytes}
use pointer_force.Mapper.{
  Table, BindingEntry, init, load_devices, load_bindings, sub_table, all_bindings, device_bindings,
}
use pointer_force.Mapper.View.{view}
use pointer_force.Json.Access.{has_kind, string_or, bool_or}
use pointer_force.Main.{
  Flags, default_flags, goes_on, parse_args, override, runs, open_devices, start_loaded, start,
}
use pointer_force.Daemon.{is_running}
use pointer_force.Config.{
  no_match, read_match, read_binding, read_members, read_bindings, finish_device, read_device,
  read_devices, load_root, load, validate,
}
use pointer_force.Config.Loaded.{IsLeft}
use pointer_force.EventQueue.{push, pop}
use pointer_force.Multiplexer.{
  Shared, Effect, event_pushed, notified, handle_event, add_observer, outside_step, reload_if_asked,
  pop_and_handle, round,
}
use pointer_force.Control.{replied, unbind, text_at}
use pointer_force.Control.Requests.{HasText}
use pointer_force.System.{State, launch, pressed, subscribed, Reach, launched, later}
use pointer_force.System.Reached.{IsSound}
use pointer_force.System.Started.{started-IsSound}
use pointer_force.System.Streams.{streams_told}
use pointer_force.System.Unbinding.{listed_unbinds}
use pointer_force.Tests.Sample.{
  Doc, request, find_member, member_names, docs_list, sample_json, sample_code,
}
use pointer_force.Tests.Building.{sample-IsBuilding}
use pointer_force.Tests.Loading.{files, new_config}
use pointer_force.Tests.Starting.{answers, none_yet}

abbrev mute : ℤ
mute = name_to_code sample_code "KEY_MUTE"

abbrev config : Config
config = record {
  devices =
      record {
        id = "mouse";
        criteria = record no_match { name_contains = "Mouse" };
        grab = false;
        bindings = (mute, "mute") ∷ [];
      }
      ∷ [];
  daemon_mode = false;
  debug = false;
  control_socket = "/tmp/pf.sock";
  config_path = "pf.json";
}

mute_known : is_negative mute ≡ false
unfolding name_to_code name_table find sample_code
mute_known = refl

config-IsLeft : IsLeft sample_json sample_code "pf.json" config
unfolding find
config-IsLeft = record {
  loadable = (
    record {
      can_match = inl refl;
      unique = (refl, tt);
      known = (name_to_code-IsNamed sample_code "KEY_MUTE" mute_known, tt);
    },
    tt,
  );
  same_path = refl;
}

abbrev press : InputEvent
press = record {
  device_id = "mouse";
  device_path = "/dev/input/event3";
  code = mute;
  value = pos 1;
  timestamp = 0;
}

-- A press waits, and then a client begins to stream events.
abbrev waiting : State
waiting = record (launch config) {
  shared = outside_step (event_pushed press) (launch config).shared;
}

abbrev streaming : State
streaming = record {
  shared = (add_observer 7 waiting.shared).1;
  streams = ((add_observer 7 waiting.shared).0, 7) ∷ waiting.streams;
  pending = waiting.pending;
}

streaming-Reach : Reach sample_json sample_code config streaming
streaming-Reach = later (later launched (pressed press)) (subscribed 7)

-- The program starts in the foreground with the document of the other tests, and a client streams.
abbrev main_config : Config
main_config = record new_config { control_socket = default_control_socket }

runs_main :
    start sample_json sample_code files ("-c" ∷ "pf.json" ∷ []) answers none_yet
    ≡ returns (runs main_config, none_yet)
unfolding start parse_args load load_root read_devices read_device read_match finish_device
    read_bindings read_members read_binding bool_or string_or has_kind find_member member_names
    docs_list assign name_to_code name_table find sample_code override start_loaded validate
    is_running open_devices
runs_main = refl

abbrev main_streaming : State
main_streaming = record {
  shared = (add_observer 7 (launch main_config).shared).1;
  streams = ((add_observer 7 (launch main_config).shared).0, 7) ∷ (launch main_config).streams;
  pending = (launch main_config).pending;
}

main_streaming-Reach : Reach sample_json sample_code main_config main_streaming
main_streaming-Reach = later launched (subscribed 7)

started-IsSound_example :
    (f : Flags) × (parse_args ("-c" ∷ "pf.json" ∷ []) default_flags ≡ goes_on f)
    × IsSound sample_json sample_code f.config_path main_streaming
started-IsSound_example =
    started-IsSound sample_json sample_code files ("-c" ∷ "pf.json" ∷ []) answers none_yet none_yet
      main_config main_streaming runs_main main_streaming-Reach

abbrev after : Shared
after = record streaming.shared { queue = record streaming.shared.queue { q = [] } }

abbrev effects : List Effect
effects = handle_event streaming.shared.table streaming.shared.observers press

press_waits : streaming.shared.queue.q ≡ press ∷ []
unfolding launch outside_step push add_observer
press_waits = refl

handled : round sample_json sample_code files streaming.shared ≡ returns (effects, after)
unfolding launch outside_step push add_observer round reload_if_asked pop_and_handle pop
handled = refl

streams_told_example :
    ((cmd : String) × In (notified 0 7 press cmd) effects)
    ↔ ((find 0 streaming.streams ≡ some 7) × (press ≡ press))
streams_told_example =
    streams_told sample_json sample_code "pf.json" config streaming files after press [] effects 0 7
      press config-IsLeft streaming-Reach press_waits handled

abbrev entry : BindingEntry
entry = record { device_id = "mouse"; key_name = "KEY_MUTE"; keycode = mute; command = "mute" }

mute_named : code_to_name sample_code mute ≡ "KEY_MUTE"
unfolding code_to_name code_table invert emplace name_to_code name_table find assign sample_code
mute_named = refl

entry_listed : In entry (all_bindings sample_code (launch config).shared.table)
unfolding launch init load_devices load_bindings sub_table all_bindings device_bindings find assign
entry_listed = inl (rw mute_named refl)

has_device : HasText sample_json request "device" "mouse"
unfolding text_at find_member
has_device = (refl, refl)

has_key : HasText sample_json request "key" "KEY_MUTE"
unfolding text_at find_member
has_key = (refl, refl)

listed_unbinds_example :
    (v : Doc) × (table : Table) × (unbind sample_json sample_code request (launch config).shared
      ≡ returns (replied (record (launch config).shared { table = table }) (sample_json.write v)))
    × (sample_json.at v "ok" ≡ returns (sample_json.of_bool true))
    × ((d : String) (c : ℤ)
        → view table d c
          ≡ (if "mouse" == d && mute == c then none else view (launch config).shared.table d c))
listed_unbinds_example =
    listed_unbinds sample_json sample-IsBuilding sample_code "pf.json" config (launch config) entry
      request config-IsLeft launched entry_listed has_device has_key

-- No file can be opened, so that every reload fails.
abbrev no_files : String → Option Bytes
no_files path = none

abbrev other : InputEvent
other = record press { value = pos 2 }

abbrev busy : Shared
busy = record streaming.shared { queue = record streaming.shared.queue { q = other ∷ press ∷ [] } }
