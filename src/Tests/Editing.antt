-- ===== src/Tests/Editing.antt =====
-- The handlers that edit the configuration file, on a small document.
use pointer_force.Prelude.{
  ◌≡◌, refl, true, false, some, [], ◌∷◌, returns, string_eq, int_eq, nat_eq,
}
use pointer_force.Assoc.{find, assign, erase}
use pointer_force.Json.Access.{has_kind}
use pointer_force.ConfigStore.{
  valid, validate, seen, check_kind, check_match, check_commands, check_bindings, check_parts,
  validate_device, validate_devices, check_devices, read, content,
}
use pointer_force.ConfigStore.Disk.{on_disk, Faults, Files, replace_file, write}
use pointer_force.Editor.{
  put_config, ok, save, has_id, lists_devices, remove_id, delete_device, add_device, build_device,
  member_or_object, copy_member, with_devices, add_to, any_has_id, read_config,
}
use pointer_force.Editor.Adding.{IsAdded, add_device_appends}
use pointer_force.Editor.Saving.{is_ok}
use pointer_force.Editor.Saved.{deletes, edit_saves_valid}
use pointer_force.Editor.Devices.{IsRemoved, delete_device_removes}
use pointer_force.Tests.Sample.{
  Doc, text, object, member, end, sample_json, find_member, put_member, sample_code, sample_total,
  good_config, docs_list, snoc, member_names,
}
use pointer_force.System.{launch}
use pointer_force.System.Applied.{IsApplied, body_document, put_takes_effect}
use pointer_force.Tests.Loading.{old_config}
use pointer_force.Tests.Building.{sample-IsBuilding}

abbrev no_faults : Faults
no_faults = record {
  open_fails = false;
  write_fails = false;
  flush_fails = false;
  rename_fails = false;
  kept = 0;
}

abbrev disk : Files
disk = ("pf.json", 1 ∷ []) ∷ []

deleted : delete_device sample_json no_faults "pf.json" "mouse" disk ≡ returns (ok, disk)
unfolding delete_device read lists_devices remove_id has_id save write replace_file validate
    check_devices validate_devices validate_device check_parts check_bindings check_commands
    check_match check_kind seen has_kind find_member put_member member_names docs_list snoc assign
    erase find
deleted = refl

edit_saves_valid_example :
    (is_ok ok ≡ true
      → (cfg : Doc) × (validate sample_json cfg ≡ returns valid)
        × (find "pf.json" disk ≡ some (on_disk no_faults (sample_json.write_string cfg))))
    × (is_ok ok ≡ false → find "pf.json" disk ≡ find "pf.json" disk)
edit_saves_valid_example =
    edit_saves_valid sample_json no_faults "pf.json" (deletes "mouse") disk disk ok deleted

delete_device_removes_example :
    (cfg : Doc) × (read_config sample_json "pf.json" disk ≡ content cfg)
    × IsRemoved sample_json sample-IsBuilding no_faults "pf.json" "mouse" cfg disk
delete_device_removes_example =
    delete_device_removes sample_json sample-IsBuilding no_faults "pf.json" "mouse" disk disk ok
      deleted refl

abbrev pad : Doc
pad =
    object (member "id" (text "pad") (member "match" (object (member "name" (text "Pad") end)) end))

added : add_device sample_json no_faults "pf.json" (some pad) disk ≡ returns (ok, disk)
unfolding add_device build_device member_or_object copy_member with_devices add_to any_has_id read
    lists_devices has_id save write replace_file validate check_devices validate_devices
    validate_device check_parts check_bindings check_commands check_match check_kind seen has_kind
    find_member put_member member_names docs_list snoc assign erase find
added = refl

add_device_appends_example :
    (device cfg : Doc) × (build_device sample_json pad ≡ returns device)
    × (validate_device sample_json device ≡ returns valid)
    × (read_config sample_json "pf.json" disk ≡ content cfg)
    × IsAdded sample_json sample-IsBuilding no_faults "pf.json" device cfg disk
add_device_appends_example =
    add_device_appends sample_json sample-IsBuilding no_faults "pf.json" pad disk disk ok added refl

abbrev renamed : Doc
renamed = object (member "match" (object (member "name" (text "Other Mouse") end)) end)

same_path : (launch old_config).shared.config.config_path ≡ "pf.json"
unfolding launch
same_path = refl

put_done : put_config sample_json no_faults "pf.json" (some good_config) disk ≡ returns (ok, disk)
unfolding put_config save write replace_file validate check_devices validate_devices validate_device
    check_parts check_bindings check_commands check_match check_kind seen has_kind find_member
    member_names docs_list assign erase
put_done = refl

not_wrapped :
    body_document sample_json sample_total sample-IsBuilding sample_code good_config
    ≡ returns good_config
unfolding find_member
not_wrapped = refl

put_takes_effect_example :
    IsApplied sample_json sample_code "pf.json" good_config disk (launch old_config).shared
put_takes_effect_example =
    put_takes_effect sample_json sample_total sample-IsBuilding sample_code no_faults "pf.json"
      good_config good_config disk disk ok (launch old_config).shared not_wrapped refl refl put_done
      refl same_path
