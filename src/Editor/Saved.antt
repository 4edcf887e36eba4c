-- ===== src/Editor/Saved.antt =====
-- What every edit leaves in the configuration file.
use pointer_force.Prelude.{
  ℕ, String, ◌≡◌, refl, true, false, Option, none, some, if◌then◌else◌, Outcome, returns, Ensures,
  Ensures-returns, Ensures-if, Ensures-bind, ◌>>=◌, string_eq, int_eq, nat_eq,
}
use pointer_force.Json.{Json}
use pointer_force.Assoc.{find}
use pointer_force.ConfigStore.{
  Refusal, Verdict, valid, invalid, validate, validate_device, ReadResult, content, cannot_open,
  invalid_json, not_an_object,
}
use pointer_force.ConfigStore.Disk.{on_disk, Faults, Files}
use pointer_force.Editor.{
  Failure, Response, fails, with_valid, with_config, put_config, add_to, add_device, update_found,
  update_device, delete_device, with_devices, any_has_id, build_device, copy_member, lists_devices,
  find_id, remove_id,
}
use pointer_force.Editor.Saving.{is_ok, IsSaved, save-IsSaved}

module _ (J : Json) where
  open J use {
    Value, write_string, at, as_string, elements, append, set_member, set_element, array_value,
  }

  failed-IsSaved :
      (faults : Faults) (path : String) (files : Files) (f : Failure)
      → Ensures (IsSaved J faults path files) (returns (fails f, files))
  failed-IsSaved faults path files f = Ensures-returns _ ((λ h. cc), λ h. refl)

  with_valid-IsSaved :
      (faults : Faults) (verdict : Verdict) (problem : Refusal → Failure) (path : String)
      (files : Files) (next : Outcome (Response × Files))
      → Ensures (IsSaved J faults path files) next
      → Ensures (IsSaved J faults path files) (with_valid J verdict problem files next)
  with_valid-IsSaved faults valid problem path files next h = h
  with_valid-IsSaved faults (invalid r) problem path files next h =
      failed-IsSaved faults path files (problem r)

  with_config-IsSaved :
      (faults : Faults) (r : ReadResult Value) (path : String) (files : Files)
      (next : Value → Outcome (Response × Files))
      → ((cfg : Value) → Ensures (IsSaved J faults path files) (next cfg))
      → Ensures (IsSaved J faults path files) (with_config J r files next)
  with_config-IsSaved faults (content cfg) path files next h = h cfg
  with_config-IsSaved faults cannot_open path files next h = failed-IsSaved faults path files _
  with_config-IsSaved faults invalid_json path files next h = failed-IsSaved faults path files _
  with_config-IsSaved faults not_an_object path files next h = failed-IsSaved faults path files _

  put_config-IsSaved :
      (faults : Faults) (path : String) (body : Option Value) (files : Files)
      → Ensures (IsSaved J faults path files) (put_config J faults path body files)
  unfolding put_config
  put_config-IsSaved faults path none files = failed-IsSaved faults path files _
  put_config-IsSaved faults path (some json) files =
      Ensures-bind (J.is_member json "config") _ λ wrapped _.
        Ensures-bind (if wrapped then J.at json "config" else returns json) _ λ cfg _.
          Ensures-bind (validate J cfg) _ λ verdict _.
            with_valid-IsSaved faults verdict _ path files _ (save-IsSaved J faults path cfg files)

  add_to-IsSaved :
      (faults : Faults) (path : String) (device : Value) (files : Files) (cfg : Value)
      → Ensures (IsSaved J faults path files) (add_to J faults path device files cfg)
  unfolding add_to
  add_to-IsSaved faults path device files cfg = Ensures-bind (with_devices J cfg) _ λ cfg' _.
      Ensures-bind (at device "id") _ λ x _. Ensures-bind (as_string x) _ λ id _.
        Ensures-bind (at cfg' "devices") _ λ ds _.
          Ensures-bind (any_has_id J id (elements ds)) _ λ taken _.
            Ensures-if taken _ _ (λ _. failed-IsSaved faults path files _)
              (λ _. Ensures-bind (append ds device) _ λ ds' _.
                Ensures-bind (set_member cfg' "devices" ds') _
                  λ cfg'' _. save-IsSaved J faults path cfg'' files)

  add_device-IsSaved :
      (faults : Faults) (path : String) (body : Option Value) (files : Files)
      → Ensures (IsSaved J faults path files) (add_device J faults path body files)
  unfolding add_device
  add_device-IsSaved faults path none files = failed-IsSaved faults path files _
  add_device-IsSaved faults path (some json) files =
      Ensures-bind (J.is_member json "id") _ λ there _.
        Ensures-if there _ _
          (λ _. Ensures-bind (build_device J json) _ λ device _.
            Ensures-bind (validate_device J device) _ λ verdict _.
              with_valid-IsSaved faults verdict _ path files _ (
                with_config-IsSaved faults _ path files _
                  (add_to-IsSaved faults path device files)))
          (λ _. failed-IsSaved faults path files _)

  update_found-IsSaved :
      (faults : Faults) (path : String) (json cfg : Value) (files : Files)
      (found : Option (ℕ × Value))
      → Ensures (IsSaved J faults path files) (update_found J faults path json cfg files found)
  update_found-IsSaved faults path json cfg files none = failed-IsSaved faults path files _
  update_found-IsSaved faults path json cfg files (some (i, d)) =
      Ensures-bind (copy_member J json "match" d) _ λ matched _.
        Ensures-bind (copy_member J json "grab" matched) _ λ updated _.
          Ensures-bind (validate_device J updated) _ λ verdict _.
            with_valid-IsSaved faults verdict _ path files _ (
              Ensures-bind (at cfg "devices") _ λ ds _.
                Ensures-bind (set_member cfg "devices" (set_element ds i updated)) _
                  λ cfg' _. save-IsSaved J faults path cfg' files)

  update_device-IsSaved :
      (faults : Faults) (path id : String) (body : Option Value) (files : Files)
      → Ensures (IsSaved J faults path files) (update_device J faults path id body files)
  unfolding update_device
  update_device-IsSaved faults path id none files = failed-IsSaved faults path files _
  update_device-IsSaved faults path id (some json) files =
      with_config-IsSaved faults _ path files _ λ cfg.
        Ensures-bind (lists_devices J cfg) _ λ listed _.
          Ensures-bind
            (if listed
              then (do ds ← at cfg "devices"; find_id J id 0 (elements ds))
              else returns none)
            _ λ found _. update_found-IsSaved faults path json cfg files found

  delete_device-IsSaved :
      (faults : Faults) (path id : String) (files : Files)
      → Ensures (IsSaved J faults path files) (delete_device J faults path id files)
  unfolding delete_device
  delete_device-IsSaved faults path id files = with_config-IsSaved faults _ path files _ λ cfg.
      Ensures-bind (lists_devices J cfg) _ λ listed _.
        Ensures-bind
          (if listed
            then (do ds ← at cfg "devices"; remove_id J id (elements ds) false array_value)
            else returns (false, array_value))
          _
          λ kept _.
            Ensures-if kept.0 _ _
              (λ _.
                Ensures-bind (set_member cfg "devices" kept.1) _
                  λ cfg' _. save-IsSaved J faults path cfg' files)
              (λ _. failed-IsSaved faults path files _)

-- One of the requests that edit the file.
pub data Edit (V : Type 0) : Type 0 where
  puts adds : Option V → Edit V
  updates : String → Option V → Edit V
  deletes : String → Edit V

module _ (J : Json) where
  open J use {Value, write_string}

  abbrev pub run_edit : Faults → String → Edit Value → Files → Outcome (Response × Files)
  run_edit faults path (puts body) files = put_config J faults path body files
  run_edit faults path (adds body) files = add_device J faults path body files
  run_edit faults path (updates id body) files = update_device J faults path id body files
  run_edit faults path (deletes id) files = delete_device J faults path id files

  edit-IsSaved :
      (faults : Faults) (path : String) (edit : Edit Value) (files : Files)
      → Ensures (IsSaved J faults path files) (run_edit faults path edit files)
  edit-IsSaved faults path (puts body) files = put_config-IsSaved J faults path body files
  edit-IsSaved faults path (adds body) files = add_device-IsSaved J faults path body files
  edit-IsSaved faults path (updates id body) files =
      update_device-IsSaved J faults path id body files
  edit-IsSaved faults path (deletes id) files = delete_device-IsSaved J faults path id files

  -- Whichever edit is requested, with whatever body, and whatever fails on the disk: if the
  -- handler reports success, the file holds a document that passes the validation, whole unless the
  -- flush at the closing of the file failed, and then as far as it went; if it reports a failure,
  -- the file is what it was.
  pub edit_saves_valid :
      (faults : Faults) (path : String) (edit : Edit Value) (files files' : Files) (r : Response)
      → run_edit faults path edit files ≡ returns (r, files')
      → (is_ok r ≡ true
          → (cfg : Value) × (validate J cfg ≡ returns valid)
            × (find path files' ≡ some (on_disk faults (write_string cfg))))
        × (is_ok r ≡ false → find path files' ≡ find path files)
  edit_saves_valid faults path edit files files' r h =
      (edit-IsSaved faults path edit files).at_return (r, files') h
