-- ===== src/Editor.antt =====
-- frontend/main.cpp: the handlers that edit the configuration file, under /api/config.
--
-- A request's body is `none` if it is not a JSON object. What the handlers add to a reply of
-- success (the path, the device, a warning) is left out; the error messages are the constructors
-- of `Failure`, with the HTTP status that each has.
pub mod Saving
pub mod Saved
pub mod Steps
pub mod Adding
pub mod Updating
pub mod Devices
use pointer_force.Prelude.{
  ℕ, zero, suc, ◌+◌, ◌-◌, ◌*◌, ◌%◌, ◌≤◌, ◌<◌, min, String, ◌≡◌, refl, sym, ap, subst, ◌∙◌, ◌≢◌, ◌↔◌,
  ◌⊎◌, inl, inr, Bool, true, false, not, ◌&&◌, ◌||◌, Option, none, some, List, [], ◌∷◌, ◌++◌, map,
  append_assoc, append-nil, arith, eq_iff, eq_refl, ltb, leb, nat_beq, nat_beq_iff, if◌then◌else◌,
  Eq, ◌==◌, is_empty, Bool-cases, Option-cases, length, length-append, get_elem?, In,
  In-append_left, In-append_right, In-append, All, All-append, Outcome, returns, throws,
  Outcome-cases, >>=-eq-returns, Ensures, Ensures-returns, Ensures-if, Ensures-bind, Returns,
  Returns-bind, Returns-if, Returns-after, ◌>>=◌, ◌>>◌, ℤ, pos, negsuc, is_negative, int_beq,
  int_beq_iff, string_eq, int_eq, nat_eq,
}
use pointer_force.Json.{Json, Bytes}
use pointer_force.ConfigStore.{
  Refusal, Verdict, valid, invalid, validate, validate_device, ReadResult, content, read,
}
use pointer_force.ConfigStore.Disk.{
  Faults, WriteResult, written, refused, cannot_open_tmp, write_failed, rename_failed, Files, write,
}
use pointer_force.Assoc.{find}

pub data Failure : Type 0 where
  no_json needs_id : Failure
  invalid_config invalid_device : Refusal → Failure
  cannot_read already_exists not_found cannot_write : Failure

abbrev pub status : Failure → ℕ
status no_json = 400
status needs_id = 400
status (invalid_config r) = 400
status (invalid_device r) = 400
status cannot_read = 500
status already_exists = 400
status not_found = 404
status cannot_write = 500

pub data Response : Type 0 where
  ok : Response
  fails : Failure → Response

abbrev pub response : WriteResult → Response
response written = ok
response _ = fails cannot_write

module _ (J : Json) where
  open J use {
    Value, is_member, at, set_member, set_element, is_array, is_object, as_string, elements, append,
    object_value, array_value,
  }

  -- What a handler returns, and the files after it.
  abbrev pub Handled : Type 0
  Handled = Outcome (Response × Files)

  -- The end of a handler that has a new document.
  unfoldable pub save : Faults → String → Value → Files → Handled
  save faults path cfg files = do
    result ← write J faults path cfg files
    returns (response result.0, result.1)

  abbrev pub with_valid : Verdict → (Refusal → Failure) → Files → Handled → Handled
  with_valid valid problem files next = next
  with_valid (invalid r) problem files next = returns (fails (problem r), files)

  abbrev pub with_config : ReadResult Value → Files → (Value → Handled) → Handled
  with_config (content cfg) files next = next cfg
  with_config _ files next = returns (fails cannot_read, files)

  abbrev pub read_config : String → Files → ReadResult Value
  read_config path files = read J (λ p. find p files) path

  -- req[k] if it is a member, or an empty object
  unfoldable pub member_or_object : Value → String → Outcome Value
  member_or_object v k = do there ← is_member v k; if there then at v k else returns object_value

  -- if (from.isMember(k)) target[k] = from[k];
  unfoldable pub copy_member : Value → String → Value → Outcome Value
  copy_member from k target = do
    there ← is_member from k
    if there then (do x ← at from k; set_member target k x) else returns target

  -- d.isObject() && d.isMember("id") && d["id"].asString() == id
  unfoldable pub has_id : String → Value → Outcome Bool
  has_id id d =
      if is_object d
      then (do
        there ← is_member d "id"
        if there then (do x ← at d "id"; own ← as_string x; returns (own == id)) else returns false)
      else returns false

  -- cfg.isMember("devices") && cfg["devices"].isArray()
  unfoldable pub lists_devices : Value → Outcome Bool
  lists_devices cfg = do
    there ← is_member cfg "devices"
    if there then (do ds ← at cfg "devices"; returns (is_array ds)) else returns false

  -- PUT /api/config
  unfoldable pub put_config : Faults → String → Option Value → Files → Handled
  put_config faults path none files = returns (fails no_json, files)
  put_config faults path (some json) files = do
    wrapped ← is_member json "config"
    cfg ← (if wrapped then at json "config" else returns json)
    verdict ← validate J cfg
    with_valid verdict invalid_config files (save faults path cfg files)

  unfoldable pub any_has_id : String → List Value → Outcome Bool
  any_has_id id [] = returns false
  any_has_id id (d ∷ ds) = do same ← has_id id d; if same then returns true else any_has_id id ds

  unfoldable pub build_device : Value → Outcome Value
  build_device json = do
    id ← at json "id"
    device ← set_member object_value "id" id
    matches ← member_or_object json "match"
    device' ← set_member device "match" matches
    device'' ← copy_member json "grab" device'
    bindings ← member_or_object json "bindings"
    set_member device'' "bindings" bindings

  unfoldable pub with_devices : Value → Outcome Value
  with_devices cfg = do
    listed ← lists_devices cfg
    if listed then returns cfg else set_member cfg "devices" array_value

  -- The device is appended, unless its id is taken.
  unfoldable pub add_to : Faults → String → Value → Files → Value → Handled
  add_to faults path device files cfg = do
    cfg' ← with_devices cfg
    x ← at device "id"
    id ← as_string x
    ds ← at cfg' "devices"
    taken ← any_has_id id (elements ds)
    if taken then returns (fails already_exists, files) else (do
      ds' ← append ds device
      cfg'' ← set_member cfg' "devices" ds'
      save faults path cfg'' files)

  -- POST /api/config/device
  unfoldable pub add_device : Faults → String → Option Value → Files → Handled
  add_device faults path none files = returns (fails needs_id, files)
  add_device faults path (some json) files = do
    there ← is_member json "id"
    if there
        then (do
          device ← build_device json
          verdict ← validate_device J device
          with_valid verdict invalid_device files
              (with_config (read_config path files) files (add_to faults path device files)))
        else returns (fails needs_id, files)

  -- The place of the first device of the id, and the device.
  unfoldable pub find_id : String → ℕ → List Value → Outcome (Option (ℕ × Value))
  find_id id i [] = returns none
  find_id id i (d ∷ ds) = do
    same ← has_id id d
    if same then returns (some (i, d)) else find_id id (i + 1) ds

  abbrev pub update_found : Faults → String → Value → Value → Files → Option (ℕ × Value) → Handled
  update_found faults path json cfg files none = returns (fails not_found, files)
  update_found faults path json cfg files (some (i, d)) = do
    matched ← copy_member json "match" d
    updated ← copy_member json "grab" matched
    verdict ← validate_device J updated
    with_valid verdict invalid_device files (do
      ds ← at cfg "devices"
      cfg' ← set_member cfg "devices" (set_element ds i updated)
      save faults path cfg' files)

  -- PUT /api/config/device/{id}
  unfoldable pub update_device : Faults → String → String → Option Value → Files → Handled
  update_device faults path id none files = returns (fails no_json, files)
  update_device faults path id (some json) files = with_config (read_config path files) files λ cfg.
      do
        listed ← lists_devices cfg
        found ←
            (if listed
              then (do ds ← at cfg "devices"; find_id id 0 (elements ds))
              else returns none)
        update_found faults path json cfg files found

  -- Whether a device had the id, and the array of the others.
  unfoldable pub remove_id : String → List Value → Bool → Value → Outcome (Bool × Value)
  remove_id id [] found remaining = returns (found, remaining)
  remove_id id (d ∷ ds) found remaining = do
    same ← has_id id d
    if same
        then remove_id id ds true remaining
        else (do remaining' ← append remaining d; remove_id id ds found remaining')

  -- DELETE /api/config/device/{id}
  unfoldable pub delete_device : Faults → String → String → Files → Handled
  delete_device faults path id files = with_config (read_config path files) files λ cfg. do
    listed ← lists_devices cfg
    kept ←
        (if listed
          then (do ds ← at cfg "devices"; remove_id id (elements ds) false array_value)
          else returns (false, array_value))
    if kept.0
        then (do cfg' ← set_member cfg "devices" kept.1; save faults path cfg' files)
        else returns (fails not_found, files)
