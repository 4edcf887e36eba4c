-- ===== src/Editor/Adding.antt =====
-- What adding a device leaves in the file.
use pointer_force.Prelude.{
  returns_inj, String, ◌≡◌, refl, sym, ap, subst, ◌∙◌, inl, inr, true, false, some, List, [], ◌∷◌,
  ◌++◌, arith, Bool-cases, All, returns, >>=-eq-returns, ◌>>=◌, string_eq, int_eq, nat_eq,
}
use pointer_force.Json.{Json, IsBuilding}
use pointer_force.Assoc.{find}
use pointer_force.ConfigStore.{valid, validate, validate_device, content}
use pointer_force.ConfigStore.Disk.{on_disk, Faults, Files}
use pointer_force.Editor.{
  Response, read_config, has_id, lists_devices, any_has_id, build_device, with_devices, add_to,
  add_device,
}
use pointer_force.Editor.Saving.{is_ok, save_ok}
use pointer_force.Editor.Devices.{LacksId, read-object}
use pointer_force.Editor.Steps.{listed_devices, listed_array, with_config_ok, with_valid_ok}

module _ (J : Json) where
  open J use {Value, is_member, at, is_array, elements}

  any_has_id-LacksAll :
      (id : String) (ds : List Value) → any_has_id J id ds ≡ returns false → All (LacksId J id) ds
  unfolding any_has_id
  any_has_id-LacksAll id [] h = tt
  any_has_id-LacksAll id (d ∷ ds) h =
      let (same, e, f) = >>=-eq-returns (has_id J id d) _ h in
      elim (Bool-cases same) [
        | inl there ↦ absurd (ground (arith, f, there))
        | inr lacks ↦ (e ∙ ap returns lacks, any_has_id-LacksAll id ds (rw lacks at f))
      ]

module _ (J : Json) (building : IsBuilding J) where
  open J use {
    Value, is_member, at, set_member, is_array, is_object, as_string, elements, append, array_value,
    write_string,
  }

  -- A document with the same devices as another, in an array.
  record HasArray (cfg cfg' : Value) : Type 0 where
    object : is_object cfg' ≡ true
    devices : Value
    there : at cfg' "devices" ≡ returns devices
    array : is_array devices ≡ true
    same : listed_devices J cfg ≡ returns (elements devices)

  with_devices-HasArray :
      (cfg cfg' : Value)
      → is_object cfg ≡ true
      → with_devices J cfg ≡ returns cfg'
      → HasArray cfg cfg'
  unfolding with_devices
  with_devices-HasArray cfg cfg' o h =
      let (listed, e, f) = >>=-eq-returns (lists_devices J cfg) _ h in
      elim (Bool-cases listed) [
        | inl present ↦
            let (ds, g, a) = listed_array J cfg (e ∙ ap returns present) in
            subst (HasArray cfg) (ground (arith, f, present)) (record {
              object = o;
              devices = ds;
              there = g;
              array = a;
              same = rw (e, present, g) refl;
            })
        | inr missing ↦
            let (a, empty) = building.array_value-Empty in
            let (v, g, o', there, _) =
              building.set_member-Returns cfg "devices" array_value (inl o) in
            subst (HasArray cfg) (ground (arith, f, missing, g)) (record {
              object = o';
              devices = array_value;
              there = there;
              array = a;
              same = rw (e, missing, empty) refl;
            })
      ]

  -- What an addition that reports success leaves.
  pub record IsAdded (faults : Faults) (path : String) (device cfg : Value) (files' : Files)
      : Type 0 where
    pub id : String
    pub olds : List Value
    pub saved : Value
    pub devices : Value
    pub named : (do x ← at device "id"; as_string x) ≡ returns id
    pub before : listed_devices J cfg ≡ returns olds
    pub fresh : All (LacksId J id) olds
    pub stored : find path files' ≡ some (on_disk faults (write_string saved))
    pub is_valid : validate J saved ≡ returns valid
    pub there : at saved "devices" ≡ returns devices
    pub appended : elements devices ≡ olds ++ device ∷ []

  add_to-IsAdded :
      (faults : Faults) (path : String) (device cfg : Value) (files files' : Files) (r : Response)
      → is_object cfg ≡ true
      → add_to J faults path device files cfg ≡ returns (r, files')
      → is_ok r ≡ true
      → IsAdded faults path device cfg files'
  unfolding add_to
  add_to-IsAdded faults path device cfg files files' r o h success =
      let (cfg', e1, f1) = >>=-eq-returns (with_devices J cfg) _ h in
      let (x, e2, f2) = >>=-eq-returns (at device "id") _ f1 in
      let (id, e3, f3) = >>=-eq-returns (as_string x) _ f2 in
      let (ds, e4, f4) = >>=-eq-returns (at cfg' "devices") _ f3 in
      let (taken, e5, f5) = >>=-eq-returns (any_has_id J id (elements ds)) _ f4 in
      elim (Bool-cases taken) [
        | inl is_taken ↦ absurd (ground (arith, f5, is_taken, success))
        | inr free ↦
            let (ds', e6, f6) = >>=-eq-returns (append ds device) _ (rw free at f5) in
            let (cfg'', e7, f7) = >>=-eq-returns (set_member cfg' "devices" ds') _ f6 in
            let h' = with_devices-HasArray cfg cfg' o e1 in
            let same : h'.devices ≡ ds = returns_inj (sym h'.there ∙ e4) in
            let (v, e6', _, more) = building.append-Returns ds device (rw (← same) h'.array) in
            let (w, e7', _, there, _) =
              building.set_member-Returns cfg' "devices" ds' (inl h'.object) in
            let (is_valid, stored) = save_ok J faults path cfg'' files files' r f7 success in
            record {
              id = id;
              olds = elements ds;
              saved = cfg'';
              devices = ds';
              named = rw (e2, e3) refl;
              before = h'.same ∙ ap (λ d. returns (elements d)) same;
              fresh = any_has_id-LacksAll J id (elements ds) (e5 ∙ ap returns free);
              stored = stored;
              is_valid = is_valid;
              there = subst (λ c. at c "devices" ≡ returns ds') (returns_inj (sym e7' ∙ e7)) there;
              appended =
                  subst (λ d. elements d ≡ elements ds ++ device ∷ []) (returns_inj (sym e6' ∙ e6))
                    more;
            }
      ]

  -- A POST that reports success built a device that passes the checks, and saves a valid document
  -- whose devices are those of the document before, none of which has the id, and then that device;
  -- the file holds it, whole unless the flush at the closing of the file failed.
  pub add_device_appends :
      (faults : Faults) (path : String) (json : Value) (files files' : Files) (r : Response)
      → add_device J faults path (some json) files ≡ returns (r, files')
      → is_ok r ≡ true
      → (device cfg : Value) × (build_device J json ≡ returns device)
        × (validate_device J device ≡ returns valid)
        × (read_config J path files ≡ content cfg)
        × IsAdded faults path device cfg files'
  unfolding add_device
  add_device_appends faults path json files files' r h o =
      let (there, e, f) = >>=-eq-returns (is_member json "id") _ h in
      elim (Bool-cases there) [
        | inl present ↦
            let (device, g, k) = >>=-eq-returns (build_device J json) _ (rw present at f) in
            let (verdict, v, l) = >>=-eq-returns (validate_device J device) _ k in
            let (is_valid, m) = with_valid_ok J verdict files files' _ r l o in
            let (cfg, c, n) = with_config_ok J (read_config J path files) files files' _ r m o in
            (
              device,
              cfg,
              g,
              v ∙ ap returns is_valid,
              c,
              add_to-IsAdded faults path device cfg files files' r
                  (read-object J building (λ p. find p files) path cfg c) n o,
            )
        | inr missing ↦ absurd (ground (arith, f, missing, o))
      ]
