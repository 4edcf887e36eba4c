-- ===== src/ConfigStore/Agreement/Inversion.antt =====
-- What a valid verdict says of the parts of a document.
use pointer_force.Prelude.{
  String, ◌≡◌, refl, ap, ◌∙◌, inl, inr, true, false, List, [], ◌∷◌, arith, Bool-cases, Outcome,
  returns, Outcome-cases, >>=-eq-returns, ◌>>=◌, string_eq, int_eq, nat_eq,
}
use pointer_force.Json.{Json}
use pointer_force.Json.Access.{has_kind}
use pointer_force.ConfigStore.{
  Verdict, valid, invalid, if_valid, seen, check_kind, check_match, check_commands, check_bindings,
  check_parts, validate_device, validate_devices, check_devices, validate,
}
use pointer_force.ConfigStore.Checks.{valid_device_id}

if_valid-eq-valid :
    (v : Verdict) (next : Outcome Verdict)
    → if_valid v next ≡ returns valid
    → (v ≡ valid) × (next ≡ returns valid)
if_valid-eq-valid valid next h = (refl, h)
if_valid-eq-valid (invalid r) next h = absurd (ground arith)

module _ (J : Json) where
  open J use {
    Value, is_member, at, is_bool, is_string, is_array, is_object, as_string, elements,
    get_member_names,
  }

  -- A chain of checks that ends valid has passed each of them.
  passed :
      (check : Outcome Verdict) (next : Outcome Verdict)
      → (check >>= λ v. if_valid v next) ≡ returns valid
      → (check ≡ returns valid) × (next ≡ returns valid)
  passed check next h =
      let (v, e, f) = >>=-eq-returns check _ h in
      let (g, k) = if_valid-eq-valid v next f in (e ∙ ap returns g, k)

  pub valid_commands :
      (d : Value) (id : String) (b : Value) (names : List String)
      → check_parts J d id ≡ returns valid
      → has_kind J is_object d "bindings" ≡ returns true
      → at d "bindings" ≡ returns b
      → get_member_names b ≡ returns names
      → check_commands J b names ≡ returns valid
  unfolding check_parts check_bindings has_kind
  valid_commands d id b names h k e f =
      let (_, grab) = passed (check_match J d id) _ h in
      let (_, bindings) = passed (check_kind J is_bool d "grab" _) _ grab in
      ground (arith, bindings)

  pub valid_cons :
      (d : Value) (ds : List Value) (ids : List String)
      → validate_devices J (d ∷ ds) ids ≡ returns valid
      → (validate_device J d ≡ returns valid)
        × ((x : Value) × (id : String) × (at d "id" ≡ returns x)
            × (as_string x ≡ returns id)
            × (seen id ids ≡ false)
            × (validate_devices J ds (id ∷ ids) ≡ returns valid))
  unfolding validate_devices
  valid_cons d ds ids h =
      let (v, rest) = passed (validate_device J d) _ h in
      let (x, id, e, f, _, _) = (valid_device_id J d v).1 in
      (v, (x, id, e, f, ground arith, ground arith))

  pub valid_config :
      (c : Value)
      → validate J c ≡ returns valid
      → (is_object c ≡ true) × (check_devices J c ≡ returns valid)
  unfolding validate
  valid_config c h = elim (Bool-cases (is_object c)) [
    | inl o ↦
        let (_, a) = passed (check_kind J is_bool c "daemon" _) _ (rw o at h) in
        let (_, b) = passed (check_kind J is_bool c "debug" _) _ a in
        (o, (passed (check_kind J is_string c "control_socket" _) _ b).1)
    | inr n ↦ absurd (ground arith)
  ]

  -- A devices member of a valid document is an array of valid devices.
  pub valid_devices :
      (c : Value)
      → check_devices J c ≡ returns valid
      → is_member c "devices" ≡ returns true
      → (ds : Value) × (at c "devices" ≡ returns ds)
        × (is_array ds ≡ true)
        × (validate_devices J (elements ds) [] ≡ returns valid)
  unfolding check_devices
  valid_devices c h m = elim (Outcome-cases (at c "devices")) [
    | inl (ds, e) ↦ (ds, e, ground arith, ground arith)
    | inr e ↦ absurd (ground arith)
  ]
