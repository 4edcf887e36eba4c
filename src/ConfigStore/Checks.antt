-- ===== src/ConfigStore/Checks.antt =====
-- The validation never throws.
use pointer_force.Prelude.{
  String, ◌≡◌, refl, ap, ◌∙◌, inl, inr, Bool, true, false, List, [], ◌∷◌, arith, is_empty, Outcome,
  returns, Outcome-cases, Returns, Returns-bind, Returns-if, string_eq, int_eq, nat_eq,
}
use pointer_force.Json.{Json, IsTotalOnKinds}
use pointer_force.Json.Access.{has_kind, has_kind-Returns, has_kind-true}
use pointer_force.ConfigStore.{
  Verdict, valid, invalid, Refusal, if_valid, require, seen, check_kind, check_match,
  check_commands, check_bindings, check_parts, validate_device, validate_devices, check_devices,
  validate,
}

if_valid-Returns : (v : Verdict) (next : Outcome Verdict) → Returns next → Returns (if_valid v next)
if_valid-Returns valid next r = r
if_valid-Returns (invalid x) next r = (invalid x, refl)

module _ (J : Json) where
  open J use {Value, at, is_object, as_string}

  -- A validated device is an object whose id is a string.
  pub valid_device_id :
      (d : Value)
      → validate_device J d ≡ returns valid
      → (is_object d ≡ true)
        × ((x : Value) × (id : String) × (at d "id" ≡ returns x)
            × (as_string x ≡ returns id)
            × (is_empty id ≡ false)
            × (check_parts J d id ≡ returns valid))
  unfolding validate_device
  valid_device_id d h = elim (Outcome-cases (at d "id")) [
    | inl (x, e) ↦ elim (Outcome-cases (as_string x)) [
      | inl (id, f) ↦ (ground arith, (x, id, e, f, ground arith, ground arith))
      | inr f ↦ absurd (ground arith)
    ]
    | inr e ↦ absurd (ground arith)
  ]

module _ (J : Json) (total : IsTotalOnKinds J) where
  open J use {
    Value, is_member, at, is_bool, is_string, is_array, is_object, as_string, elements,
    get_member_names,
  }
  open total use {is_member-Returns, at-Returns, as_string-Returns, get_member_names-Returns}

  check_kind-Returns :
      (is_kind : Value → Bool) (v : Value) (k : String) (r : Refusal)
      → is_object v ≡ true
      → Returns (check_kind J is_kind v k r)
  unfolding check_kind
  check_kind-Returns is_kind v k r o =
      Returns-bind (is_member v k) _ (is_member-Returns v k o) λ there _.
        Returns-if there _ _
          (λ _. Returns-bind (at v k) _ (at-Returns v k o) λ x _. (require (is_kind x) r, refl))
          (λ _. (valid, refl))

  check_match-Returns :
      (d : Value) (id : String) → is_object d ≡ true → Returns (check_match J d id)
  unfolding check_match
  check_match-Returns d id o =
      Returns-bind (is_member d "match") _ (is_member-Returns d "match" o) λ there _.
        Returns-if there _ _
          (λ _. Returns-bind (at d "match") _ (at-Returns d "match" o) λ m _. (_, refl))
          (λ _. (_, refl))

  check_commands-Returns :
      (b : Value) (keys : List String) → is_object b ≡ true → Returns (check_commands J b keys)
  unfolding check_commands
  check_commands-Returns b [] o = (valid, refl)
  check_commands-Returns b (key ∷ keys) o =
      Returns-bind (at b key) _ (at-Returns b key o)
        λ x _. Returns-if (is_string x) _ _ (λ _. check_commands-Returns b keys o) (λ _. (_, refl))

  check_bindings-Returns : (d : Value) → is_object d ≡ true → Returns (check_bindings J d)
  unfolding check_bindings
  check_bindings-Returns d o =
      Returns-bind (is_member d "bindings") _ (is_member-Returns d "bindings" o) λ there _.
        Returns-if there _ _
          (λ _. Returns-bind (at d "bindings") _ (at-Returns d "bindings" o) λ b _.
            Returns-if (is_object b) _ _
              (λ ob.
                Returns-bind (get_member_names b) _ (get_member_names-Returns b ob)
                  λ names _. check_commands-Returns b names ob)
              (λ _. (_, refl)))
          (λ _. (_, refl))

  check_parts-Returns :
      (d : Value) (id : String) → is_object d ≡ true → Returns (check_parts J d id)
  unfolding check_parts
  check_parts-Returns d id o =
      Returns-bind (check_match J d id) _ (check_match-Returns d id o) λ v _. if_valid-Returns v _ (
        Returns-bind (check_kind J is_bool d "grab" _) _ (check_kind-Returns is_bool d "grab" _ o)
          λ g _. if_valid-Returns g _ (check_bindings-Returns d o))

  validate_device-Returns : (d : Value) → Returns (validate_device J d)
  unfolding validate_device
  validate_device-Returns d =
      Returns-if (is_object d) _ _
        (λ o.
          Returns-bind (has_kind J is_string d "id") _ (has_kind-Returns J total is_string d "id" o)
            λ named n.
              Returns-if named _ _
                (λ t.
                  let (x, e, s) = has_kind-true J total is_string d "id" (rw t at n) in
                  Returns-bind (at d "id") _ (x, e)
                    λ y f. Returns-bind (as_string y) _ (as_string-Returns y (ground arith)) λ id _.
                      Returns-if (is_empty id) _ _ (λ _. (_, refl))
                        (λ _. check_parts-Returns d id o))
                (λ _. (_, refl)))
        (λ _. (_, refl))

  -- After a valid verdict the next check runs.
  if_valid_next :
      (v : Verdict) (next : Outcome Verdict)
      → (v ≡ valid → Returns next)
      → Returns (if_valid v next)
  if_valid_next valid next h = h refl
  if_valid_next (invalid r) next h = (invalid r, refl)

  validate_devices-Returns :
      (ds : List Value) (ids : List String) → Returns (validate_devices J ds ids)
  unfolding validate_devices
  validate_devices-Returns [] ids = (valid, refl)
  validate_devices-Returns (d ∷ ds) ids =
      Returns-bind (validate_device J d) _ (validate_device-Returns d) λ v e.
        if_valid_next v _ λ ok.
          let (x, id, a, b, _, _) = (valid_device_id J d (e ∙ ap returns ok)).1 in
          rw (a, b)
            (Returns-if (seen id ids) _ _ (λ _. (_, refl))
              (λ _. validate_devices-Returns ds (id ∷ ids)))

  check_devices-Returns : (c : Value) → is_object c ≡ true → Returns (check_devices J c)
  unfolding check_devices
  check_devices-Returns c o =
      Returns-bind (is_member c "devices") _ (is_member-Returns c "devices" o) λ there _.
        Returns-if there _ _
          (λ _. Returns-bind (at c "devices") _ (at-Returns c "devices" o) λ ds _.
            Returns-if (is_array ds) _ _ (λ _. validate_devices-Returns (elements ds) [])
              (λ _. (_, refl)))
          (λ _. (_, refl))

  -- The editor's validation gives a verdict on every JSON value, of whatever shape: it never throws.
  validate-Returns : (c : Value) → Returns (validate J c)
  unfolding validate
  validate-Returns c =
      Returns-if (is_object c) _ _
        (λ o.
          Returns-bind (check_kind J is_bool c "daemon" _) _
            (check_kind-Returns is_bool c "daemon" _ o)
            λ v _. if_valid-Returns v _ (
              Returns-bind (check_kind J is_bool c "debug" _) _
                (check_kind-Returns is_bool c "debug" _ o)
                λ w _. if_valid-Returns w _ (
                  Returns-bind (check_kind J is_string c "control_socket" _) _
                    (check_kind-Returns is_string c "control_socket" _ o)
                    λ u _. if_valid-Returns u _ (check_devices-Returns c o))))
        (λ _. (_, refl))
