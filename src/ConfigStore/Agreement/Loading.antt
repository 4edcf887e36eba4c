-- ===== src/ConfigStore/Agreement/Loading.antt =====
-- The devices of a valid document can be read, and keep their distinct ids.
use pointer_force.Prelude.{
  ℕ, String, ◌≡◌, refl, ap, ◌∙◌, true, false, not, ◌&&◌, Option, none, some, List, [], ◌∷◌, arith,
  ◌==◌, returns, Ensures, Ensures-returns, Ensures-if, Ensures-bind, Returns, Returns-bind,
  Returns-if, Returns-after, ℤ, is_negative, string_eq, int_eq, nat_eq,
}
use pointer_force.Assoc.{Assoc}
use pointer_force.Common.{DeviceConfig}
use pointer_force.Keys.{name_to_code}
use pointer_force.Json.{Json, IsTotalOnKinds}
use pointer_force.Json.Access.{
  has_kind, string_or, bool_or, has_kind-Returns, has_kind-true, string_or-Returns, bool_or-Returns,
}
use pointer_force.Config.{
  read_match, read_binding, read_members, read_bindings, finish_device, read_device, read_devices,
  push_if, lacks_criteria,
}
use pointer_force.ConfigStore.{
  valid, seen, check_commands, check_parts, validate_device, validate_devices,
}
use pointer_force.ConfigStore.Checks.{valid_device_id}
use pointer_force.ConfigStore.Agreement.Inversion.{valid_commands, valid_cons}

-- No device has one of the ids, and no two have the same.
abbrev pub AreDistinct : List String → List DeviceConfig → Type 0
AreDistinct ids [] = Unit
AreDistinct ids (dc ∷ dcs) = (seen dc.id ids ≡ false) × AreDistinct (dc.id ∷ ids) dcs

module _ (J : Json) (total : IsTotalOnKinds J) (input_code : String → ℕ) where
  open J use {Value, at, is_string, is_object, is_bool, as_string, get_member_names}
  open total use {at-Returns, as_string-Returns, get_member_names-Returns}

  read_match-Returns : (d : Value) → is_object d ≡ true → Returns (read_match J d)
  unfolding read_match
  read_match-Returns d o =
      Returns-bind (has_kind J is_object d "match") _
        (has_kind-Returns J total is_object d "match" o)
        λ object e.
          Returns-if object _ _
            (λ t.
              let (m, f, om) = has_kind-true J total is_object d "match" (e ∙ ap returns t) in
              rw f (
                Returns-bind (string_or J m "name" "") _ (string_or-Returns J total m "name" "" om)
                  λ _ _.
                    Returns-bind (string_or J m "vendor_product" "") _
                      (string_or-Returns J total m "vendor_product" "" om)
                      λ _ _.
                        Returns-bind (string_or J m "path" "") _
                          (string_or-Returns J total m "path" "" om) λ _ _. (_, refl)))
            (λ _.
              Returns-bind (string_or J d "path" "") _ (string_or-Returns J total d "path" "" o)
                λ _ _. (_, refl))

  read_members-Returns :
      (b : Value) (names : List String) (sub : Assoc ℤ String)
      → is_object b ≡ true
      → check_commands J b names ≡ returns valid
      → Returns (read_members J input_code b names sub)
  unfolding read_members read_binding check_commands
  read_members-Returns b [] sub o v = (sub, refl)
  read_members-Returns b (key ∷ names) sub o v =
      let (x, e) = at-Returns b key o in
      Returns-bind (read_binding J input_code b key sub) _
        (Returns-if (is_negative (name_to_code input_code key)) _ _ (λ _. (sub, refl))
          (λ _.
            Returns-after (at b key) _ e
              (Returns-bind (as_string x) _ (as_string-Returns x (ground arith)) λ _ _. (_, refl))))
        λ sub' _. read_members-Returns b names sub' o (ground arith)

  read_bindings-Returns :
      (d : Value) (id : String)
      → is_object d ≡ true
      → check_parts J d id ≡ returns valid
      → Returns (read_bindings J input_code d)
  unfolding read_bindings
  read_bindings-Returns d id o v =
      Returns-bind (has_kind J is_object d "bindings") _
        (has_kind-Returns J total is_object d "bindings" o)
        λ object e.
          Returns-if object _ _
            (λ t.
              let there : has_kind J is_object d "bindings" ≡ returns true = e ∙ ap returns t in
              let (b, f, ob) = has_kind-true J total is_object d "bindings" there in
              let (names, n) = get_member_names-Returns b ob in
              Returns-after (at d "bindings") _ f (
                Returns-after (get_member_names b) _ n
                  (read_members-Returns b names [] ob (valid_commands J d id b names v there f n))))
            (λ _. ([], refl))

  read_device-Returns :
      (d : Value) → validate_device J d ≡ returns valid → Returns (read_device J input_code d)
  unfolding read_device finish_device
  read_device-Returns d v =
      let (o, (x, id, e, f, _, parts)) = valid_device_id J d v in
      Returns-bind (has_kind J is_string d "id") _ (has_kind-Returns J total is_string d "id" o)
        λ named _.
          Returns-if named _ _
            (λ _. Returns-after (at d "id") _ e (
              Returns-after (as_string x) _ f (
                Returns-bind (read_match J d) _ (read_match-Returns d o) λ m _.
                  Returns-if (lacks_criteria m && not (id == "*")) _ _ (λ _. (none, refl))
                    (λ _.
                      Returns-bind (bool_or J d "grab" false) _
                        (bool_or-Returns J total d "grab" false o)
                        λ _ _.
                          Returns-bind (read_bindings J input_code d) _
                            (read_bindings-Returns d id o parts) λ _ _. (_, refl)))))
            (λ _. (none, refl))

  pub read_devices-Returns :
      (ds : List Value) (ids : List String)
      → validate_devices J ds ids ≡ returns valid
      → Returns (read_devices J input_code ds)
  unfolding read_devices
  read_devices-Returns [] ids v = ([], refl)
  read_devices-Returns (d ∷ ds) ids v =
      let (vd, (_, id, _, _, _, rest)) = valid_cons J d ds ids v in
      Returns-bind (read_device J input_code d) _ (read_device-Returns d vd) λ dc _.
        Returns-bind (read_devices J input_code ds) _ (read_devices-Returns ds (id ∷ ids) rest)
          λ dcs _. (_, refl)

AreDistinct-weaken :
    (ids more : List String) (dcs : List DeviceConfig)
    → ((y : String) → seen y more ≡ false → seen y ids ≡ false)
    → AreDistinct more dcs
    → AreDistinct ids dcs
AreDistinct-weaken ids more [] h a = tt
AreDistinct-weaken ids more (dc ∷ dcs) h a =
    (h dc.id a.0, AreDistinct-weaken (dc.id ∷ ids) (dc.id ∷ more) dcs (keep dc.id) a.1)
  where
    keep : (x y : String) → seen y (x ∷ more) ≡ false → seen y (x ∷ ids) ≡ false
    keep x y n = unfold seen in ground (arith, h y)

abbrev HasId : String → Option DeviceConfig → Type 0
HasId id none = Unit
HasId id (some dc) = dc.id ≡ id

push_if-AreDistinct :
    (dc : Option DeviceConfig) (dcs : List DeviceConfig) (id : String) (ids : List String)
    → HasId id dc
    → seen id ids ≡ false
    → AreDistinct (id ∷ ids) dcs
    → AreDistinct ids (push_if dc dcs)
push_if-AreDistinct none dcs id ids h n a =
    AreDistinct-weaken ids (id ∷ ids) dcs (λ y m. unfold seen in ground arith) a
push_if-AreDistinct (some dc) dcs id ids h n a = rw h (n, a)

module _ (J : Json) (input_code : String → ℕ) where
  open J use {Value, at, is_string, as_string}

  read_device-HasId :
      (d x : Value) (id : String)
      → at d "id" ≡ returns x
      → as_string x ≡ returns id
      → Ensures (HasId id) (read_device J input_code d)
  unfolding read_device finish_device
  read_device-HasId d x id e f = Ensures-bind (has_kind J is_string d "id") _ λ named _.
      Ensures-if named _ _
        (λ _. Ensures-bind (at d "id") _ λ y g. Ensures-bind (as_string y) _ λ id' k.
          Ensures-bind (read_match J d) _ λ m _.
            Ensures-if (lacks_criteria m && not (id' == "*")) _ _ (λ _. Ensures-returns none tt)
              (λ _. Ensures-bind (bool_or J d "grab" false) _ λ grab _.
                Ensures-bind (read_bindings J input_code d) _
                  λ bs _. Ensures-returns _ (ground arith)))
        (λ _. Ensures-returns none tt)

  pub read_devices-AreDistinct :
      (ds : List Value) (ids : List String)
      → validate_devices J ds ids ≡ returns valid
      → Ensures (AreDistinct ids) (read_devices J input_code ds)
  unfolding read_devices
  read_devices-AreDistinct [] ids v = Ensures-returns [] tt
  read_devices-AreDistinct (d ∷ ds) ids v =
      let (_, (x, id, e, f, n, rest)) = valid_cons J d ds ids v in
      Ensures-bind (read_device J input_code d) _ λ dc g.
        Ensures-bind (read_devices J input_code ds) _ λ dcs k. Ensures-returns _ (
          push_if-AreDistinct dc dcs id ids ((read_device-HasId d x id e f).at_return dc g) n
            ((read_devices-AreDistinct ds (id ∷ ids) rest).at_return dcs k))
