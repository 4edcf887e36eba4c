-- ===== src/Json/Access.antt =====
-- Reading an optional member: the tests that src/config.cpp and the frontend repeat.
use pointer_force.Prelude.{
  String, ◌≡◌, inl, inr, Bool, true, false, arith, if◌then◌else◌, Bool-cases, Outcome, returns,
  Outcome-cases, Returns, ◌>>=◌, string_eq, int_eq, nat_eq,
}
use pointer_force.Json.{Json, IsTotalOnKinds}

module _ (J : Json) where
  open J use {Value, is_member, at, is_bool, is_string, is_object, as_bool, as_string}

  -- v.isMember(k) && v[k].isKind()
  unfoldable pub has_kind : (Value → Bool) → Value → String → Outcome Bool
  has_kind is_kind v k = do
    there ← is_member v k
    if there then (do x ← at v k; returns (is_kind x)) else returns false

  -- if (v.isMember(k) && v[k].isString()) target = v[k].asString();
  unfoldable pub string_or : Value → String → String → Outcome String
  string_or v k target = do
    there ← has_kind is_string v k
    if there then (do x ← at v k; as_string x) else returns target

  -- if (v.isMember(k) && v[k].isBool()) target = v[k].asBool();
  unfoldable pub bool_or : Value → String → Bool → Outcome Bool
  bool_or v k target = do
    there ← has_kind is_bool v k
    if there then (do x ← at v k; as_bool x) else returns target

module _ (J : Json) (total : IsTotalOnKinds J) where
  open J use {Value, is_member, at, is_bool, is_string, is_object, as_bool, as_string}

  pub has_kind-Returns :
      (is_kind : Value → Bool) (v : Value) (k : String)
      → is_object v ≡ true
      → Returns (has_kind J is_kind v k)
  unfolding has_kind
  has_kind-Returns is_kind v k h =
      let (there, e) = total.is_member-Returns v k h in
      let (x, f) = total.at-Returns v k h in
      elim (Bool-cases there) [ inl t ↦ (is_kind x, rw (e, t, f)) | inr n ↦ (false, rw (e, n)) ]

  -- A member that has the kind can be read, and is of that kind.
  pub has_kind-true :
      (is_kind : Value → Bool) (v : Value) (k : String)
      → has_kind J is_kind v k ≡ returns true
      → (x : Value) × (at v k ≡ returns x) × (is_kind x ≡ true)
  unfolding has_kind
  has_kind-true is_kind v k h = elim (Outcome-cases (at v k)) [
    | inl (x, e) ↦ (x, e, ground arith)
    | inr e ↦ absurd (ground arith)
  ]

  pub string_or-Returns :
      (v : Value) (k target : String) → is_object v ≡ true → Returns (string_or J v k target)
  unfolding string_or
  string_or-Returns v k target h =
      let (there, e) = has_kind-Returns is_string v k h in
      elim (Bool-cases there) [
        | inl t ↦
            let (x, f, g) = has_kind-true is_string v k (rw (e, t)) in
            let (s, r) = total.as_string-Returns x g in (s, rw (e, t, f, r))
        | inr n ↦ (target, rw (e, n))
      ]

  pub bool_or-Returns :
      (v : Value) (k : String) (target : Bool) → is_object v ≡ true → Returns (bool_or J v k target)
  unfolding bool_or
  bool_or-Returns v k target h =
      let (there, e) = has_kind-Returns is_bool v k h in
      elim (Bool-cases there) [
        | inl t ↦
            let (x, f, g) = has_kind-true is_bool v k (rw (e, t)) in
            let (s, r) = total.as_bool-Returns x g in (s, rw (e, t, f, r))
        | inr n ↦ (target, rw (e, n))
      ]
