-- ===== src/Json.antt =====
-- The JSON library, jsoncpp, which is not part of the repository: the operations that the program
-- calls, as an interface, and the documented behaviour that its code relies on.
--
-- A call that may throw Json::LogicError or fail a JSON_ASSERT returns an `Outcome`.
pub mod Access
use pointer_force.Prelude.{
  ℕ, zero, suc, ◌+◌, ◌-◌, ◌*◌, ◌%◌, ◌≤◌, ◌<◌, min, String, ◌≡◌, refl, sym, ap, subst, ◌∙◌, ◌≢◌, ◌↔◌,
  ◌⊎◌, inl, inr, Bool, true, false, not, ◌&&◌, ◌||◌, Option, none, some, List, [], ◌∷◌, ◌++◌, map,
  append_assoc, append-nil, arith, eq_iff, eq_refl, ltb, leb, nat_beq, nat_beq_iff, if◌then◌else◌,
  Eq, ◌==◌, is_empty, Bool-cases, Option-cases, length, length-append, get_elem?, In,
  In-append_left, In-append_right, In-append, All, All-append, Outcome, returns, throws,
  Outcome-cases, >>=-eq-returns, Ensures, Ensures-returns, Ensures-if, Ensures-bind, Returns,
  Returns-bind, Returns-if, ◌>>=◌, ◌>>◌, ℤ, pos, negsuc, is_negative, int_beq, int_beq_iff,
  string_eq, int_eq, nat_eq,
}

-- The bytes of a file or of a stream.
abbrev pub Bytes : Type 0
Bytes = List ℕ

pub record Json : Type 1 where
  pub Value : Type 0
  -- Reader::parse and CharReader::parse
  pub parse : Bytes → Option Value
  -- whether a text that does not parse makes it throw, past the limit of nesting
  pub gives_up : Bytes → Bool
  -- FastWriter::write, with its newline, and writeString
  pub write : Value → Bytes
  pub write_string : Value → Bytes
  pub is_member : Value → String → Outcome Bool
  -- operator[] for reading
  pub at : Value → String → Outcome Value
  -- operator[] as the target of an assignment
  pub set_member : Value → String → Value → Outcome Value
  -- Value::empty: null, or an array or an object without elements
  pub empty : Value → Bool
  pub is_bool : Value → Bool
  pub is_string : Value → Bool
  pub is_array : Value → Bool
  pub is_object : Value → Bool
  pub as_bool : Value → Outcome Bool
  pub as_string : Value → Outcome String
  pub as_int : Value → Outcome ℤ
  -- what a range-for visits
  pub elements : Value → List Value
  pub get_member_names : Value → Outcome (List String)
  -- an element of an array as the target of an assignment
  pub set_element : Value → ℕ → Value → Value
  pub append : Value → Value → Outcome Value
  pub null_value : Value
  pub object_value : Value
  pub array_value : Value
  pub of_bool : Bool → Value
  pub of_string : String → Value
  pub of_int : ℤ → Value

-- Members are looked up in an object without throwing, and a value of a kind converts to it.
pub record IsTotalOnKinds (J : Json) : Type 0 where
  pub is_member-Returns :
      (v : J.Value) (k : String) → J.is_object v ≡ true → Returns (J.is_member v k)
  pub at-Returns : (v : J.Value) (k : String) → J.is_object v ≡ true → Returns (J.at v k)
  pub as_bool-Returns : (v : J.Value) → J.is_bool v ≡ true → Returns (J.as_bool v)
  pub as_string-Returns : (v : J.Value) → J.is_string v ≡ true → Returns (J.as_string v)
  pub get_member_names-Returns :
      (v : J.Value) → J.is_object v ≡ true → Returns (J.get_member_names v)

-- Documents are built: a member is set in an object, or in a null value, which becomes one; the
-- other members stay; an array takes one more element at its end, or another one at a place.
pub record IsBuilding (J : Json) : Type 0 where
  pub set_member-Returns :
      (v : J.Value) (k : String) (x : J.Value)
      → (J.is_object v ≡ true) ⊎ (v ≡ J.null_value)
      → (v' : J.Value) × (J.set_member v k x ≡ returns v')
        × (J.is_object v' ≡ true)
        × (J.at v' k ≡ returns x)
        × ((j : String) → (j == k) ≡ false → J.at v' j ≡ J.at v j)
  pub append-Returns :
      (v x : J.Value)
      → J.is_array v ≡ true
      → (v' : J.Value) × (J.append v x ≡ returns v')
        × (J.is_array v' ≡ true)
        × (J.elements v' ≡ J.elements v ++ x ∷ [])
  pub set_element-Replaces :
      (v x old : J.Value) (front back : List J.Value)
      → J.is_array v ≡ true
      → J.elements v ≡ front ++ old ∷ back
      → (J.is_array (J.set_element v (length front) x) ≡ true)
        × (J.elements (J.set_element v (length front) x) ≡ front ++ x ∷ back)
  pub array_value-Empty : (J.is_array J.array_value ≡ true) × (J.elements J.array_value ≡ [])
  pub object_value-Object : J.is_object J.object_value ≡ true

-- A member that was set is there, the others are there as before, and a text and a Boolean are read
-- as written; an array is empty if a range-for visits nothing.
pub record IsReadable (J : Json) : Type 0 where
  pub is_member-set_member :
      (v : J.Value) (k : String) (x v' : J.Value)
      → (J.is_object v ≡ true) ⊎ (v ≡ J.null_value)
      → J.set_member v k x ≡ returns v'
      → (J.is_member v' k ≡ returns true)
        × ((j : String) → (j == k) ≡ false → J.is_member v' j ≡ J.is_member v j)
  pub as_string-of_string : (s : String) → J.as_string (J.of_string s) ≡ returns s
  pub as_bool-of_bool : (b : Bool) → J.as_bool (J.of_bool b) ≡ returns b
  pub empty-elements :
      (v : J.Value) → J.is_array v ≡ true → J.empty v ≡ nat_beq (length (J.elements v)) 0
