-- ===== src/Tests/Sample.antt =====
-- A small JSON library and a small set of key codes, as concrete values of the interfaces.
use pointer_force.Prelude.{
  ℕ, zero, suc, String, ◌≡◌, refl, ap, inl, inr, Bool, true, false, Option, none, some, List, [],
  ◌∷◌, arith, eq_iff, nat_beq, if◌then◌else◌, ◌==◌, Bool-cases, get_elem?, In, Outcome, returns,
  throws, Returns, ℤ, pos, string_eq, int_eq, nat_eq,
}
use pointer_force.Keys.{key_names}
use pointer_force.Json.{Json, Bytes, IsTotalOnKinds}

mutual
  pub data Doc : Type 0 where
    null : Doc
    boolean : Bool → Doc
    text : String → Doc
    number : ℤ → Doc
    array : Docs → Doc
    object : Members → Doc

  pub data Docs : Type 0 where
    nil : Docs
    cons : Doc → Docs → Docs

  pub data Members : Type 0 where
    end : Members
    member : String → Doc → Members → Members

unfoldable pub find_member : String → Members → Option Doc
find_member k end = none
find_member k (member j v ms) = if j == k then some v else find_member k ms

unfoldable pub put_member : String → Doc → Members → Members
put_member k v end = member k v end
put_member k v (member j w ms) = if j == k then member j v ms else member j w (put_member k v ms)

unfoldable pub member_names : Members → List String
member_names end = []
member_names (member k v ms) = k ∷ member_names ms

unfoldable pub docs_list : Docs → List Doc
docs_list nil = []
docs_list (cons d ds) = d ∷ docs_list ds

unfoldable pub snoc : Docs → Doc → Docs
snoc nil d = cons d nil
snoc (cons x ds) d = cons x (snoc ds d)

abbrev is_some : Option Doc → Bool
is_some none = false
is_some (some d) = true

abbrev or_null : Option Doc → Doc
or_null none = null
or_null (some d) = d

abbrev doc_is_member : Doc → String → Outcome Bool
doc_is_member (object ms) k = returns (is_some (find_member k ms))
doc_is_member null k = returns false
doc_is_member _ k = throws

abbrev doc_at : Doc → String → Outcome Doc
doc_at (object ms) k = returns (or_null (find_member k ms))
doc_at null k = returns null
doc_at _ k = throws

abbrev doc_set_member : Doc → String → Doc → Outcome Doc
doc_set_member (object ms) k v = returns (object (put_member k v ms))
doc_set_member null k v = returns (object (member k v end))
doc_set_member _ k v = throws

abbrev doc_is_bool : Doc → Bool
doc_is_bool (boolean b) = true
doc_is_bool _ = false

abbrev doc_is_string : Doc → Bool
doc_is_string (text s) = true
doc_is_string _ = false

abbrev doc_is_array : Doc → Bool
doc_is_array (array ds) = true
doc_is_array _ = false

abbrev doc_is_object : Doc → Bool
doc_is_object (object ms) = true
doc_is_object _ = false

abbrev doc_as_bool : Doc → Outcome Bool
doc_as_bool (boolean b) = returns b
doc_as_bool null = returns false
doc_as_bool _ = throws

abbrev doc_as_string : Doc → Outcome String
doc_as_string (text s) = returns s
doc_as_string null = returns ""
doc_as_string (boolean true) = returns "true"
doc_as_string (boolean false) = returns "false"
doc_as_string _ = throws

abbrev doc_as_int : Doc → Outcome ℤ
doc_as_int (number n) = returns n
doc_as_int null = returns (pos 0)
doc_as_int _ = throws

abbrev doc_elements : Doc → List Doc
doc_elements (array ds) = docs_list ds
doc_elements _ = []

abbrev doc_empty : Doc → Bool
doc_empty null = true
doc_empty (array nil) = true
doc_empty (object end) = true
doc_empty _ = false

abbrev doc_member_names : Doc → Outcome (List String)
doc_member_names (object ms) = returns (member_names ms)
doc_member_names null = returns []
doc_member_names _ = throws

abbrev doc_append : Doc → Doc → Outcome Doc
doc_append (array ds) d = returns (array (snoc ds d))
doc_append null d = returns (array (cons d nil))
doc_append _ d = throws

unfoldable pub put_element : Docs → ℕ → Doc → Docs
put_element nil i d = nil
put_element (cons x ds) zero d = cons d ds
put_element (cons x ds) (suc i) d = cons x (put_element ds i d)

abbrev doc_set_element : Doc → ℕ → Doc → Doc
doc_set_element (array ds) i d = array (put_element ds i d)
doc_set_element v i d = v

-- A mouse whose side button is bound, and the wildcard device.
abbrev pub mouse : Doc
mouse = object (
    member "id" (text "mouse") (
      member "match" (object (member "name" (text "BT5.1 Mouse") end))
        (member "bindings" (object (member "BTN_SIDE" (text "notify-send side") end)) end)))

abbrev pub wildcard : Doc
wildcard =
    object (
      member "id" (text "*") (member "bindings" (object (member "KEY_MUTE" (text "mute") end)) end))

abbrev pub good_config : Doc
good_config =
    object (
      member "debug" (boolean true) (member "devices" (array (cons mouse (cons wildcard nil))) end))

abbrev pub bare_config : Doc
bare_config = object (member "debug" (boolean true) end)

abbrev pub request : Doc
request = object (
    member "cmd" (text "bind") (
      member "device" (text "mouse")
        (member "key" (text "KEY_MUTE") (member "command" (text "mute") end))))

-- One byte names a document.
abbrev pub doc_parse : Bytes → Option Doc
doc_parse [] = none
doc_parse (b ∷ bs) =
    if nat_beq b 1
    then some good_config
    else if nat_beq b 2
    then some bare_config
    else if nat_beq b 3
    then some request
    else if nat_beq b 4
    then some (object (member "ok" (boolean true) end))
    else none

abbrev pub sample_json : Json
sample_json = record {
  Value = Doc;
  parse = doc_parse;
  gives_up = λ text. false;
  write = λ d. 1 ∷ 10 ∷ [];
  write_string = λ d. 1 ∷ [];
  is_member = doc_is_member;
  at = doc_at;
  set_member = doc_set_member;
  empty = doc_empty;
  is_bool = doc_is_bool;
  is_string = doc_is_string;
  is_array = doc_is_array;
  is_object = doc_is_object;
  as_bool = doc_as_bool;
  as_string = doc_as_string;
  as_int = doc_as_int;
  elements = doc_elements;
  get_member_names = doc_member_names;
  set_element = doc_set_element;
  append = doc_append;
  null_value = null;
  object_value = object end;
  array_value = array nil;
  of_bool = boolean;
  of_string = text;
  of_int = number;
}

is_member-total : (v : Doc) (k : String) → doc_is_object v ≡ true → Returns (doc_is_member v k)
is_member-total (object ms) k h = (_, refl)
is_member-total _ k h = cc

at-total : (v : Doc) (k : String) → doc_is_object v ≡ true → Returns (doc_at v k)
at-total (object ms) k h = (_, refl)
at-total _ k h = cc

as_bool-total : (v : Doc) → doc_is_bool v ≡ true → Returns (doc_as_bool v)
as_bool-total (boolean b) h = (b, refl)
as_bool-total _ h = cc

as_string-total : (v : Doc) → doc_is_string v ≡ true → Returns (doc_as_string v)
as_string-total (text s) h = (s, refl)
as_string-total (boolean true) h = cc
as_string-total (boolean false) h = cc
as_string-total _ h = cc

member_names-total : (v : Doc) → doc_is_object v ≡ true → Returns (doc_member_names v)
member_names-total (object ms) h = (_, refl)
member_names-total _ h = cc

pub sample_total : IsTotalOnKinds sample_json
sample_total = record {
  is_member-Returns = is_member-total;
  at-Returns = at-total;
  as_bool-Returns = as_bool-total;
  as_string-Returns = as_string-total;
  get_member_names-Returns = member_names-total;
}

unfoldable pub index_of : String → List String → ℕ
index_of n [] = 0
index_of n (m ∷ ns) = if m == n then 0 else suc (index_of n ns)

-- A key's code is its place in the table.
unfoldable pub sample_code : String → ℕ
unfolding index_of
sample_code n = index_of n key_names

get_elem?-index_of :
    (n : String) (ns : List String) → In n ns → get_elem? ns (index_of n ns) ≡ some n
unfolding index_of
get_elem?-index_of n [] h = elim h [ ]
get_elem?-index_of n (m ∷ ns) h = elim (Bool-cases (m == n)) [
  | inl e ↦ rw e (ap some ((eq_iff m n).0 e))
  | inr d ↦ rw d (get_elem?-index_of n ns (ground (arith, eq_iff m n)))
]

index_of-injective :
    (m k : String) (ns : List String) → In m ns → In k ns → index_of m ns ≡ index_of k ns → m ≡ k
index_of-injective m k ns i j e =
    ground (arith, e, get_elem?-index_of m ns i, get_elem?-index_of k ns j)

pub get_elem?-In : (n : String) (ns : List String) (i : ℕ) → get_elem? ns i ≡ some n → In n ns
get_elem?-In n [] i h = absurd (ground arith)
get_elem?-In n (m ∷ ns) zero h = inl (ground arith)
get_elem?-In n (m ∷ ns) (suc i) h = inr (get_elem?-In n ns i h)

pub sample_distinct :
    (m k : String) → In m key_names → In k key_names → sample_code m ≡ sample_code k → m ≡ k
unfolding sample_code
sample_distinct m k i j e = index_of-injective m k key_names i j e
