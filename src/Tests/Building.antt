-- ===== src/Tests/Building.antt =====
-- The sample JSON library builds documents as the interface says.
use pointer_force.Prelude.{
  arith, nat_beq_iff, nat_beq, length, subst, String, List, ◌≡◌, refl, ap, ◌⊎◌, true, false, none,
  some, [], ◌∷◌, ◌++◌, arith, eq_iff, eq_refl, ◌==◌, returns, string_eq, int_eq, nat_eq,
}
use pointer_force.Json.{IsBuilding, IsReadable}
use pointer_force.Tests.Sample.{
  Doc, null, boolean, text, number, array, object, Docs, nil, cons, Members, end, member,
  find_member, put_member, docs_list, snoc, put_element, sample_json,
}

find_put_same : (k : String) (x : Doc) (ms : Members) → find_member k (put_member k x ms) ≡ some x
unfolding find_member put_member
find_put_same k x end = ground (arith, eq_refl k)
find_put_same k x (member j w ms) = ground (arith, eq_refl k, eq_iff j k, find_put_same k x ms)

find_put_other :
    (k j : String) (x : Doc) (ms : Members)
    → (j == k) ≡ false
    → find_member j (put_member k x ms) ≡ find_member j ms
unfolding find_member put_member
find_put_other k j x end h = ground (arith, eq_iff k j, eq_iff j k)
find_put_other k j x (member i w ms) h =
    ground (arith, eq_iff k j, eq_iff j k, eq_iff i k, eq_iff i j, find_put_other k j x ms h)

find_single : (k : String) (x : Doc) → find_member k (member k x end) ≡ some x
unfolding find_member
find_single k x = ground (arith, eq_refl k)

find_not_single :
    (k j : String) (x : Doc) → (j == k) ≡ false → find_member j (member k x end) ≡ none
unfolding find_member
find_not_single k j x h = ground (arith, eq_iff k j, eq_iff j k)

set_member-builds :
    (v : Doc) (k : String) (x : Doc)
    → (sample_json.is_object v ≡ true) ⊎ (v ≡ null)
    → (v' : Doc) × (sample_json.set_member v k x ≡ returns v')
      × (sample_json.is_object v' ≡ true)
      × (sample_json.at v' k ≡ returns x)
      × ((j : String) → (j == k) ≡ false → sample_json.at v' j ≡ sample_json.at v j)
set_member-builds (object ms) k x a = (
  object (put_member k x ms),
  refl,
  refl,
  rw (find_put_same k x ms) refl,
  λ j h. rw (find_put_other k j x ms h) refl,
)
set_member-builds null k x a = (
  object (member k x end),
  refl,
  refl,
  rw (find_single k x) refl,
  λ j h. rw (find_not_single k j x h) refl,
)
set_member-builds (boolean b) k x a = absurd (ground arith)
set_member-builds (text b) k x a = absurd (ground arith)
set_member-builds (number b) k x a = absurd (ground arith)
set_member-builds (array b) k x a = absurd (ground arith)

elements-snoc : (ds : Docs) (x : Doc) → docs_list (snoc ds x) ≡ docs_list ds ++ x ∷ []
unfolding docs_list snoc
elements-snoc nil x = refl
elements-snoc (cons d ds) x = ap (λ l. d ∷ l) (elements-snoc ds x)

append-builds :
    (v x : Doc)
    → sample_json.is_array v ≡ true
    → (v' : Doc) × (sample_json.append v x ≡ returns v')
      × (sample_json.is_array v' ≡ true)
      × (sample_json.elements v' ≡ sample_json.elements v ++ x ∷ [])
append-builds (array ds) x h = (array (snoc ds x), refl, refl, elements-snoc ds x)
append-builds (object b) x h = absurd (ground arith)
append-builds null x h = absurd (ground arith)
append-builds (boolean b) x h = absurd (ground arith)
append-builds (text b) x h = absurd (ground arith)
append-builds (number b) x h = absurd (ground arith)

elements-put_element :
    (ds : Docs) (x old : Doc) (front back : List Doc)
    → docs_list ds ≡ front ++ old ∷ back
    → docs_list (put_element ds (length front) x) ≡ front ++ x ∷ back
unfolding docs_list put_element
elements-put_element nil x old [] back h = absurd (ground (arith, h))
elements-put_element nil x old (f ∷ front) back h = absurd (ground (arith, h))
elements-put_element (cons d ds) x old [] back h = ground (arith, h)
elements-put_element (cons d ds) x old (f ∷ front) back h =
    ground (arith, h, elements-put_element ds x old front back)

set_element-builds :
    (v x old : Doc) (front back : List Doc)
    → sample_json.is_array v ≡ true
    → sample_json.elements v ≡ front ++ old ∷ back
    → (sample_json.is_array (sample_json.set_element v (length front) x) ≡ true)
      × (sample_json.elements (sample_json.set_element v (length front) x) ≡ front ++ x ∷ back)
set_element-builds (array ds) x old front back a h =
    (refl, elements-put_element ds x old front back h)
set_element-builds (object b) x old front back a h = absurd (ground arith)
set_element-builds null x old front back a h = absurd (ground arith)
set_element-builds (boolean b) x old front back a h = absurd (ground arith)
set_element-builds (text b) x old front back a h = absurd (ground arith)
set_element-builds (number b) x old front back a h = absurd (ground arith)

no_elements : sample_json.elements sample_json.array_value ≡ []
unfolding docs_list
no_elements = refl

pub sample-IsBuilding : IsBuilding sample_json
sample-IsBuilding = record {
  set_member-Returns = set_member-builds;
  append-Returns = append-builds;
  set_element-Replaces = set_element-builds;
  array_value-Empty = (refl, no_elements);
  object_value-Object = refl;
}

is_some-find_put :
    (k : String) (x : Doc) (ms : Members)
    → sample_json.is_member (object (put_member k x ms)) k ≡ returns true
is_some-find_put k x ms = rw (find_put_same k x ms) refl

set_member-readable :
    (v : Doc) (k : String) (x v' : Doc)
    → (sample_json.is_object v ≡ true) ⊎ (v ≡ null)
    → sample_json.set_member v k x ≡ returns v'
    → (sample_json.is_member v' k ≡ returns true)
      × ((j : String) → (j == k) ≡ false → sample_json.is_member v' j ≡ sample_json.is_member v j)
set_member-readable (object ms) k x v' o e =
    let same : object (put_member k x ms) ≡ v' = ground arith in
    subst
      (λ (w : Doc).
        (sample_json.is_member w k ≡ returns true)
        × ((j : String)
            → (j == k) ≡ false
            → sample_json.is_member w j ≡ sample_json.is_member (object ms) j))
      same (is_some-find_put k x ms, λ j h. rw (find_put_other k j x ms h) refl)
set_member-readable null k x v' o e =
    let same : object (member k x end) ≡ v' = ground arith in
    subst
      (λ (w : Doc).
        (sample_json.is_member w k ≡ returns true)
        × ((j : String) → (j == k) ≡ false → sample_json.is_member w j ≡ returns false))
      same (rw (find_single k x) refl, λ j h. rw (find_not_single k j x h) refl)
set_member-readable (boolean b) k x v' o e = absurd (ground arith)
set_member-readable (text b) k x v' o e = absurd (ground arith)
set_member-readable (number b) k x v' o e = absurd (ground arith)
set_member-readable (array b) k x v' o e = absurd (ground arith)

empty-sample :
    (v : Doc)
    → sample_json.is_array v ≡ true
    → sample_json.empty v ≡ nat_beq (length (sample_json.elements v)) 0
unfolding docs_list
empty-sample (array nil) h = refl
empty-sample (array (cons d ds)) h = ground (arith, nat_beq_iff (length (docs_list (cons d ds))) 0)
empty-sample null h = cc
empty-sample (object ms) h = cc
empty-sample (boolean b) h = cc
empty-sample (text t) h = cc
empty-sample (number n) h = cc

pub sample-IsReadable : IsReadable sample_json
sample-IsReadable = record {
  is_member-set_member = set_member-readable;
  as_string-of_string = λ s. refl;
  as_bool-of_bool = λ b. refl;
  empty-elements = empty-sample;
}
