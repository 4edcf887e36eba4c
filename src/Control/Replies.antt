-- ===== src/Control/Replies.antt =====
-- The documents that the replies hold.
use pointer_force.Prelude.{
  ◌+◌, String, ◌≡◌, refl, ◌∙◌, ◌⊎◌, inl, inr, Bool, true, false, ◌||◌, List, [], ◌∷◌, arith, ◌==◌,
  length, length-append, All, Outcome, returns, Returns, string_eq, int_eq, nat_eq,
}
use pointer_force.Json.{Json, IsBuilding}
use pointer_force.Control.{set_members, ok_response, err_response, ok_or, append_all}

abbrev pub is_assigned : {V : Type 0} → String → List (String × V) → Bool
is_assigned k [] = false
is_assigned k ((j, x) ∷ fields) = k == j || is_assigned k fields

module _ (J : Json) (building : IsBuilding J) where
  open J use {
    Value, write, at, set_member, is_object, is_array, elements, append, null_value, object_value,
    array_value, of_bool, of_string,
  }

  -- Members can be assigned to the value.
  abbrev pub IsAssignable : Value → Type 0
  IsAssignable v = (is_object v ≡ true) ⊎ (v ≡ null_value)

  -- A value that has members can be read, at the other names as before.
  pub set_members-Returns :
      (fields : List (String × Value)) (v : Value)
      → IsAssignable v
      → (v' : Value) × (set_members J fields v ≡ returns v')
        × IsAssignable v'
        × ((j : String) → is_assigned j fields ≡ false → at v' j ≡ at v j)
  unfolding set_members
  set_members-Returns [] v a = (v, refl, a, λ j h. refl)
  set_members-Returns ((k, x) ∷ fields) v a =
      let (w, e, o, _, others) = building.set_member-Returns v k x a in
      let (v', f, a', rest) = set_members-Returns fields w (inl o) in
      (v', rw (e, f), a', λ j h. rest j (ground arith) ∙ others j (ground arith))

  pub ok_response-Returns :
      (payload : Value)
      → IsAssignable payload
      → (v : Value) × (ok_response J payload ≡ returns (write v))
        × (at v "ok" ≡ returns (of_bool true))
        × ((j : String) → (j == "ok") ≡ false → at v j ≡ at payload j)
  unfolding ok_response
  ok_response-Returns payload a =
      let (v, e, _, said, others) = building.set_member-Returns payload "ok" (of_bool true) a in
      (v, rw e, said, others)

  pub err_response-Returns :
      (msg : String)
      → (v : Value) × (err_response J msg ≡ returns (write v))
        × (at v "ok" ≡ returns (of_bool false))
        × (at v "error" ≡ returns (of_string msg))
  unfolding err_response set_members
  err_response-Returns msg =
      let (v, e, o, said, _) =
        building.set_member-Returns null_value "ok" (of_bool false) (inr refl) in
      let (w, f, _, why, others) = building.set_member-Returns v "error" (of_string msg) (inl o) in
      (w, rw (e, f), others "ok" refl ∙ said, why)

  -- A reply says whether the request succeeded, and a refusal says why.
  pub ok_or-Returns :
      (ok : Bool) (msg : String)
      → (v : Value) × (ok_or J ok msg ≡ returns (write v))
        × (at v "ok" ≡ returns (of_bool ok))
        × (ok ≡ false → at v "error" ≡ returns (of_string msg))
  unfolding ok_or
  ok_or-Returns true msg =
      let (v, e, said, _) = ok_response-Returns object_value (inl building.object_value-Object) in
      (v, e, said, λ h. cc)
  ok_or-Returns false msg =
      let (v, e, said, why) = err_response-Returns msg in (v, e, said, λ h. why)

  -- Rows that are all built make an array of that many elements more.
  pub append_all-Returns :
      (rows : List (Outcome Value)) (arr : Value)
      → All Returns rows
      → is_array arr ≡ true
      → (v : Value) × (append_all J rows arr ≡ returns v)
        × (is_array v ≡ true)
        × (length (elements v) ≡ length (elements arr) + length rows)
  unfolding append_all
  append_all-Returns [] arr r a = (arr, refl, a, omega arith)
  append_all-Returns (row ∷ rows) arr r a =
      let (x, e) = r.0 in
      let (v, f, b, more) = building.append-Returns arr x a in
      let (w, g, c, n) = append_all-Returns rows v r.1 b in
      (w, rw (e, f, g), c, ground (arith, n, more, length-append (elements arr) (x ∷ [])))
