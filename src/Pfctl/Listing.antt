-- ===== src/Pfctl/Listing.antt =====
-- What `pfctl bindings` prints of the bindings that the server lists.
use pointer_force.Prelude.{
  Selects, ends_here, takes, leaves, Bool-cases, is_empty, eq_iff, ◌==◌, suc, String, ◌≡◌, refl,
  sym, ap, ◌∙◌, ◌⊎◌, inl, inr, true, false, List, [], ◌∷◌, ◌++◌, map, append_assoc, append-nil,
  arith, nat_beq, nat_beq_iff, if◌then◌else◌, length, returns, string_eq, int_eq, nat_eq,
}
use pointer_force.Json.{Json, IsBuilding, IsReadable}
use pointer_force.Mapper.{BindingEntry}
use pointer_force.Control.{
  set_members, ok_response, text_at, append_all, binding_row, keep, bindings,
}
use pointer_force.Control.Requests.{HasText}
use pointer_force.Pfctl.Printing.{
  Piece, text, print_all, binding_line, binding_text, print_bindings,
}

abbrev pub entry_piece : BindingEntry → Piece
entry_piece b = text (binding_line b.device_id b.key_name b.command)

-- One line for each binding, or that there is none.
abbrev pub listing : List BindingEntry → List Piece
listing [] = text "(no bindings)\n" ∷ []
listing (b ∷ bs) = entry_piece b ∷ map entry_piece bs

-- The filter asks for the binding: there is none, or it names the device.
abbrev pub Wants : String → BindingEntry → Type 0
Wants filter b = (filter ≡ "") ⊎ (b.device_id ≡ filter)

module _ (J : Json) (building : IsBuilding J) (readable : IsReadable J) where
  open J use {
    Value, write, is_member, at, set_member, empty, is_array, as_string, elements, append,
    null_value, array_value, of_string, of_int, of_bool,
  }

  row_printed :
      (b : BindingEntry)
      → (r : Value) × (binding_row J b ≡ returns r)
        × (binding_text J r ≡ returns (binding_line b.device_id b.key_name b.command))
  unfolding binding_row set_members binding_text text_at
  row_printed b =
      let (r1, e1, o1, s1, k1) =
        building.set_member-Returns null_value "device" (of_string b.device_id) (inr refl) in
      let (r2, e2, o2, s2, k2) =
        building.set_member-Returns r1 "key" (of_string b.key_name) (inl o1) in
      let (r3, e3, o3, s3, k3) =
        building.set_member-Returns r2 "code" (of_int b.keycode) (inl o2) in
      let (r4, e4, o4, s4, k4) =
        building.set_member-Returns r3 "command" (of_string b.command) (inl o3) in
      let device : at r4 "device" ≡ returns (of_string b.device_id) =
        k4 "device" refl ∙ k3 "device" refl ∙ k2 "device" refl ∙ s1 in
      let key : at r4 "key" ≡ returns (of_string b.key_name) = k4 "key" refl ∙ k3 "key" refl ∙ s2 in
      (
        r4,
        rw (e1, e2, e3, e4) refl,
        rw
            (
              device,
              key,
              s4,
              readable.as_string-of_string b.device_id,
              readable.as_string-of_string b.key_name,
              readable.as_string-of_string b.command,
            )
            refl,
      )

  -- The rows that were appended, which print as the entries.
  abbrev AppendsRows : List BindingEntry → Value → Value → Type 0
  AppendsRows bs arr v =
      (rs : List Value) × (elements v ≡ elements arr ++ rs)
      × (length rs ≡ length bs)
      × (print_all J (binding_text J) rs ≡ returns (map entry_piece bs))

  append_rows :
      (bs : List BindingEntry) (arr : Value)
      → is_array arr ≡ true
      → (v : Value) × (append_all J (map (binding_row J) bs) arr ≡ returns v)
        × (is_array v ≡ true)
        × AppendsRows bs arr v
  unfolding append_all print_all
  append_rows [] arr a = (arr, refl, a, ([], sym (append-nil (elements arr)), refl, refl))
  append_rows (b ∷ bs) arr a =
      let (r, e, printed) = row_printed b in
      let (w, f, c, more) = building.append-Returns arr r a in
      let (v, g, d, (rs, added, n, all)) = append_rows bs w c in
      (
        v,
        rw (e, f, g) refl,
        d,
        (
          r ∷ rs,
          added ∙ ap (λ l. l ++ rs) more ∙ append_assoc (elements arr) (r ∷ []) rs,
          ap suc n,
          rw (printed, all) refl,
        ),
      )

  printed_rows :
      (bs : List BindingEntry) (rs : List Value) (arr : Value)
      → elements arr ≡ rs
      → length rs ≡ length bs
      → print_all J (binding_text J) rs ≡ returns (map entry_piece bs)
      → empty arr ≡ nat_beq (length (elements arr)) 0
      → (if empty arr
          then returns (text "(no bindings)\n" ∷ [])
          else print_all J (binding_text J) (elements arr))
        ≡ returns (listing bs)
  printed_rows [] rs arr same n all h = ground (arith, same, n, all, h, nat_beq_iff (length rs) 0)
  printed_rows (b ∷ bs) rs arr same n all h =
      ground (arith, same, n, all, h, nat_beq_iff (length rs) 0)

  listed_rows :
      (bs : List BindingEntry) (v arr : Value)
      → at v "bindings" ≡ returns arr
      → is_array arr ≡ true
      → AppendsRows bs array_value arr
      → print_bindings J v ≡ returns (listing bs)
  unfolding print_bindings print_all
  listed_rows bs v arr there a (rs, added, n, all) =
      let same : elements arr ≡ rs = added ∙ ap (λ l. l ++ rs) building.array_value-Empty.1 in
      rw there (printed_rows bs rs arr same n all (readable.empty-elements arr a))

  abbrev IsFilter : Value → String → Type 0
  IsFilter req filter =
      ((is_member req "device" ≡ returns false) × (filter ≡ "")) ⊎ HasText J req "device" filter

  unwanted :
      (filter : String) (b : BindingEntry)
      → is_empty filter ≡ false
      → (b.device_id == filter) ≡ false
      → ¬ Wants filter b
  unwanted filter b e f (inl none_given) = absurd (ground (arith, e, eq_iff filter "", none_given))
  unwanted filter b e f (inr named) = absurd (ground (arith, f, eq_iff b.device_id filter, named))

  keep-Selects :
      (filter : String) (bs : List BindingEntry) → Selects (Wants filter) bs (keep J filter bs)
  unfolding keep
  keep-Selects filter [] = ends_here
  keep-Selects filter (b ∷ bs) =
      let rest = keep-Selects filter bs in
      elim (Bool-cases (is_empty filter)) [
        | inl e ↦ rw e (takes (inl ((eq_iff filter "").0 e)) rest)
        | inr e ↦ elim (Bool-cases (b.device_id == filter)) [
          | inl f ↦ rw (e, f) (takes (inr ((eq_iff b.device_id filter).0 f)) rest)
          | inr f ↦ rw (e, f) (leaves (λ w. unwanted filter b e f w) rest)
        ]
      ]

  -- The reply to a bindings request prints as one line for each listed binding that the filter asks
  -- for, all those without a filter and else those of the device that it names, each once and in
  -- order, or as the remark that there is none.
  pub bindings_printed :
      (req : Value) (filter : String) (entries : List BindingEntry)
      → IsFilter req filter
      → (v : Value) × (shown : List BindingEntry) × (bindings J req entries ≡ returns (write v))
        × Selects (Wants filter) entries shown
        × (print_bindings J v ≡ returns (listing shown))
  unfolding bindings set_members ok_response
  bindings_printed req filter entries wanted =
      let kept = keep J filter entries in
      let (arr, e, a, rows) = append_rows kept array_value building.array_value-Empty.0 in
      let (w, f, o, s, _) = building.set_member-Returns null_value "bindings" arr (inr refl) in
      let (v, g, _, _, others) = building.set_member-Returns w "ok" (of_bool true) (inl o) in
      (
        v,
        kept,
        ground (arith, wanted, e, f, g),
        keep-Selects filter entries,
        listed_rows kept v arr (others "bindings" refl ∙ s) a rows,
      )
