-- ===== src/Mapper/Unbinding.antt =====
-- A listed binding can be taken out by what the list says of it.
use pointer_force.Prelude.{
  ℕ, String, ◌≡◌, refl, ap, subst, ◌∙◌, inl, inr, true, false, ◌&&◌, none, [], ◌∷◌, arith,
  if◌then◌else◌, ◌==◌, In, All, ℤ, is_negative, string_eq, int_eq, nat_eq,
}
use pointer_force.Assoc.{Assoc}
use pointer_force.Assoc.Values.{In-AllValues}
use pointer_force.Keys.{name_to_code}
use pointer_force.Keys.Named.{IsNamed, name_to_code-code_to_name}
use pointer_force.Mapper.{Table, BindingEntry, all_bindings, remove_binding}
use pointer_force.Mapper.View.{view}
use pointer_force.Mapper.WellFormed.{IsWellFormed}
use pointer_force.Mapper.Named.{IsKnown, BindsKnown}
use pointer_force.Mapper.Listing.{listed, In-all_bindings}
use pointer_force.Mapper.Edits.{view-remove_binding, remove_binding-result}

module _ (input_code : String → ℕ) where
  In-IsKnown :
      (c : ℤ) (cmd : String) (sub : Assoc ℤ String)
      → All (IsKnown input_code) sub
      → In (c, cmd) sub
      → IsNamed input_code c
  In-IsKnown c cmd [] a i = absurd i
  In-IsKnown c cmd ((k, x) ∷ sub) a (inl e) = subst (IsNamed input_code) (ground arith) a.0
  In-IsKnown c cmd ((k, x) ∷ sub) a (inr i) = In-IsKnown c cmd sub a.1 i

  IsNamed-known : (c : ℤ) → IsNamed input_code c → is_negative c ≡ false
  IsNamed-known c (name, (i, e)) = rw (← e) refl

  -- The name that the list gives for a key translates back to the key.
  listed-name_to_code :
      (t : Table) (b : BindingEntry)
      → BindsKnown input_code t
      → In b (all_bindings input_code t)
      → (name_to_code input_code b.key_name ≡ b.keycode) × (is_negative b.keycode ≡ false)
  listed-name_to_code t b a h =
      let (sub, i, (_, j, e)) = listed input_code t b h in
      let named =
        In-IsKnown b.keycode b.command sub
          (In-AllValues (All (IsKnown input_code)) b.device_id sub t a i) j in
      (
        ap (name_to_code input_code) e ∙ name_to_code-code_to_name input_code b.keycode named,
        IsNamed-known b.keycode named,
      )

  -- remove_binding of a listed device and key name takes out that binding and no other.
  pub listed-remove_binding :
      (t : Table) (b : BindingEntry) (d : String) (c : ℤ)
      → IsWellFormed t
      → BindsKnown input_code t
      → In b (all_bindings input_code t)
      → ((remove_binding input_code t b.device_id b.key_name).1 ≡ true)
        × (view (remove_binding input_code t b.device_id b.key_name).0 d c
            ≡ (if b.device_id == d && b.keycode == c then none else view t d c))
  listed-remove_binding t b d c w a h =
      let (back, known) = listed-name_to_code t b a h in
      let (held, _) = (In-all_bindings input_code t b w).0 h in
      let nonneg : is_negative (name_to_code input_code b.key_name) ≡ false = rw back known in
      (
        (remove_binding-result input_code t b.device_id b.key_name nonneg).1
            (rw (back, held) (λ e. cc)),
        view-remove_binding input_code t b.device_id b.key_name d c nonneg ∙ rw back refl,
      )
