-- ===== src/Mapper/Listing.antt =====
-- The list of all bindings against the table.
use pointer_force.Prelude.{
  ℕ, String, ◌≡◌, refl, ap, subst, ◌↔◌, inl, inr, some, [], ◌∷◌, arith, Option-cases, In,
  In-append_left, In-append_right, In-append, ℤ, string_eq, int_eq, nat_eq,
}
use pointer_force.Assoc.{Assoc, find}
use pointer_force.Assoc.Keys.{In-find, find-In}
use pointer_force.Assoc.Values.{In-AllValues}
use pointer_force.Keys.{code_to_name}
use pointer_force.Mapper.{Table, lookup_in, BindingEntry, device_bindings, all_bindings}
use pointer_force.Mapper.View.{view}
use pointer_force.Mapper.WellFormed.{IsWellFormed, SubIsUnique}

module _ (input_code : String → ℕ) where
  -- `b` is the entry of a pair of some device's bindings.
  abbrev IsEntryOf : BindingEntry → String → Assoc ℤ String → Type 0
  IsEntryOf b d sub =
      (b.device_id ≡ d)
      × In (b.keycode, b.command) sub
      × (b.key_name ≡ code_to_name input_code b.keycode)

  In-device_bindings :
      (b : BindingEntry) (d : String) (sub : Assoc ℤ String)
      → In b (device_bindings input_code d sub)
      → IsEntryOf b d sub
  unfolding device_bindings
  In-device_bindings b d [] h = elim h [ ]
  In-device_bindings b d ((c, cmd) ∷ sub) (inl e) = ground arith
  In-device_bindings b d ((c, cmd) ∷ sub) (inr h) =
      let (p, q, r) = In-device_bindings b d sub h in (p, inr q, r)

  device_bindings-In :
      (b : BindingEntry) (d : String) (sub : Assoc ℤ String)
      → IsEntryOf b d sub
      → In b (device_bindings input_code d sub)
  unfolding device_bindings
  device_bindings-In b d [] (p, q, r) = elim q [ ]
  device_bindings-In b d ((c, cmd) ∷ sub) (p, inl e, r) = inl (ground arith)
  device_bindings-In b d ((c, cmd) ∷ sub) (p, inr q, r) = inr (device_bindings-In b d sub (p, q, r))

  pub listed :
      (t : Table) (b : BindingEntry)
      → In b (all_bindings input_code t)
      → (sub : Assoc ℤ String) × In (b.device_id, sub) t × IsEntryOf b b.device_id sub
  unfolding all_bindings
  listed [] b h = elim h [ ]
  listed ((d, sub) ∷ t) b h = elim (In-append b (device_bindings input_code d sub) _ h) [
    | inl l ↦
        let (p, q, r) = In-device_bindings b d sub l in (sub, inl (ground arith), (refl, q, r))
    | inr l ↦ let (s, i, e) = listed t b l in (s, inr i, e)
  ]

  list_entry :
      (t : Table) (b : BindingEntry) (sub : Assoc ℤ String)
      → In (b.device_id, sub) t
      → IsEntryOf b b.device_id sub
      → In b (all_bindings input_code t)
  unfolding all_bindings
  list_entry [] b sub i e = elim i [ ]
  list_entry ((d, s) ∷ t) b sub (inl i) e = In-append_left b _ _ (
      device_bindings-In b d s (
        ap (λ (p : String × Assoc ℤ String). p.0) i,
        subst (λ (m : Assoc ℤ String). In (b.keycode, b.command) m)
            (ap (λ (p : String × Assoc ℤ String). p.1) i) e.1,
        e.2,
      ))
  list_entry ((d, s) ∷ t) b sub (inr i) e = In-append_right b _ _ (list_entry t b sub i e)

  view_listed :
      (t : Table) (b : BindingEntry)
      → IsWellFormed t
      → In b (all_bindings input_code t)
      → view t b.device_id b.keycode ≡ some b.command
  unfolding view lookup_in
  view_listed t b w h =
      let (sub, i, e) = listed t b h in
      rw (In-find b.device_id sub t w.devices_unique i, lookup_in)
        (In-find b.keycode b.command sub
          (In-AllValues SubIsUnique b.device_id sub t w.keys_unique i) e.1)

  viewed :
      (t : Table) (d : String) (c : ℤ) (cmd : String)
      → view t d c ≡ some cmd
      → (sub : Assoc ℤ String) × (find d t ≡ some sub) × (find c sub ≡ some cmd)
  unfolding view lookup_in
  viewed t d c cmd h = elim (Option-cases (find d t)) [
    | inl n ↦ absurd (ground arith)
    | inr (sub, e) ↦ (sub, e, ground arith)
  ]

  -- A listed binding is one that the table holds, with the name of its code; and each that the
  -- table holds is listed.
  pub In-all_bindings :
      (t : Table) (b : BindingEntry)
      → IsWellFormed t
      → In b (all_bindings input_code t) ↔ (
          (view t b.device_id b.keycode ≡ some b.command)
          × (b.key_name ≡ code_to_name input_code b.keycode))
  In-all_bindings t b w = (
    λ h. (view_listed t b w h, (listed t b h).2.2),
    λ p.
        let (sub, f, g) = viewed t b.device_id b.keycode b.command p.0 in
        list_entry t b sub (find-In b.device_id sub t f)
          (refl, find-In b.keycode b.command sub g, p.1),
  )
