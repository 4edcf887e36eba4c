-- ===== src/Mapper/Edits.antt =====
-- Bindings that are added and removed at run time.
use pointer_force.Prelude.{
  ℕ, String, ◌≡◌, ◌≢◌, ◌↔◌, inl, inr, true, false, ◌&&◌, none, some, arith, eq_iff, if◌then◌else◌,
  ◌==◌, Option-cases, ℤ, is_negative, int_beq_iff, string_eq, int_eq, nat_eq,
}
use pointer_force.Assoc.{find, assign, erase, find-assign, find-erase}
use pointer_force.Keys.{name_to_code}
use pointer_force.Mapper.{Table, sub_table, lookup_in, lookup, add_binding, remove_binding}
use pointer_force.Mapper.View.{view, view-assign, view-sub_table, or_else, lookup-eq-view}

module _ (input_code : String → ℕ) where
  pub view-add_binding :
      (t : Table) (d k cmd d' : String) (c : ℤ)
      → is_negative (name_to_code input_code k) ≡ false
      → view (add_binding input_code t d k cmd).0 d' c
        ≡ (if d == d' && name_to_code input_code k == c then some cmd else view t d' c)
  unfolding add_binding
  view-add_binding t d k cmd d' c known =
      let code = name_to_code input_code k in
      ground (
        arith,
        eq_iff d d',
        int_beq_iff code c,
        view-assign d d' c (assign code cmd (sub_table d t)) t,
        find-assign code c cmd (sub_table d t),
        view-sub_table d c t,
      )

  pub view-remove_binding :
      (t : Table) (d k d' : String) (c : ℤ)
      → is_negative (name_to_code input_code k) ≡ false
      → view (remove_binding input_code t d k).0 d' c
        ≡ (if d == d' && name_to_code input_code k == c then none else view t d' c)
  unfolding remove_binding view lookup_in
  view-remove_binding t d k d' c known = elim (Option-cases (find d t)) [
    | inl e ↦ ground (arith, e, eq_iff d d')
    | inr (sub, e) ↦ ground (
      arith,
      e,
      eq_iff d d',
      find-assign d d' (erase (name_to_code input_code k) sub) t,
      find-erase (name_to_code input_code k) c sub,
    )
  ]

  -- The new command is what the device's key runs; a wildcard binding runs on each device that
  -- has no command of its own for the key; every other lookup is as before.
  pub lookup-add_binding :
      (t : Table) (d k cmd d' : String) (c : ℤ)
      → is_negative (name_to_code input_code k) ≡ false
      → lookup (add_binding input_code t d k cmd).0 d' c ≡ (
          if name_to_code input_code k == c
          then (if d == d'
              then some cmd
              else if d == "*"
              then or_else (view t d' c) (some cmd)
              else lookup t d' c)
          else lookup t d' c)
  lookup-add_binding t d k cmd d' c known = ground (
    arith,
    lookup-eq-view (add_binding input_code t d k cmd).0 d' c,
    lookup-eq-view t d' c,
    view-add_binding t d k cmd d' c known,
    view-add_binding t d k cmd "*" c known,
  )

  -- A binding is removed, and reported so, exactly if it is there.
  pub remove_binding-result :
      (t : Table) (d k : String)
      → is_negative (name_to_code input_code k) ≡ false
      → ((remove_binding input_code t d k).1 ≡ true) ↔ (view t d (name_to_code input_code k) ≢ none)
  unfolding remove_binding view lookup_in
  remove_binding-result t d k known = ground arith

  -- A removed key falls back to the wildcard's command, and every other lookup of that device, and
  -- every lookup of another device that removing a wildcard binding does not touch, is as before.
  lookup-remove_binding :
      (t : Table) (d k d' : String) (c : ℤ)
      → is_negative (name_to_code input_code k) ≡ false
      → lookup (remove_binding input_code t d k).0 d' c ≡ (
          if name_to_code input_code k == c
          then or_else
              (if d == d' then none else view t d' c)
              (if d == "*" then none else view t "*" c)
          else lookup t d' c)
  lookup-remove_binding t d k d' c known = ground (
    arith,
    lookup-eq-view (remove_binding input_code t d k).0 d' c,
    lookup-eq-view t d' c,
    view-remove_binding t d k d' c known,
    view-remove_binding t d k "*" c known,
  )
