-- ===== src/Control/Requests.antt =====
-- What the requests do: edits reach the table that the multiplexer looks keys up in.
use pointer_force.Prelude.{
  ℕ, String, ◌≡◌, ap, ◌∙◌, Bool, true, false, none, some, List, arith, eq_refl, nat_beq_iff,
  is_empty, In, returns, is_negative, int_beq_iff, string_eq, int_eq, nat_eq,
}
use pointer_force.Common.{InputEvent, key_press}
use pointer_force.Json.{Json, IsBuilding}
use pointer_force.Assoc.{find, find-erase}
use pointer_force.Keys.{name_to_code}
use pointer_force.Mapper.{Table, lookup, add_binding, remove_binding}
use pointer_force.Mapper.Edits.{lookup-add_binding}
use pointer_force.Multiplexer.{
  Shared, Observer, Outside, outside_steps, add_observer, remove_observer, executed, handle_event,
}
use pointer_force.Multiplexer.Observers.{
  IsOrdered, add_observer_fresh, outside_steps-IsOrdered, remove_observer-IsOrdered,
}
use pointer_force.Multiplexer.Round.{In-handle_event}
use pointer_force.Control.{Turn, replied, text_at, has_all, bind, unbind, events}
use pointer_force.Control.Replies.{ok_or-Returns}

module _ (J : Json) where
  open J use {Value, is_member, at, as_string}

  -- The request has the member, and it converts to the text.
  abbrev pub HasText : Value → String → String → Type 0
  HasText req k text = (is_member req k ≡ returns true) × (text_at J req k ≡ returns text)

module _ (J : Json) (building : IsBuilding J) (input_code : String → ℕ) where
  open J use {Value, write, at, of_bool}

  abbrev Says : Turn → Shared → Bool → Type 0
  Says turn s ok = (v : Value) × (turn ≡ replied s (write v)) × (at v "ok" ≡ returns (of_bool ok))

  -- A bind request edits the table by add_binding, and its reply says whether the key is known.
  pub bind_edits :
      (req : Value) (s : Shared) (device key command : String)
      → HasText J req "device" device
      → HasText J req "key" key
      → HasText J req "command" command
      → let (table, ok) = add_binding input_code s.table device key command in
        (v : Value) × (bind J input_code req s
          ≡ returns (replied (record s { table = table }) (write v)))
        × (at v "ok" ≡ returns (of_bool ok))
  unfolding bind has_all
  bind_edits req s device key command d k c =
      let (v, e, said, _) =
        ok_or-Returns J building (add_binding input_code s.table device key command).1
          "Unknown key name" in
      (v, ground (arith, d, k, c, e), said)

  -- An unbind request edits the table by remove_binding, and its reply says whether a binding was
  -- taken out.
  pub unbind_edits :
      (req : Value) (s : Shared) (device key : String)
      → HasText J req "device" device
      → HasText J req "key" key
      → let (table, ok) = remove_binding input_code s.table device key in
        (v : Value) × (unbind J input_code req s
          ≡ returns (replied (record s { table = table }) (write v)))
        × (at v "ok" ≡ returns (of_bool ok))
  unfolding unbind has_all
  unbind_edits req s device key d k =
      let (v, e, said, _) =
        ok_or-Returns J building (remove_binding input_code s.table device key).1
          "Binding not found" in
      (v, ground (arith, d, k, e), said)

  bound_lookup :
      (t : Table) (device key command : String)
      → is_negative (name_to_code input_code key) ≡ false
      → lookup (add_binding input_code t device key command).0 device (name_to_code input_code key)
        ≡ some command
  bound_lookup t device key command known =
      let code = name_to_code input_code key in
      lookup-add_binding input_code t device key command device code known
      ∙ ground (arith, int_beq_iff code code, eq_refl device)

  known_is_bound :
      (t : Table) (device key command : String)
      → is_negative (name_to_code input_code key) ≡ false
      → (add_binding input_code t device key command).1 ≡ true
  unfolding add_binding
  known_is_bound t device key command known = ground arith

  -- A bind request of a known key to a command that is not empty is answered with ok, and the next
  -- press of that key on that device, as the multiplexer handles it on the table left behind, runs
  -- the command.
  pub bind_takes_effect :
      (req : Value) (s : Shared) (device key command : String) (ev : InputEvent)
      → HasText J req "device" device
      → HasText J req "key" key
      → HasText J req "command" command
      → is_negative (name_to_code input_code key) ≡ false
      → is_empty command ≡ false
      → ev.device_id ≡ device
      → ev.code ≡ name_to_code input_code key
      → ev.value ≡ key_press
      → (v : Value) × (s' : Shared) × (bind J input_code req s ≡ returns (replied s' (write v)))
        × (at v "ok" ≡ returns (of_bool true))
        × In (executed command) (handle_event s'.table s'.observers ev)
  bind_takes_effect req s device key command ev d k c known full from pressed press =
      let (v, e, said) = bind_edits req s device key command d k c in
      let found : lookup (add_binding input_code s.table device key command).0 ev.device_id ev.code
          ≡ some command =
        rw (from, pressed) (bound_lookup s.table device key command known) in
      (
        v,
        _,
        e,
        said ∙ ap (λ b. returns (of_bool b)) (known_is_bound s.table device key command known),
        (In-handle_event _ s.observers ev command).1 (press, found, full),
      )

-- However the other threads act while a client streams events, its observer is taken out at the
-- end, under an id that no observer had before, and the ids of the others stay in order.
events_unsubscribes :
    (client : Observer) (meanwhile : List Outside) (s : Shared)
    → IsOrdered s
    → (find (add_observer client s).0 s.observers ≡ none)
      × (find (add_observer client s).0 (events client meanwhile s).state.observers ≡ none)
      × IsOrdered (events client meanwhile s).state
unfolding events remove_observer
events_unsubscribes client meanwhile s r =
    let (fresh, _, ordered) = add_observer_fresh s client 0 r in
    let obs_id = (add_observer client s).0 in
    let after = outside_steps meanwhile (add_observer client s).1 in
    (
      fresh,
      find-erase obs_id obs_id after.observers ∙ ground (arith, nat_beq_iff obs_id obs_id),
      remove_observer-IsOrdered obs_id after
          (outside_steps-IsOrdered meanwhile (add_observer client s).1 ordered),
    )
