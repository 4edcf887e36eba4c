-- ===== src/System/Unbinding.antt =====
-- What the server lists can be unbound.
use pointer_force.Prelude.{
  ℕ, String, ◌≡◌, ap, ◌∙◌, true, ◌&&◌, none, if◌then◌else◌, ◌==◌, In, returns, ℤ, pos, string_eq,
  int_eq, nat_eq,
}
use pointer_force.Common.{Config}
use pointer_force.Json.{Json, IsBuilding}
use pointer_force.Mapper.{Table, BindingEntry, all_bindings}
use pointer_force.Mapper.View.{view}
use pointer_force.Mapper.Unbinding.{listed-remove_binding}
use pointer_force.Config.Loaded.{IsLeft}
use pointer_force.Control.{replied, unbind}
use pointer_force.Control.Requests.{HasText, unbind_edits}
use pointer_force.System.{State, Reach}
use pointer_force.System.Reached.{Reach-IsSound}

module _ (J : Json) (building : IsBuilding J) (input_code : String → ℕ) where
  open J use {Value, write, at, of_bool}

  -- In every state that the daemon reaches, an unbind request with the device and the key name of
  -- a binding that the server lists is answered with ok, and takes out that binding and no other.
  pub listed_unbinds :
      (path : String) (config : Config) (s : State) (b : BindingEntry) (req : Value)
      → IsLeft J input_code path config
      → Reach J input_code config s
      → In b (all_bindings input_code s.shared.table)
      → HasText J req "device" b.device_id
      → HasText J req "key" b.key_name
      → (v : Value) × (table : Table) × (unbind J input_code req s.shared
          ≡ returns (replied (record s.shared { table = table }) (write v)))
        × (at v "ok" ≡ returns (of_bool true))
        × ((d : String) (c : ℤ)
            → view table d c
              ≡ (if b.device_id == d && b.keycode == c then none else view s.shared.table d c))
  listed_unbinds path config s b req l r i d k =
      let sound = Reach-IsSound J input_code path config s l r in
      let (v, e, said) =
        unbind_edits J building input_code req s.shared b.device_id b.key_name d k in
      let taken = λ (d : String) (c : ℤ).
        listed-remove_binding input_code s.shared.table b d c sound.well_formed sound.named i in
      (v, _, e, said ∙ ap (λ ok. returns (of_bool ok)) (taken "" (pos 0)).0, λ d c. (taken d c).1)
