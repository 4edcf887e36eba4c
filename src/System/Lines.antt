-- ===== src/System/Lines.antt =====
-- A line of a client keeps the state consistent, whatever it says.
use pointer_force.Prelude.{
  ℕ, String, inl, inr, Option, List, [], ◌∷◌, arith, nat_beq_iff, ◌==◌, Option-cases, Outcome,
  returns, Ensures, Ensures-returns, Ensures-if, Ensures-bind, ◌>>=◌, string_eq, int_eq, nat_eq,
}
use pointer_force.Assoc.{Assoc, find-erase}
use pointer_force.Json.{Json, Bytes}
use pointer_force.Mapper.{add_binding, remove_binding}
use pointer_force.Mapper.WellFormed.{add_binding-IsWellFormed, remove_binding-IsWellFormed}
use pointer_force.Mapper.Named.{add_binding-BindsKnown, remove_binding-BindsKnown}
use pointer_force.Config.{load}
use pointer_force.DeviceManager.{DeviceInfo}
use pointer_force.Multiplexer.{Shared, Observer, outside_steps, add_observer, remove_observer}
use pointer_force.Multiplexer.Observers.{add_observer_fresh, remove_observer-IsOrdered}
use pointer_force.Control.{
  Turn, replied, bind, unbind, events, reload, has_all, text_at, ok_or, err_response, dispatch,
  handle_line,
}
use pointer_force.System.Consistent.{
  IsConsistent, with_table, reload_result-IsConsistent, load_again-IsLeft,
}

module _ (J : Json) (input_code : String → ℕ) (path : String) (streams : Assoc ℕ Observer) where
  open J use {Value, parse, is_member}

  abbrev Keeps : Outcome Turn → Type 0
  Keeps m = Ensures (λ (turn : Turn). IsConsistent J input_code path streams turn.state) m

  reply-Keeps :
      (m : Outcome Bytes) (s : Shared)
      → IsConsistent J input_code path streams s
      → Keeps (do reply ← m; returns (replied s reply))
  reply-Keeps m s c = Ensures-bind m _ λ reply _. Ensures-returns _ c

  bind-Keeps :
      (req : Value) (s : Shared)
      → IsConsistent J input_code path streams s
      → Keeps (bind J input_code req s)
  unfolding bind
  bind-Keeps req s c =
      Ensures-bind (has_all J ("device" ∷ "key" ∷ "command" ∷ []) req) _ λ complete _.
        Ensures-if complete _ _
          (λ _. Ensures-bind (text_at J req "device") _ λ device _.
            Ensures-bind (text_at J req "key") _ λ key _.
              Ensures-bind (text_at J req "command") _ λ command _.
                let (table, ok) = add_binding input_code s.table device key command in
                reply-Keeps (ok_or J ok "Unknown key name") (record s { table = table })
                  (with_table J input_code path streams table s
                    (add_binding-IsWellFormed input_code s.table device key command c.well_formed)
                    (add_binding-BindsKnown input_code s.table device key command c.named) c))
          (λ _. reply-Keeps (err_response J "bind requires fields: device, key, command") s c)

  unbind-Keeps :
      (req : Value) (s : Shared)
      → IsConsistent J input_code path streams s
      → Keeps (unbind J input_code req s)
  unfolding unbind
  unbind-Keeps req s c = Ensures-bind (has_all J ("device" ∷ "key" ∷ []) req) _ λ complete _.
      Ensures-if complete _ _
        (λ _. Ensures-bind (text_at J req "device") _ λ device _.
          Ensures-bind (text_at J req "key") _ λ key _.
            let (table, ok) = remove_binding input_code s.table device key in
            reply-Keeps (ok_or J ok "Binding not found") (record s { table = table })
              (with_table J input_code path streams table s
                (remove_binding-IsWellFormed input_code s.table device key c.well_formed)
                (remove_binding-BindsKnown input_code s.table device key c.named) c))
        (λ _. reply-Keeps (err_response J "unbind requires fields: device, key") s c)

  -- A stream that ends at once leaves the observers as they were.
  events-IsConsistent :
      (client : Observer) (s : Shared)
      → IsConsistent J input_code path streams s
      → IsConsistent J input_code path streams (events client [] s).state
  unfolding events outside_steps remove_observer add_observer
  events-IsConsistent client s c =
      let (fresh, _, ordered) = add_observer_fresh s client 0 c.ordered in
      let obs_id = (add_observer client s).0 in
      record {
        well_formed = c.well_formed;
        named = c.named;
        left = c.left;
        ordered = remove_observer-IsOrdered obs_id (add_observer client s).1 ordered;
        listening = λ k. ground (
          arith,
          find-erase obs_id k (add_observer client s).1.observers,
          (add_observer_fresh s client k c.ordered).1,
          fresh,
          nat_beq_iff obs_id k,
          c.listening k,
        );
      }

  module _ (files : String → Option Bytes) where
    reload-Keeps :
        (s : Shared)
        → IsConsistent J input_code path streams s
        → Keeps (reload J input_code files s)
    unfolding reload
    reload-Keeps s c = Ensures-bind (load J input_code files s.config.config_path s.config) _ λ r e.
        reply-Keeps (ok_or J r.0 "Config reload failed – see log") _ (
          reload_result-IsConsistent J input_code path streams files s r
            ((load_again-IsLeft J input_code path streams files s.config c.left).at_return r e) c)

    module _ (info : List DeviceInfo) (client : Observer) where
      dispatch-Keeps :
          (cmd : String) (req : Value) (s : Shared)
          → IsConsistent J input_code path streams s
          → Keeps (dispatch J input_code files info client [] cmd req s)
      unfolding dispatch
      dispatch-Keeps cmd req s c =
          Ensures-if (cmd == "status") _ _ (λ _. reply-Keeps _ s c)
            λ _.
              Ensures-if (cmd == "devices") _ _ (λ _. reply-Keeps _ s c)
                λ _.
                  Ensures-if (cmd == "bindings") _ _ (λ _. reply-Keeps _ s c)
                    λ _.
                      Ensures-if (cmd == "bind") _ _ (λ _. bind-Keeps req s c)
                        λ _.
                          Ensures-if (cmd == "unbind") _ _ (λ _. unbind-Keeps req s c)
                            λ _.
                              Ensures-if (cmd == "events") _ _
                                (λ _. Ensures-returns _ (events-IsConsistent client s c))
                                λ _.
                                  Ensures-if (cmd == "reload") _ _ (λ _. reload-Keeps s c)
                                    λ _. reply-Keeps _ s c

      pub handle_line-Keeps :
          (line : Bytes) (s : Shared)
          → IsConsistent J input_code path streams s
          → Keeps (handle_line J input_code files info client [] line s)
      unfolding handle_line
      handle_line-Keeps line s c = elim (Option-cases (parse line)) [
        | inl e ↦
            rw (e, handle_line)
              (Ensures-if (J.gives_up line) _ _ (λ _. record { at_return = λ r g. cc })
                (λ _. reply-Keeps _ s c))
        | inr (req, e) ↦
            rw (e, handle_line)
              (Ensures-bind (is_member req "cmd") _ λ there _.
                Ensures-if there _ _
                  (λ _. Ensures-bind (text_at J req "cmd") _ λ cmd _. dispatch-Keeps cmd req s c)
                  (λ _. reply-Keeps _ s c))
      ]
