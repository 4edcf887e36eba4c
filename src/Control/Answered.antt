-- ===== src/Control/Answered.antt =====
-- Every well-shaped request is answered.
use pointer_force.Prelude.{
  ℕ, String, ◌≡◌, refl, ap, ◌∙◌, ◌≢◌, inl, inr, Bool, true, false, Option, some, List, [], ◌∷◌,
  arith, if◌then◌else◌, ◌==◌, Bool-cases, Option-cases, All, returns, Outcome-cases, Returns,
  Returns-bind, Returns-if, Returns-after, string_eq, int_eq, nat_eq,
}
use pointer_force.Common.{Config}
use pointer_force.Json.{Json, Bytes, IsBuilding, IsTotalOnKinds}
use pointer_force.Mapper.{BindingEntry}
use pointer_force.DeviceManager.{DeviceInfo}
use pointer_force.Multiplexer.{Shared, Observer, Outside}
use pointer_force.Control.{
  text_at, status, device_row, devices, binding_row, keep, bindings, has_all, bind, unbind,
  dispatch, handle_line,
}
use pointer_force.Control.Shaped.{
  IsWellShaped, RepliedBy, is_other, reply-with, after, branch, err-Returns, ok_or-total,
  members-Returns, payload-Returns, text_at-Returns, rows-Returns, array-Returns,
}

module _ (J : Json) (total : IsTotalOnKinds J) (building : IsBuilding J) where
  open J use {
    Value, parse, gives_up, write, is_member, at, is_object, is_array, null_value, object_value,
    array_value,
  }

  module _ (input_code : String → ℕ) where
    bindings-Returns :
        (req : Value) (entries : List BindingEntry)
        → IsWellShaped J req
        → Returns (bindings J req entries)
    unfolding bindings binding_row
    bindings-Returns req entries w =
        let (there, e) = total.is_member-Returns req "device" w.object in
        Returns-after (is_member req "device") _ e (
          Returns-bind (if there then text_at J req "device" else returns "") _
            (Returns-if there _ _
              (λ t. text_at-Returns J total building req "device" w.device (e ∙ ap returns t))
              (λ _. ("", refl)))
            λ filter _. array-Returns J total building "bindings" _ (
              rows-Returns J total building (binding_row J) (keep J filter entries)
                λ b. members-Returns J total building _))

    has_all-known :
        (ks : List String) (req : Value) → is_object req ≡ true → Returns (has_all J ks req)
    unfolding has_all
    has_all-known [] req o = (true, refl)
    has_all-known (k ∷ ks) req o =
        Returns-bind (is_member req k) _ (total.is_member-Returns req k o)
          λ there _. Returns-if there _ _ (λ _. has_all-known ks req o) (λ _. (false, refl))

    has_all-true :
        (ks : List String) (req : Value)
        → has_all J ks req ≡ returns true
        → All (λ k. is_member req k ≡ returns true) ks
    unfolding has_all
    has_all-true [] req h = tt
    has_all-true (k ∷ ks) req h = elim (Outcome-cases (is_member req k)) [
      | inl (there, e) ↦ elim (Bool-cases there) [
        | inl t ↦ (e ∙ ap returns t, has_all-true ks req (rw (e, t) at h))
        | inr n ↦ absurd (ground (arith, e, n))
      ]
      | inr e ↦ absurd (ground (arith, e))
    ]

    bind-answered :
        (req : Value) (s : Shared) → IsWellShaped J req → RepliedBy (bind J input_code req s)
    unfolding bind
    bind-answered req s w =
        let ks : List String = "device" ∷ "key" ∷ "command" ∷ [] in
        let (complete, e) = has_all-known ks req w.object in
        after _ _ e (
          branch complete
            (λ t.
              let all = has_all-true ks req (e ∙ ap returns t) in
              after _ _ (text_at-Returns J total building req "device" w.device all.0).1 (
                after _ _ (text_at-Returns J total building req "key" w.key all.1.0).1 (
                  after _ _ (text_at-Returns J total building req "command" w.command all.1.1.0).1
                    (reply-with _ _ (ok_or-total J total building _ "Unknown key name")))))
            (λ _. reply-with _ s (err-Returns J total building _)))

    unbind-answered :
        (req : Value) (s : Shared) → IsWellShaped J req → RepliedBy (unbind J input_code req s)
    unfolding unbind
    unbind-answered req s w =
        let ks : List String = "device" ∷ "key" ∷ [] in
        let (complete, e) = has_all-known ks req w.object in
        after _ _ e (
          branch complete
            (λ t.
              let all = has_all-true ks req (e ∙ ap returns t) in
              after _ _ (text_at-Returns J total building req "device" w.device all.0).1 (
                after _ _ (text_at-Returns J total building req "key" w.key all.1.0).1
                  (reply-with _ _ (ok_or-total J total building _ "Binding not found"))))
            (λ _. reply-with _ s (err-Returns J total building _)))

    status-Returns :
        (info : List DeviceInfo) (entries : List BindingEntry) (running : Bool) (config : Config)
        → Returns (status J info entries running config)
    unfolding status
    status-Returns info entries running config = payload-Returns J total building _

    devices-Returns : (info : List DeviceInfo) → Returns (devices J info)
    unfolding devices device_row
    devices-Returns info =
        array-Returns J total building "devices" _ (
          rows-Returns J total building (device_row J) info
            λ di. members-Returns J total building _)

    module _ (files : String → Option Bytes) (info : List DeviceInfo) (client : Observer)
        (meanwhile : List Outside) where
      -- A command other than reload and events is answered by one reply.
      dispatch-answered :
          (cmd : String) (req : Value) (s : Shared)
          → IsWellShaped J req
          → (cmd == "reload") ≡ false
          → (cmd == "events") ≡ false
          → RepliedBy (dispatch J input_code files info client meanwhile cmd req s)
      unfolding dispatch
      dispatch-answered cmd req s w r v =
          branch (cmd == "status")
            (λ _. reply-with _ s (status-Returns info _ s.is_running s.config))
            (λ _.
              branch (cmd == "devices") (λ _. reply-with _ s (devices-Returns info))
                (λ _.
                  branch (cmd == "bindings") (λ _. reply-with _ s (bindings-Returns req _ w))
                    (λ _.
                      branch (cmd == "bind") (λ _. bind-answered req s w)
                        (λ _.
                          branch (cmd == "unbind") (λ _. unbind-answered req s w)
                            (λ _.
                              branch (cmd == "events") (λ e. cc)
                                (λ _.
                                  branch (cmd == "reload") (λ e. cc)
                                    (λ _. reply-with _ s (err-Returns J total building _))))))))

      -- A line on which the parser does not throw, and which does not parse or is a well-shaped
      -- object whose command is neither reload nor events, is answered by exactly one reply, and
      -- the connection stays; nothing is thrown.
      pub handle_line-answered :
          (line : Bytes) (s : Shared)
          → gives_up line ≡ false
          → ((req : Value)
              → parse line ≡ some req
              → IsWellShaped J req
                × (text_at J req "cmd" ≢ returns "reload")
                × (text_at J req "cmd" ≢ returns "events"))
          → RepliedBy (handle_line J input_code files info client meanwhile line s)
      unfolding handle_line
      handle_line-answered line s calm h = elim (Option-cases (parse line)) [
        | inl e ↦ rw (e, calm, handle_line) (reply-with _ s (err-Returns J total building _))
        | inr (req, e) ↦
            let (w, r, v) = h req e in
            let (there, f) = total.is_member-Returns req "cmd" w.object in
            rw (e, handle_line)
              (after _ _ f (
                branch there
                  (λ t.
                    let (cmd, g) =
                      text_at-Returns J total building req "cmd" w.cmd (f ∙ ap returns t) in
                    after _ _ g (
                      dispatch-answered cmd req s w (is_other _ cmd "reload" g r)
                        (is_other _ cmd "events" g v)))
                  (λ _. reply-with _ s (err-Returns J total building _))))
      ]
