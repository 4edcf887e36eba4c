-- ===== src/Bridge/Relay.antt =====
-- A bind request of the web page, from the body to the daemon and back.
use Prim.Native.String.{◌++◌ as str_append}
use pointer_force.Prelude.{
  String, ◌≡◌, refl, ◌⊎◌, inl, inr, Bool, true, false, ◌||◌, some, [], ◌∷◌, arith, is_empty,
  returns, Returns, ℤ, string_eq, int_eq, nat_eq,
}
use pointer_force.Json.{Json, IsBuilding, IsReadable}
use pointer_force.Control.{set_members, text_at, has_all}
use pointer_force.Control.Requests.{HasText}
use pointer_force.Control.Texts.{set_text}
use pointer_force.Control.Replies.{set_members-Returns}
use pointer_force.ControlClient.{Result, response}
use pointer_force.Bridge.{
  daemon_says, succeeded, failed, json_ok, command_failed, get, get_text, get_bool, run_command,
  relay, done_document, api_bind,
}

module _ (J : Json) where
  open J use {Value, is_member, at, of_bool}

  -- The value has the member, and it is the Boolean.
  abbrev pub HasBool : Value → String → Bool → Type 0
  HasBool v k b = (is_member v k ≡ returns true) × (at v k ≡ returns (of_bool b))

module _ (J : Json) (building : IsBuilding J) (readable : IsReadable J) where
  open J use {Value, is_member, at, as_bool, null_value, of_bool, of_string}

  bind_request :
      (device key command : String)
      → (req : Value) × (set_members J
            (("cmd", of_string "bind")
              ∷ ("device", of_string device)
              ∷ ("key", of_string key)
              ∷ ("command", of_string command)
              ∷ [])
            null_value
          ≡ returns req)
        × (HasText J req "cmd" "bind"
            × HasText J req "device" device
            × HasText J req "key" key
            × HasText J req "command" command)
  unfolding set_members
  bind_request device key command =
      let (r, e, o, c, _) = set_text J building readable null_value "cmd" "bind" (inr refl) in
      let (r1, e1, o1, d1, k1) = set_text J building readable r "device" device (inl o) in
      let (r2, e2, o2, d2, k2) = set_text J building readable r1 "key" key (inl o1) in
      let (r3, e3, o3, d3, k3) = set_text J building readable r2 "command" command (inl o2) in
      (
        r3,
        rw (e, e1, e2, e3) refl,
        (
          k3 "cmd" "bind" refl (k2 "cmd" "bind" refl (k1 "cmd" "bind" refl c)),
          k3 "device" device refl (k2 "device" device refl d1),
          k3 "key" key refl d2,
          d3,
        ),
      )

  said_ok :
      (transport : Value → Result Value) (req v : Value)
      → transport req ≡ response v
      → HasBool J v "ok" true
      → run_command J transport req ≡ returns (succeeded v)
  unfolding run_command get_bool get
  said_ok transport req v t h = ground (arith, t, h, readable.as_bool-of_bool true)

  said_error :
      (transport : Value → Result Value) (req v : Value) (error : String)
      → transport req ≡ response v
      → HasBool J v "ok" false
      → HasText J v "error" error
      → run_command J transport req ≡ returns (failed (daemon_says error))
  unfolding run_command get_bool get_text get text_at
  said_error transport req v error t h e = ground (arith, t, h, e, readable.as_bool-of_bool false)

  done_document-Returns : (output : String) → Returns (done_document J output)
  unfolding done_document
  done_document-Returns output =
      let (doc, e, _, _) =
        set_members-Returns J building (("ok", of_bool true) ∷ ("output", of_string output) ∷ [])
          null_value (inr refl) in
      (doc, e)

  -- The request that a bind body is passed on as.
  abbrev pub IsBind : Value → String → String → String → Type 0
  IsBind req device key command =
      HasText J req "cmd" "bind"
      × HasText J req "device" device
      × HasText J req "key" key
      × HasText J req "command" command

  -- A bind body whose device, key and command are texts and not empty is passed on as a bind
  -- request with these: if the daemon answers each such request by one reply, which says
  -- whether it succeeded and, if not, why, then the page is told a success if the reply says ok,
  -- and the daemon's error if it does not.
  pub bind_relayed :
      (decimal : ℤ → String) (transport : Value → Result Value) (json v : Value)
      (device key command error : String) (ok : Bool)
      → HasText J json "device" device
      → HasText J json "key" key
      → HasText J json "command" command
      → (is_empty device || (is_empty key || is_empty command)) ≡ false
      → ((req : Value) → IsBind req device key command → transport req ≡ response v)
      → HasBool J v "ok" ok
      → (ok ≡ false → HasText J v "error" error)
      → ((ok ≡ true)
          × ((doc : Value) × (api_bind J decimal transport (some json) ≡ returns (json_ok doc))))
        ⊎ ((ok ≡ false)
            × (api_bind J decimal transport (some json)
                ≡ returns (command_failed (daemon_says error))))
  unfolding api_bind has_all relay
  bind_relayed decimal transport json v device key command error true d k c full answers says why =
      let (req, e, texts) = bind_request device key command in
      let (doc, f) =
        done_document-Returns (str_append "bound " (str_append device (str_append " " key))) in
      let r = said_ok transport req v (answers req texts) says in
      inl (refl, (doc, ground (arith, d, k, c, full, e, r, f)))
  bind_relayed decimal transport json v device key command error false d k c full answers says why =
      let (req, e, texts) = bind_request device key command in
      let r = said_error transport req v error (answers req texts) says (why refl) in
      inr (refl, ground (arith, d, k, c, full, e, r))
