-- ===== src/Pfctl/Requests.antt =====
-- pfctl bind, from the command line to the daemon's table.
use pointer_force.Prelude.{
  ℕ, String, ◌≡◌, refl, inl, Option, some, List, ◌∷◌, arith, returns, string_eq,
}
use pointer_force.Json.{Json, Bytes, IsBuilding, IsReadable}
use pointer_force.DeviceManager.{DeviceInfo}
use pointer_force.Mapper.{add_binding}
use pointer_force.Multiplexer.{Shared, Observer, Outside}
use pointer_force.Control.{Turn, replied, set_members, dispatch, handle_line, bind}
use pointer_force.Control.Texts.{set_text}
use pointer_force.Control.Requests.{HasText, bind_edits}
use pointer_force.Pfctl.{sends, join, with_filter, bind_fields, build_request}

module _ (J : Json) (building : IsBuilding J) (readable : IsReadable J) where
  open J use {
    Value, parse, write, is_member, at, set_member, is_object, as_string, object_value, of_bool,
    of_string,
  }

  -- The request of pfctl bind carries the command's name, the device, the key, and the remaining
  -- arguments joined by blanks.
  pub build_request_bind :
      (device key arg : String) (args : List String)
      → (req : Value) × (build_request J ("bind" ∷ device ∷ key ∷ arg ∷ args) ≡ returns (sends req))
        × HasText J req "cmd" "bind"
        × HasText J req "device" device
        × HasText J req "key" key
        × HasText J req "command" (join arg args)
  unfolding build_request with_filter bind_fields set_members
  build_request_bind device key arg args =
      let (r, e, o, c, _) =
        set_text J building readable object_value "cmd" "bind" (inl building.object_value-Object) in
      let (r1, e1, o1, d1, k1) = set_text J building readable r "device" device (inl o) in
      let (r2, e2, o2, d2, k2) = set_text J building readable r1 "key" key (inl o1) in
      let (r3, e3, o3, d3, k3) =
        set_text J building readable r2 "command" (join arg args) (inl o2) in
      (
        r3,
        rw (e, e1, e2, e3) refl,
        k3 "cmd" "bind" refl (k2 "cmd" "bind" refl (k1 "cmd" "bind" refl c)),
        k3 "device" device refl (k2 "device" device refl d1),
        k3 "key" key refl d2,
        d3,
      )

  module _ (input_code : String → ℕ) (files : String → Option Bytes) (info : List DeviceInfo)
      (client : Observer) (meanwhile : List Outside) where
    handled_bind :
        (req : Value) (line : Bytes) (s : Shared) (turn : Turn)
        → parse line ≡ some req
        → HasText J req "cmd" "bind"
        → bind J input_code req s ≡ returns turn
        → handle_line J input_code files info client meanwhile line s ≡ returns turn
    unfolding handle_line dispatch
    handled_bind req line s turn p c b = ground (arith, p, c, b)

    -- pfctl bind makes a request that the daemon accepts: if the line that it sends is parsed as
    -- the request that was written, the daemon adds the binding of that key of that device to the
    -- joined command, and its reply says whether the key is known.
    pub bind_reaches_table :
        (device key arg : String) (args : List String) (s : Shared) (line : Bytes)
        → ((req : Value)
            → build_request J ("bind" ∷ device ∷ key ∷ arg ∷ args) ≡ returns (sends req)
            → parse line ≡ some req)
        → let (table, ok) = add_binding input_code s.table device key (join arg args) in
          (req : Value) × (v : Value) × (build_request J ("bind" ∷ device ∷ key ∷ arg ∷ args)
            ≡ returns (sends req))
          × (handle_line J input_code files info client meanwhile line s
              ≡ returns (replied (record s { table = table }) (write v)))
          × (at v "ok" ≡ returns (of_bool ok))
    bind_reaches_table device key arg args s line parses =
        let (req, e, c, d, k, w) = build_request_bind device key arg args in
        let (v, b, said) =
          bind_edits J building input_code req s device key (join arg args) d k w in
        (req, v, e, handled_bind req line s _ (parses req e) c b, said)
