-- ===== src/Pfctl/Program.antt =====
-- The main function of pfctl.
use pointer_force.Prelude.{
  ℕ, ◌+◌, String, ◌≡◌, refl, ap, ◌∙◌, ◌≢◌, inl, inr, Bool, true, false, not, Option, none, some,
  List, [], ◌∷◌, arith, if◌then◌else◌, ◌==◌, Bool-cases, length, Outcome, returns, >>=-eq-returns,
  Ensures, Ensures-returns, Ensures-if, Ensures-bind, ◌>>=◌, ℤ, string_eq, int_eq, nat_eq,
}
use pointer_force.Json.{Json, Bytes}
use pointer_force.Control.{set_members, text_at}
use pointer_force.Socket.{send_all}
use pointer_force.Pfctl.{
  Request, shows_usage, misused, sends, read_line, with_filter, bind_fields, unbind_fields,
  build_request,
}
use pointer_force.Pfctl.Printing.{
  Piece, text, concat, print_status, print_devices, print_bindings, print_events,
}

abbrev pub usage : String
usage = concat (
    "pfctl – PointerForce control client\n" ∷ "\n" ∷ "Usage:\n" ∷ "  pfctl status\n"
    ∷ "  pfctl devices\n" ∷ "  pfctl bindings [<device_id>]\n"
    ∷ "  pfctl bind   <device_id> <KEY_NAME> <command>\n"
    ∷ "  pfctl unbind <device_id> <KEY_NAME>\n" ∷ "  pfctl events\n" ∷ "  pfctl reload\n" ∷ "\n"
    ∷ "Socket: " ∷ "/tmp/pointerforce.sock" ∷ "\n" ∷ [])

-- The exit status and the output.
abbrev pub Exit : Type 0
Exit = ℕ × List Piece

module _ (J : Json) (decimal : ℤ → String) where
  open J use {Value, parse, write, at, set_member, as_bool, object_value, of_string}

  unfoldable pub print_reply : String → Value → Outcome (List Piece)
  print_reply cmd resp =
      if cmd == "status"
      then print_status J decimal resp
      else if cmd == "devices"
      then print_devices J resp
      else if cmd == "bindings"
      then print_bindings J resp
      else returns (text "OK\n" ∷ [])

  abbrev pub show_parsed : String → Option Value → Outcome Exit
  show_parsed cmd none = returns (1, [])
  show_parsed cmd (some resp) = do
    x ← at resp "ok"
    ok ← as_bool x
    if ok
        then (do out ← print_reply cmd resp; returns (0, out))
        else (do msg ← text_at J resp "error"; returns (1, []))

  abbrev pub show_line : String → Bytes → Outcome Exit
  show_line cmd [] = returns (1, [])
  show_line cmd (c ∷ cs) = show_parsed cmd (parse (c ∷ cs))

  -- What is made of the reply to a command other than events.
  unfoldable pub show_reply : String → Bytes → Outcome Exit
  show_reply cmd received = show_line cmd (read_line received)

  -- `connects` is whether the socket can be connected, `writes` what its writes answer, and
  -- `received` what the daemon sends.
  unfoldable pub exchange : String → Bool → List (Option ℕ) → Bytes → Value → Outcome Exit
  exchange cmd connects writes received req =
      if not connects
      then returns (1, [])
      else if not (send_all writes (write req)).0
      then returns (1, [])
      else if cmd == "events"
      then (do
        pieces ← print_events J (length received + 1) received
        returns (0, text "Listening for events (Ctrl-C to quit)...\n" ∷ pieces))
      else show_reply cmd received

  abbrev pub carried_out : String → Bool → List (Option ℕ) → Bytes → Request Value → Outcome Exit
  carried_out cmd connects writes received shows_usage = returns (0, text usage ∷ [])
  carried_out cmd connects writes received misused = returns (1, [])
  carried_out cmd connects writes received (sends req) = exchange cmd connects writes received req

  abbrev command_of : List String → String
  command_of [] = ""
  command_of (cmd ∷ args) = cmd

  unfoldable pub program : List String → Bool → List (Option ℕ) → Bytes → Outcome Exit
  program args connects writes received = do
    request ← build_request J args
    carried_out (command_of args) connects writes received request

  abbrev pub SaysOk : Bytes → Type 0
  SaysOk received =
      (v : Value) × (parse (read_line received) ≡ some v)
      × ((x : Value) × (at v "ok" ≡ returns x) × (as_bool x ≡ returns true))

  abbrev refusal : Value → Outcome Exit
  refusal resp = do msg ← text_at J resp "error"; returns (1, [])

  refusal-eq-returns : (resp : Value) (out : List Piece) → refusal resp ≢ returns (0, out)
  refusal-eq-returns resp out h =
      let (msg, e, f) = >>=-eq-returns (text_at J resp "error") _ h in absurd (ground (arith, f))

  parsed_ok :
      (cmd : String) (o : Option Value) (out : List Piece)
      → show_parsed cmd o ≡ returns (0, out)
      → (v : Value) × (o ≡ some v)
        × ((x : Value) × (at v "ok" ≡ returns x) × (as_bool x ≡ returns true))
  parsed_ok cmd none out h = absurd (ground (arith, h))
  parsed_ok cmd (some resp) out h =
      let (x, e, f) = >>=-eq-returns (at resp "ok") _ h in
      let (ok, g, k) = >>=-eq-returns (as_bool x) _ f in
      elim (Bool-cases ok) [
        | inl said ↦ (resp, refl, (x, e, g ∙ ap returns said))
        | inr refused ↦ absurd (refusal-eq-returns resp out (rw refused at k))
      ]

  line_ok :
      (cmd : String) (line : Bytes) (out : List Piece)
      → show_line cmd line ≡ returns (0, out)
      → (v : Value) × (parse line ≡ some v)
        × ((x : Value) × (at v "ok" ≡ returns x) × (as_bool x ≡ returns true))
  line_ok cmd [] out h = absurd (ground (arith, h))
  line_ok cmd (c ∷ cs) out h = parsed_ok cmd (parse (c ∷ cs)) out h

  exchange-SaysOk :
      (cmd : String) (connects : Bool) (writes : List (Option ℕ)) (received : Bytes) (req : Value)
      (out : List Piece)
      → (cmd == "events") ≡ false
      → exchange cmd connects writes received req ≡ returns (0, out)
      → (connects ≡ true) × SaysOk received
  unfolding exchange show_reply
  exchange-SaysOk cmd false writes received req out other h = absurd (ground (arith, h))
  exchange-SaysOk cmd true writes received req out other h =
      elim (Bool-cases (send_all writes (write req)).0) [
        | inl sent ↦ (refl, line_ok cmd (read_line received) out (rw (sent, other) at h))
        | inr unsent ↦ absurd (ground (arith, h, unsent))
      ]

  abbrev IsNoUsage : Request Value → Type 0
  IsNoUsage shows_usage = ⊥
  IsNoUsage misused = Unit
  IsNoUsage (sends req) = Unit

  bind_fields-IsNoUsage :
      (args : List String) (req : Value) → Ensures IsNoUsage (bind_fields J args req)
  unfolding bind_fields
  bind_fields-IsNoUsage [] req = Ensures-returns _ tt
  bind_fields-IsNoUsage (device ∷ []) req = Ensures-returns _ tt
  bind_fields-IsNoUsage (device ∷ key ∷ []) req = Ensures-returns _ tt
  bind_fields-IsNoUsage (device ∷ key ∷ arg ∷ args) req =
      Ensures-bind (set_members J _ req) _ λ r _. Ensures-returns _ tt

  unbind_fields-IsNoUsage :
      (args : List String) (req : Value) → Ensures IsNoUsage (unbind_fields J args req)
  unfolding unbind_fields
  unbind_fields-IsNoUsage [] req = Ensures-returns _ tt
  unbind_fields-IsNoUsage (device ∷ []) req = Ensures-returns _ tt
  unbind_fields-IsNoUsage (device ∷ key ∷ args) req =
      Ensures-bind (set_members J _ req) _ λ r _. Ensures-returns _ tt

  build_request-IsNoUsage :
      (cmd : String) (args : List String) → Ensures IsNoUsage (build_request J (cmd ∷ args))
  unfolding build_request
  build_request-IsNoUsage cmd args =
      Ensures-bind (set_member object_value "cmd" (of_string cmd)) _ λ req _.
        Ensures-bind (with_filter J cmd args req) _ λ req' _.
          Ensures-if (cmd == "bind") _ _ (λ _. bind_fields-IsNoUsage args req')
            (λ _.
              Ensures-if (cmd == "unbind") _ _ (λ _. unbind_fields-IsNoUsage args req')
                (λ _. Ensures-returns _ tt))

  carried_out-SaysOk :
      (cmd : String) (connects : Bool) (writes : List (Option ℕ)) (received : Bytes)
      (request : Request Value) (out : List Piece)
      → (cmd == "events") ≡ false
      → IsNoUsage request
      → carried_out cmd connects writes received request ≡ returns (0, out)
      → (connects ≡ true) × SaysOk received
  carried_out-SaysOk cmd connects writes received shows_usage out other n h = absurd n
  carried_out-SaysOk cmd connects writes received misused out other n h = absurd (ground (arith, h))
  carried_out-SaysOk cmd connects writes received (sends req) out other n h =
      exchange-SaysOk cmd connects writes received req out other h

  -- pfctl reports success, with status 0, for a command other than events only if the daemon was
  -- reached and its reply says ok.
  pub success-SaysOk :
      (cmd : String) (args : List String) (connects : Bool) (writes : List (Option ℕ))
      (received : Bytes) (out : List Piece)
      → (cmd == "events") ≡ false
      → program (cmd ∷ args) connects writes received ≡ returns (0, out)
      → (connects ≡ true) × SaysOk received
  unfolding program
  success-SaysOk cmd args connects writes received out other h =
      let (request, e, f) = >>=-eq-returns (build_request J (cmd ∷ args)) _ h in
      carried_out-SaysOk cmd connects writes received request out other
        ((build_request-IsNoUsage cmd args).at_return request e) f
