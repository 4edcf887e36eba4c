-- ===== src/Tests/Commands.antt =====
-- pfctl on small inputs.
use pointer_force.Prelude.{
  Selects, ◌≡◌, refl, inr, true, some, List, [], ◌∷◌, returns, pos, string_eq, int_eq, nat_eq,
}
use pointer_force.Json.{Bytes}
use pointer_force.Mapper.{BindingEntry}
use pointer_force.Control.{keep, bindings, text_at}
use pointer_force.Control.Requests.{HasText}
use pointer_force.Pfctl.{read_line, build_request, with_filter}
use pointer_force.Pfctl.Printing.{text, concat, print_bindings}
use pointer_force.Pfctl.Listing.{Wants, listing, bindings_printed}
use pointer_force.Pfctl.Program.{SaysOk, print_reply, show_reply, exchange, program, success-SaysOk}
use pointer_force.Socket.{send_all, split}
use pointer_force.Tests.Sample.{
  Doc, request, boolean, object, member, end, find_member, put_member, sample_json,
}
use pointer_force.Tests.Building.{sample-IsBuilding, sample-IsReadable}

abbrev entries : List BindingEntry
entries =
    record { device_id = "mouse"; key_name = "KEY_MUTE"; keycode = pos 80; command = "mute" }
    ∷ record { device_id = "*"; key_name = "KEY_A"; keycode = pos 3; command = "a" }
    ∷ []

has_device : HasText sample_json request "device" "mouse"
unfolding text_at find_member
has_device = (refl, refl)

one_line : listing (keep sample_json "mouse" entries) ≡ text "  [mouse] KEY_MUTE  →  mute\n" ∷ []
unfolding keep concat
one_line = refl

bindings_printed_example :
    (v : Doc) × (shown : List BindingEntry) × (bindings sample_json request entries
      ≡ returns (sample_json.write v))
    × Selects (Wants "mouse") entries shown
    × (print_bindings sample_json v ≡ returns (listing shown))
bindings_printed_example =
    bindings_printed sample_json sample-IsBuilding sample-IsReadable request "mouse" entries
      (inr has_device)

abbrev accepted : Doc
accepted = object (member "ok" (boolean true) end)

-- The daemon answers with the byte that names a document in which ok is true.
abbrev received : Bytes
received = 4 ∷ 10 ∷ []

reload_done :
    program sample_json (λ n. "1") ("reload" ∷ []) true (some 2 ∷ []) received
    ≡ returns (0, text "OK\n" ∷ [])
unfolding program build_request with_filter exchange send_all split show_reply read_line print_reply
    find_member put_member
reload_done = refl

success-SaysOk_example : (true ≡ true) × SaysOk sample_json (λ n. "1") received
success-SaysOk_example =
    success-SaysOk sample_json (λ n. "1") "reload" [] true (some 2 ∷ []) received (text "OK\n" ∷ [])
      refl reload_done
