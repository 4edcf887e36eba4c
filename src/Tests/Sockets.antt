-- ===== src/Tests/Sockets.antt =====
-- Both ends of the control socket on small inputs.
use pointer_force.Prelude.{
  In, pos, false, int_eq, arith, ◌≡◌, refl, true, none, some, [], ◌∷◌, ◌++◌, returns, string_eq,
}
use pointer_force.Json.{Bytes}
use pointer_force.Mapper.{add_binding}
use pointer_force.Control.{replied, handle_line, set_members}
use pointer_force.Control.Client.Framing.{lines_of}
use pointer_force.ControlClient.Connection.{send_request, send_request-eq-send}
use pointer_force.ControlClient.{send, nothing, bytes, closed, events_of, stream}
use pointer_force.ControlClient.Stream.{stream-eq-events_of}
use pointer_force.Pfctl.{sends, join, build_request, read_line, with_filter, bind_fields}
use pointer_force.Pfctl.Requests.{bind_reaches_table}
use pointer_force.Socket.{send_all, send_all-sends}
use pointer_force.Control.Listening.{
  unlink, files_after, Sockets, StartAnswers, stopped, start, stop, stop-start,
}
use pointer_force.Tests.Sample.{Doc, request, put_member, sample_json, sample_code}
use pointer_force.Tests.Building.{sample-IsBuilding, sample-IsReadable}
use pointer_force.Tests.Requests.{state}

reply_read : read_line (65 ∷ 66 ∷ 10 ∷ 67 ∷ []) ≡ 65 ∷ 66 ∷ []
unfolding read_line
reply_read = refl

built :
    build_request sample_json ("bind" ∷ "mouse" ∷ "KEY_MUTE" ∷ "mute" ∷ [])
    ≡ returns (sends request)
unfolding build_request with_filter bind_fields set_members put_member join
built = refl

parsed_as_built :
    (req : Doc)
    → build_request sample_json ("bind" ∷ "mouse" ∷ "KEY_MUTE" ∷ "mute" ∷ []) ≡ returns (sends req)
    → sample_json.parse (3 ∷ []) ≡ some req
parsed_as_built req h = ground (arith, h, built)

bind_reaches_table_example :
    let (table, ok) = add_binding sample_code state.table "mouse" "KEY_MUTE" (join "mute" []) in
    (req : Doc) × (v : Doc) × (build_request sample_json
        ("bind" ∷ "mouse" ∷ "KEY_MUTE" ∷ "mute" ∷ [])
      ≡ returns (sends req))
    × (handle_line sample_json sample_code (λ p. none) [] 8 [] (3 ∷ []) state
        ≡ returns (replied (record state { table = table }) (sample_json.write v)))
    × (sample_json.at v "ok" ≡ returns (sample_json.of_bool ok))
bind_reaches_table_example =
    bind_reaches_table sample_json sample-IsBuilding sample-IsReadable sample_code (λ p. none) [] 8
      [] "mouse" "KEY_MUTE" "mute" [] state (3 ∷ []) parsed_as_built

stream-eq-events_of_example :
    stream sample_json (bytes (1 ∷ []) ∷ nothing ∷ bytes (10 ∷ 10 ∷ 2 ∷ []) ∷ closed ∷ []) []
    ≡ events_of sample_json (lines_of (1 ∷ 10 ∷ 10 ∷ 2 ∷ []))
stream-eq-events_of_example =
    stream-eq-events_of sample_json
      (bytes (1 ∷ []) ∷ nothing ∷ bytes (10 ∷ 10 ∷ 2 ∷ []) ∷ closed ∷ []) [] refl

send_all-sends_example :
    (back : Bytes) × ((send_all (some 2 ∷ some 1 ∷ []) (1 ∷ 2 ∷ 3 ∷ [])).1 ++ back ≡ 1 ∷ 2 ∷ 3 ∷ [])
    × ((send_all (some 2 ∷ some 1 ∷ []) (1 ∷ 2 ∷ 3 ∷ [])).0 ≡ true → back ≡ [])
send_all-sends_example = send_all-sends (some 2 ∷ some 1 ∷ []) (1 ∷ 2 ∷ 3 ∷ [])

abbrev sockets : Sockets
sockets = record { open_fds = pos 0 ∷ []; socket_files = (1 ∷ 2 ∷ []) ∷ [] }

-- The socket is made and bound, and then listen fails.
abbrev no_listen : StartAnswers
no_listen = record { fd = pos 5; binds = true; listens = false }

-- A reload has set another path before the stop.
stop-start_example :
    let (_, server, w') = start (1 ∷ 2 ∷ []) no_listen stopped sockets in
    ((stop (1 ∷ 3 ∷ []) server w').1.open_fds ≡ pos 0 ∷ [])
    × ((stop (1 ∷ 3 ∷ []) server w').1.socket_files
        ≡ unlink (1 ∷ 3 ∷ []) (files_after (1 ∷ 2 ∷ []) no_listen sockets.socket_files))
    × (¬ In (1 ∷ 3 ∷ []) (stop (1 ∷ 3 ∷ []) server w').1.socket_files)
    × ((stop (1 ∷ 3 ∷ []) server w').0.is_running ≡ false)
    × (stop (1 ∷ 3 ∷ []) (stop (1 ∷ 3 ∷ []) server w').0 (stop (1 ∷ 3 ∷ []) server w').1
        ≡ stop (1 ∷ 3 ∷ []) server w')
stop-start_example = stop-start (1 ∷ 2 ∷ []) (1 ∷ 3 ∷ []) no_listen sockets

-- The connection is there, and the reply is a line that no document has.
send_request-eq-send_example :
    send_request sample_json
      (record { fd = pos 5; connects = true })
      (some 2 ∷ [])
      (9 ∷ 10 ∷ [])
      request
      (pos 0 ∷ [])
    ≡ (send sample_json true (some 2 ∷ []) (9 ∷ 10 ∷ []) request, pos 0 ∷ [])
send_request-eq-send_example =
    send_request-eq-send sample_json (record { fd = pos 5; connects = true }) (some 2 ∷ [])
      (9 ∷ 10 ∷ []) request (pos 0 ∷ [])
