-- ===== src/Control/Serve.antt =====
-- ControlServer::handle_client with the handling of a line: one whole connection.
use pointer_force.Prelude.{
  ℕ, ◌+◌, String, ◌≡◌, Option, some, List, [], arith, length, Outcome, returns, throws, string_eq,
}
use pointer_force.Json.{Json, Bytes}
use pointer_force.DeviceManager.{DeviceInfo}
use pointer_force.Multiplexer.{Shared, Observer, Outside}
use pointer_force.Control.{Turn, handle_line}
use pointer_force.Control.Client.{Handled, handle_client}
use pointer_force.Control.Client.Framing.{
  lines_of, concat, handle_lines, handle_client-eq-handle_lines,
}

abbrev pub as_handled : Outcome Turn → Outcome (Handled Shared)
as_handled throws = throws
as_handled (returns turn) = returns (turn.replies, turn.state, turn.stays)

module _ (J : Json) (input_code : String → ℕ) (files : String → Option Bytes)
    (info : List DeviceInfo) (client : Observer) (meanwhile : List Outside) where
  abbrev pub on_line : Bytes → Shared → Outcome (Handled Shared)
  on_line line s = as_handled (handle_line J input_code files info client meanwhile line s)

  -- A connection, from its reads; `none` if the fuel ran out.
  unfoldable pub serve : List Bytes → Shared → Option (Outcome (List Bytes × Shared))
  serve reads s = handle_client on_line (length reads + length (concat reads) + 1) reads [] s

  -- A connection is served to its end, and what the server writes and what becomes of the state
  -- depend on the bytes alone, not on how they were cut into reads: the complete lines are handled
  -- one after the other.
  serve_lines :
      (reads : List Bytes) (s : Shared)
      → serve reads s ≡ some (handle_lines on_line (lines_of (concat reads)) s)
  unfolding serve
  serve_lines reads s =
      handle_client-eq-handle_lines on_line (length reads + length (concat reads) + 1) reads [] s
        (omega arith)
