-- ===== src/ControlClient.antt =====
-- frontend/services/ControlClient.cc: the bridge's side of the control socket.
pub mod Connection
pub mod Stream
use pointer_force.Prelude.{
  ℕ, zero, suc, ◌+◌, ◌<◌, ◌≤◌, String, ◌≡◌, refl, sym, ap, subst, ◌∙◌, ◌⊎◌, inl, inr, Bool, true,
  false, not, ◌&&◌, Option, none, some, List, [], ◌∷◌, ◌++◌, append_assoc, append-nil, arith,
  eq_iff, nat_beq, leb, if◌then◌else◌, ◌==◌, is_empty, Bool-cases, Option-cases, Outcome-cases,
  length, length-append, Outcome, returns, throws, ◌>>=◌, string_eq,
}
use pointer_force.Common.{default_control_socket}
use pointer_force.Json.{Json, Bytes}
use pointer_force.Json.Access.{has_kind}
use pointer_force.ConfigStore.{ReadResult, content, cannot_open, invalid_json, not_an_object, read}
use pointer_force.Socket.{send_all}
use pointer_force.Pfctl.{read_line}
use pointer_force.Control.Client.{cut_line}

-- The error of the transport, or a reply.
pub data Result (V : Type 0) : Type 0 where
  cannot_connect write_failed empty_response invalid_response : Result V
  response : V → Result V

-- What a poll of the socket meets: nothing for the time being, bytes, the end of the stream, or a
-- hang-up or an error.
pub data PollAnswer : Type 0 where
  nothing : PollAnswer
  bytes : Bytes → PollAnswer
  closed hung_up : PollAnswer

abbrev pub first_line : Bytes → List Bytes × Bytes → List Bytes × Bytes
first_line line (lines, leftover) = (line ∷ lines, leftover)

-- The inner loop, which cuts off the complete lines; on fuel.
unfoldable pub cut_lines : ℕ → Bytes → List Bytes × Bytes
cut_lines zero leftover = ([], leftover)
cut_lines (suc n) leftover = elim (cut_line leftover) [
  | none ↦ ([], leftover)
  | some (line, rest) ↦ first_line line (cut_lines n rest)
]

module _ (J : Json) where
  open J use {Value, parse, write, at, is_member, is_string, as_string, as_bool, of_bool, of_string}

  abbrev pub socket_of : ReadResult Value → Outcome String
  socket_of (content cfg) = do
    named ← has_kind J is_string cfg "control_socket"
    if named
        then (do
          x ← at cfg "control_socket"
          path ← as_string x
          if is_empty path then returns default_control_socket else returns path)
        else returns default_control_socket
  socket_of _ = returns default_control_socket

  unfoldable pub resolve_socket_path : (String → Option Bytes) → String → Outcome String
  resolve_socket_path files path = socket_of (read J files path)

  abbrev pub parsed : Option Value → Result Value
  parsed none = invalid_response
  parsed (some v) = response v

  -- What is made of the reply.
  unfoldable pub reply_of : Bytes → Result Value
  reply_of received = elim (read_line received) [
    | [] ↦ empty_response
    | c ∷ cs ↦ parsed (parse (c ∷ cs))
  ]

  -- `writes` are the answers of the socket to the request, `received` what it sends back.
  unfoldable pub send : Bool → List (Option ℕ) → Bytes → Value → Result Value
  send connects writes received request =
      if not connects
      then cannot_connect
      else if (send_all writes (write request)).0
      then reply_of received
      else write_failed

  abbrev pub events_of : List Bytes → List Value
  events_of [] = []
  events_of ([] ∷ lines) = events_of lines
  events_of ((b ∷ line) ∷ lines) =
      let rest = events_of lines in elim (parse (b ∷ line)) [ none ↦ rest | some v ↦ v ∷ rest ]

  -- The events that reach the callback, over the polls that find `keepRunning` set.
  unfoldable pub stream : List PollAnswer → Bytes → List Value
  stream [] leftover = []
  stream (nothing ∷ polls) leftover = stream polls leftover
  stream (bytes chunk ∷ polls) leftover =
      let all = leftover ++ chunk in
      let (lines, left) = cut_lines (length all + 1) all in events_of lines ++ stream polls left
  stream (closed ∷ polls) leftover = []
  stream (hung_up ∷ polls) leftover = []
