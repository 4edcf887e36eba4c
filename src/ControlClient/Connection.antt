-- ===== src/ControlClient/Connection.antt =====
-- The descriptor of one connection: connectSocket, and the ends of send and streamEvents.
use pointer_force.Prelude.{
  ℕ, ◌≡◌, inl, inr, Bool, true, false, not, ◌&&◌, Option, List, [], ◌∷◌, arith, if◌then◌else◌,
  Bool-cases, Outcome, returns, ◌>>=◌, ℤ, negsuc, is_negative, int_beq_iff, string_eq, int_eq,
  nat_eq,
}
use pointer_force.Json.{Json, Bytes}
use pointer_force.Device.{remove_first}
use pointer_force.Socket.{send_all}
use pointer_force.ControlClient.{
  Result, cannot_connect, write_failed, reply_of, send, PollAnswer, stream,
}

-- What socket and connect answer.
pub record ConnectAnswers : Type 0 where
  pub fd : ℤ
  pub connects : Bool

-- -1, or the descriptor, which the process then holds.
unfoldable pub connect_socket : ConnectAnswers → List ℤ → ℤ × List ℤ
connect_socket answers fds =
    if is_negative answers.fd
    then (negsuc 0, fds)
    else if answers.connects
    then (answers.fd, answers.fd ∷ fds)
    else (negsuc 0, remove_first answers.fd (answers.fd ∷ fds))

abbrev pub is_connected : ConnectAnswers → Bool
is_connected answers = not (is_negative answers.fd) && answers.connects

module _ (J : Json) where
  open J use {Value, write, set_member, null_value, of_string}

  -- ControlClient::send, with the descriptors of the process.
  unfoldable pub send_request :
      ConnectAnswers → List (Option ℕ) → Bytes → Value → List ℤ → Result Value × List ℤ
  send_request answers writes received request fds =
      let (fd, held) = connect_socket answers fds in
      if is_negative fd
      then (cannot_connect, held)
      else if not (send_all writes (write request)).0
      then (write_failed, remove_first fd held)
      else (reply_of J received, remove_first fd held)

  -- ControlClient::streamEvents: the events that reach the callback, and the descriptors.
  unfoldable pub stream_events :
      ConnectAnswers → List (Option ℕ) → List PollAnswer → List ℤ → Outcome (List Value × List ℤ)
  stream_events answers writes polls fds =
      let (fd, held) = connect_socket answers fds in
      if is_negative fd then returns ([], held) else (do
        req ← set_member null_value "cmd" (of_string "events")
        returns (
            if not (send_all writes (write req)).0
            then ([], remove_first fd held)
            else (stream J polls [], remove_first fd held)))

  connected :
      (answers : ConnectAnswers) (fds : List ℤ)
      → is_connected answers ≡ true
      → (connect_socket answers fds ≡ (answers.fd, answers.fd ∷ fds))
        × (is_negative answers.fd ≡ false)
  unfolding connect_socket
  connected answers fds h = ground (arith, h)

  not_connected :
      (answers : ConnectAnswers) (fds : List ℤ)
      → is_connected answers ≡ false
      → connect_socket answers fds ≡ (negsuc 0, fds)
  unfolding connect_socket remove_first
  not_connected answers fds h = ground (arith, h, int_beq_iff answers.fd answers.fd)

  closed_again : (fd : ℤ) (fds : List ℤ) → remove_first fd (fd ∷ fds) ≡ fds
  unfolding remove_first
  closed_again fd fds = ground (arith, int_beq_iff fd fd)

  -- Whatever the socket answers, a request is answered as over a connection that is there or not,
  -- and the process holds the descriptors that it held before.
  pub send_request-eq-send :
      (answers : ConnectAnswers) (writes : List (Option ℕ)) (received : Bytes) (request : Value)
      (fds : List ℤ)
      → send_request answers writes received request fds
        ≡ (send J (is_connected answers) writes received request, fds)
  unfolding send_request send
  send_request-eq-send answers writes received request fds =
      elim (Bool-cases (is_connected answers)) [
        | inl on ↦
            let (e, n) = connected answers fds on in
            ground (arith, on, e, n, closed_again answers.fd fds)
        | inr off ↦ ground (arith, off, not_connected answers fds off)
      ]
