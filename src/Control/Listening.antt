-- ===== src/Control/Listening.antt =====
-- ControlServer::start, stop and accept_loop, over what the socket calls answer.
--
-- The process has a table of descriptors, and the file system the socket files, by their paths.
-- The accept thread is joined by `stop`: it is a list of what each round of its loop meets. A path
-- is its bytes, without a zero; `start` and `stop` get the control_socket of the configuration as
-- it is when they run, which a reload may change in between.
use pointer_force.Prelude.{
  ◌≡◌, refl, sym, ap, subst, ◌∙◌, ◌↔◌, ◌⊎◌, Bool, true, false, not, ◌&&◌, ◌||◌, List, [], ◌∷◌,
  arith, nat_beq, nat_beq_iff, if◌then◌else◌, In, ℤ, negsuc, is_negative, int_beq_iff, string_eq,
  int_eq, nat_eq,
}
use pointer_force.Json.{Bytes}
use pointer_force.Socket.{split}
use pointer_force.Device.{remove_first}

pub record Sockets : Type 0 where
  pub open_fds : List ℤ
  pub socket_files : List Bytes

-- The members of ControlServer. A descriptor below 0 is none.
pub record Server : Type 0 where
  pub server_fd : ℤ
  pub is_running : Bool
  pub is_joinable : Bool

abbrev pub stopped : Server
stopped = record { server_fd = negsuc 0; is_running = false; is_joinable = false }

-- What socket, bind and listen answer.
pub record StartAnswers : Type 0 where
  pub fd : ℤ
  pub binds : Bool
  pub listens : Bool

unfoldable pub same_bytes : Bytes → Bytes → Bool
same_bytes [] [] = true
same_bytes [] (b ∷ bs) = false
same_bytes (a ∷ xs) [] = false
same_bytes (a ∷ xs) (b ∷ bs) = nat_beq a b && same_bytes xs bs

-- strncpy into sun_path, which has 108 bytes, the last of them 0.
abbrev pub sun_path : Bytes → Bytes
sun_path path = (split 107 path).0

unfoldable pub unlink : Bytes → List Bytes → List Bytes
unlink path [] = []
unlink path (p ∷ ps) = let rest = unlink path ps in if same_bytes p path then rest else p ∷ rest

-- ::close(server_fd_); server_fd_ = -1;
unfoldable pub drop_fd : Server → Sockets → Server × Sockets
drop_fd server w = (
  record server { server_fd = negsuc 0 },
  record w { open_fds = remove_first server.server_fd w.open_fds },
)

abbrev pub given_up : Server × Sockets → Bool × Server × Sockets
given_up r = (false, r.0, r.1)

unfoldable pub start : Bytes → StartAnswers → Server → Sockets → Bool × Server × Sockets
start path answers server w =
    let free : Sockets = record w { socket_files = unlink path w.socket_files } in
    let server' : Server = record server { server_fd = answers.fd } in
    if is_negative answers.fd
    then (false, server', free)
    else (let opened : Sockets = record free { open_fds = answers.fd ∷ w.open_fds } in
        if not answers.binds
        then given_up (drop_fd server' opened)
        else (let bound : Sockets = record opened {
          socket_files = sun_path path ∷ free.socket_files;
        } in
            if not answers.listens
            then given_up (drop_fd server' bound)
            else (true, record server' { is_running = true; is_joinable = true }, bound)))

unfoldable pub stop : Bytes → Server → Sockets → Server × Sockets
stop path server w =
    let off : Server = record server { is_running = false } in
    let (server', w') = if is_negative server.server_fd then (off, w) else drop_fd off w in
    (
      record server' { is_joinable = false },
      record w' { socket_files = unlink path w'.socket_files },
    )

-- What one round of the accept loop meets: nobody for 200 ms or a failure of poll, a failure of
-- accept, or a client.
pub data Arrival : Type 0 where
  nobody not_accepted : Arrival
  client : ℤ → Arrival

-- The clients that the loop starts a thread for, which handles and closes them; each round comes
-- with whether `running_` held at its test.
unfoldable pub accept_loop : List (Bool × Arrival) → List ℤ
accept_loop [] = []
accept_loop ((false, arrival) ∷ rest) = []
accept_loop ((true, nobody) ∷ rest) = accept_loop rest
accept_loop ((true, not_accepted) ∷ rest) = accept_loop rest
accept_loop ((true, client fd) ∷ rest) = fd ∷ accept_loop rest

same_bytes_iff : (a b : Bytes) → (same_bytes a b ≡ true) ↔ (a ≡ b)
unfolding same_bytes
same_bytes_iff [] [] = ground arith
same_bytes_iff [] (b ∷ bs) = ground arith
same_bytes_iff (a ∷ xs) [] = ground arith
same_bytes_iff (a ∷ xs) (b ∷ bs) = ground (arith, nat_beq_iff a b, same_bytes_iff xs bs)

unlinked : (path : Bytes) (files : List Bytes) → ¬ In path (unlink path files)
unfolding unlink
unlinked path [] h = h
unlinked path (p ∷ ps) h = ground (arith, h, unlinked path ps, same_bytes_iff p path)

unlink_again :
    (path : Bytes) (files : List Bytes) → unlink path (unlink path files) ≡ unlink path files
unfolding unlink
unlink_again path [] = refl
unlink_again path (p ∷ ps) = ground (arith, unlink_again path ps, same_bytes_iff p path)

-- A start of a stopped server that fails leaves it stopped and gives the descriptor back.
failed_start-closes :
    (path : Bytes) (answers : StartAnswers) (w : Sockets)
    → (start path answers stopped w).0 ≡ false
    → ((start path answers stopped w).2.open_fds ≡ w.open_fds)
      × (is_negative (start path answers stopped w).1.server_fd ≡ true)
      × ((start path answers stopped w).1.is_running ≡ false)
unfolding start drop_fd remove_first
failed_start-closes path answers w h = ground (arith, h, int_beq_iff answers.fd answers.fd)

-- A start that succeeds holds its descriptor and the socket file, and only then the server runs.
started_runs :
    (path : Bytes) (answers : StartAnswers) (w : Sockets)
    → ((start path answers stopped w).0 ≡ true)
      ↔ ((start path answers stopped w).1.is_running ≡ true)
unfolding start drop_fd
started_runs path answers w = ground arith

-- The server holds one descriptor more than these, or none.
abbrev Holds : List ℤ → Server → Sockets → Type 0
Holds fds server w =
    ((is_negative server.server_fd ≡ true) × (w.open_fds ≡ fds))
    ⊎ ((is_negative server.server_fd ≡ false) × (w.open_fds ≡ server.server_fd ∷ fds))

start-Holds :
    (path : Bytes) (answers : StartAnswers) (w : Sockets)
    → Holds w.open_fds (start path answers stopped w).1 (start path answers stopped w).2
unfolding start drop_fd remove_first
start-Holds path answers w = ground (arith, int_beq_iff answers.fd answers.fd)

-- What a stop leaves of a server, and of the sockets.
abbrev IsOff : Server → Type 0
IsOff server =
    (is_negative server.server_fd ≡ true)
    × (server.is_running ≡ false)
    × (server.is_joinable ≡ false)

stop_closes :
    (path : Bytes) (fds : List ℤ) (server : Server) (w : Sockets)
    → Holds fds server w
    → ((stop path server w).1
        ≡ record { open_fds = fds; socket_files = unlink path w.socket_files })
      × IsOff (stop path server w).0
unfolding stop drop_fd remove_first
stop_closes path fds server w h = ground (arith, h, int_beq_iff server.server_fd server.server_fd)

stop_off :
    (path : Bytes) (server : Server) (w : Sockets)
    → IsOff server
    → stop path server w ≡ (server, record w { socket_files = unlink path w.socket_files })
unfolding stop
stop_off path server w h = ground (arith, h)

unlinked_again :
    (path : Bytes) (fds : List ℤ) (files : List Bytes) (w : Sockets)
    → w ≡ record { open_fds = fds; socket_files = unlink path files }
    → record w { socket_files = unlink path w.socket_files } ≡ w
unlinked_again path fds files w e =
    subst (λ (x : Sockets). record x { socket_files = unlink path x.socket_files } ≡ x) (sym e)
      (ap (λ (l : List Bytes). record { open_fds = fds; socket_files = l })
        (unlink_again path files))

-- The socket files after a start: the stale one is gone, and a bound socket has its own.
abbrev pub files_after : Bytes → StartAnswers → List Bytes → List Bytes
files_after path answers files =
    if is_negative answers.fd || not answers.binds
    then unlink path files
    else sun_path path ∷ unlink path files

start_files :
    (path : Bytes) (answers : StartAnswers) (w : Sockets)
    → (start path answers stopped w).2.socket_files ≡ files_after path answers w.socket_files
unfolding start drop_fd
start_files path answers w = ground arith

-- Whatever the socket calls answer, a server that was started, successfully or not, and then
-- stopped has given back its descriptor and runs no more. Of the socket files it has taken away
-- those at the path of the start and at the path of the stop, save that the socket that was bound
-- stays if the path was too long for its address or has changed since. Stopping it once more under
-- the same path, as the destructor does, changes nothing.
pub stop-start :
    (path path' : Bytes) (answers : StartAnswers) (w : Sockets)
    → let (_, server, w') = start path answers stopped w in
      ((stop path' server w').1.open_fds ≡ w.open_fds)
      × ((stop path' server w').1.socket_files
          ≡ unlink path' (files_after path answers w.socket_files))
      × (¬ In path' (stop path' server w').1.socket_files)
      × ((stop path' server w').0.is_running ≡ false)
      × (stop path' (stop path' server w').0 (stop path' server w').1 ≡ stop path' server w')
stop-start path path' answers w =
    let (_, server, w') = start path answers stopped w in
    let (left, off) = stop_closes path' w.open_fds server w' (start-Holds path answers w) in
    (
      rw left refl,
      rw left (ap (unlink path') (start_files path answers w)),
      rw left (unlinked path' w'.socket_files),
      off.1,
      stop_off path' _ _ off
          ∙ ap (λ (x : Sockets). ((stop path' server w').0, x))
              (unlinked_again path' w.open_fds w'.socket_files _ left),
    )
