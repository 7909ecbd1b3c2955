-- ===== src/Sockets.antt =====
-- The socket set-up of yolov8n_cap_multithread, from tracker/src/bytetrack_service.cc (temporal_service.cc has the same)
-- and the start and stop of the two servers of src/ipc. `fds` are the descriptors that the code holds; what
-- a system call gives is an argument. `fcntl`, `setsockopt`, `unlink` and `sleep` leave them alone.
pub mod Closed
use khadas_yolov8n_multithre.Prelude.{
  ℕ, Bool, true, false, Option, none, some, List, [], ◌∷◌, if◌then◌else◌, remove,
}

-- What `socket` gives, with `none` for -1, and whether `bind` and `listen` succeed.
pub record Setup : Type 0 where
  pub socket : Option ℕ
  pub bind : Bool
  pub listen : Bool

-- A descriptor that the code keeps, and all that it holds.
abbrev pub Kept : Type 0
Kept = Option ℕ × List ℕ

listen_on : ℕ → Setup → List ℕ → Kept
listen_on fd a fds =
    if a.bind
    then (if a.listen then (some fd, fd ∷ fds) else (none, remove fd (fd ∷ fds)))
    else (none, remove fd (fd ∷ fds))

bind_at : Option ℕ → Setup → List ℕ → Kept
unfolding listen_on
bind_at none a fds = (none, fds)
bind_at (some fd) a fds = listen_on fd a fds

-- `bind_output`
pub bind_output : Setup → List ℕ → Kept
unfolding bind_at
bind_output a fds = bind_at a.socket a fds

-- One attempt of `connect_input`.
pub record Attempt : Type 0 where
  pub running : Bool
  pub socket : Option ℕ
  pub connects : Bool

-- Where `connect_input` ends: connected, without a socket, stopped, or still waiting.
pub data Connected : Type 0 where
  connected : ℕ → Connected
  failed : Connected
  stopped : Connected
  waiting : Connected

-- `rest` is what further attempts give.
attempt_at : Option ℕ → Bool → (List ℕ → Connected × List ℕ) → List ℕ → Connected × List ℕ
attempt_at none connects rest fds = (failed, fds)
attempt_at (some fd) connects rest fds =
    if connects then (connected fd, fd ∷ fds) else rest (remove fd (fd ∷ fds))

pub connect_input : List Attempt → List ℕ → Connected × List ℕ
unfolding attempt_at
connect_input [] fds = (waiting, fds)
connect_input (a ∷ attempts) fds =
    if a.running
    then attempt_at a.socket a.connects (connect_input attempts) fds
    else (stopped, fds)

-- What a round of the frame loop does to the consumer's descriptor: what `accept` would give, and
-- whether a send fails.
pub record Round : Type 0 where
  pub accepts : Option ℕ
  pub send_fails : Bool

-- `if (out_conn < 0) out_conn = try_accept(out_listen);`
pub try_accept : Option ℕ → Kept → Kept
try_accept none (none, fds) = (none, fds)
try_accept (some c) (none, fds) = (some c, c ∷ fds)
try_accept a (some conn, fds) = (some conn, fds)

-- The publishing: a consumer that is gone is closed.
pub drop_consumer : Bool → Kept → Kept
drop_consumer fails (none, fds) = (none, fds)
drop_consumer fails (some conn, fds) = if fails then (none, remove conn fds) else (some conn, fds)

pub frame_loop : List Round → Kept → Kept
unfolding try_accept drop_consumer
frame_loop [] k = k
frame_loop (r ∷ rs) k = frame_loop rs (drop_consumer r.send_fails (try_accept r.accepts k))

-- A life of the loop over connections to the input: the attempts and then the rounds of each.
pub record Session : Type 0 where
  pub attempts : List Attempt
  pub rounds : List Round

-- `close(in_fd)` behind the frame loop
pub close_input : ℕ → Kept → Kept
close_input fd (conn, fds) = (conn, remove fd fds)

-- Whether the loop goes on behind `connect_input`.
session_at : Connected × List ℕ → List Round → Option ℕ → Kept × Bool
unfolding frame_loop close_input
session_at (connected fd, fds) rounds conn = (close_input fd (frame_loop rounds (conn, fds)), true)
session_at (_, fds) rounds conn = ((conn, fds), false)

pub sessions : List Session → Kept → Kept
unfolding session_at
sessions [] k = k
sessions (s ∷ ss) (conn, fds) =
    let (k, more) = session_at (connect_input s.attempts fds) s.rounds conn in
    let rest = sessions ss k in if more then rest else k

-- The end of `main`.
pub close_consumer : Kept → List ℕ
close_consumer (none, fds) = fds
close_consumer (some conn, fds) = remove conn fds

main_at : Kept → List Session → List ℕ
unfolding sessions close_consumer
main_at (none, fds) ss = fds
main_at (some out_listen, fds) ss = remove out_listen (close_consumer (sessions ss (none, fds)))

-- The descriptors that `main` leaves.
pub service_main : Setup → List Session → List ℕ
unfolding main_at bind_output
service_main a ss = main_at (bind_output a []) ss

-- A server object: `listen_fd_`, `running_` and whether `thread_` is joinable.
pub record Server : Type 0 where
  pub listen_fd : Option ℕ
  pub running : Bool
  pub thread : Bool
  pub fds : List ℕ

pub new_server : Server
new_server = record { listen_fd = none; running = false; thread = false; fds = [] }

start_at : Kept → Server → Server
start_at (none, fds) s = record s { listen_fd = none; fds = fds }
start_at (some fd, fds) s = record s {
  listen_fd = some fd;
  running = true;
  thread = true;
  fds = fds;
}

-- `UnixControlServer::start` and `UnixDataPublisher::start`
pub start : Setup → Server → Server
unfolding start_at bind_output
start a s = start_at (bind_output a s.fds) s

close_listener : Option ℕ → List ℕ → List ℕ
close_listener none fds = fds
close_listener (some fd) fds = remove fd fds

-- `UnixControlServer::stop` and `UnixDataPublisher::stop`, the queue aside
pub stop : Server → Server
unfolding close_listener
stop s = record s {
  running = false;
  listen_fd = none;
  thread = false;
  fds = close_listener s.listen_fd s.fds;
}

-- A connection of `listenerLoop` or `senderLoop`: accepted, served and closed.
pub accept_loop : List (Option ℕ) → List ℕ → List ℕ
accept_loop [] fds = fds
accept_loop (none ∷ conns) fds = fds
accept_loop (some conn ∷ conns) fds = accept_loop conns (remove conn (conn ∷ fds))
