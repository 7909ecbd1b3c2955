-- ===== src/Sockets/Closed.antt =====
-- No descriptor is lost: what was opened is closed, on every path.
use khadas_yolov8n_multithre.Prelude.{
  ℕ, ◌+◌, ◌≡◌, refl, ◌∙◌, Bool, true, false, Option, none, some, List, [], ◌∷◌, arith, remove,
  count, owns, count-cons, count-remove, nil_of_count, Bool-cases, inl, inr,
}
use khadas_yolov8n_multithre.Sockets.{
  Setup, bind_output, bind_at, listen_on, Attempt, Connected, connected, failed, stopped, waiting,
  attempt_at, connect_input, Round, try_accept, drop_consumer, frame_loop, Session, close_input,
  session_at, sessions, close_consumer, main_at, service_main, Server, new_server, start, start_at,
  stop, close_listener, accept_loop, Kept,
}

-- All that is held is `base` and the descriptor that is kept.
abbrev Holds : List ℕ → Kept → Type 0
Holds base k = (x : ℕ) → count x k.1 ≡ owns k.0 x + count x base

-- A descriptor that was just opened, closed again.
reclosed : (fd x : ℕ) (fds : List ℕ) → count x (remove fd (fd ∷ fds)) ≡ count x fds
reclosed fd x fds = omega (arith, count-remove x fd (fd ∷ fds), count-cons x fd fds)

listen_on-Holds : (fd : ℕ) (a : Setup) (fds : List ℕ) → Holds fds (listen_on fd a fds)
unfolding listen_on
listen_on-Holds fd a fds x = elim (Bool-cases a.bind) [
  | inr e ↦ rw e (omega (arith, reclosed fd x fds))
  | inl e ↦ elim (Bool-cases a.listen) [
    | inr f ↦ rw (e, f) (omega (arith, reclosed fd x fds))
    | inl f ↦ rw (e, f) (count-cons x fd fds)
  ]
]

bind_at-Holds : (o : Option ℕ) (a : Setup) (fds : List ℕ) → Holds fds (bind_at o a fds)
unfolding bind_at
bind_at-Holds none a fds x = omega arith
bind_at-Holds (some fd) a fds x = listen_on-Holds fd a fds x

-- The descriptor of a connection.
abbrev input_fd : Connected → Option ℕ
input_fd (connected fd) = some fd
input_fd _ = none

attempt_at-Holds :
    (o : Option ℕ) (c : Bool) (rest : List ℕ → Connected × List ℕ) (fds : List ℕ)
    → ((l : List ℕ) (x : ℕ) → count x (rest l).1 ≡ owns (input_fd (rest l).0) x + count x l)
    → (x : ℕ) → let r = attempt_at o c rest fds in count x r.1 ≡ owns (input_fd r.0) x + count x fds
unfolding attempt_at
attempt_at-Holds none c rest fds h x = omega arith
attempt_at-Holds (some fd) true rest fds h x = count-cons x fd fds
attempt_at-Holds (some fd) false rest fds h x =
    omega (arith, h (remove fd (fd ∷ fds)) x, reclosed fd x fds)

connect_input-Holds :
    (attempts : List Attempt) (fds : List ℕ) (x : ℕ)
    → let r = connect_input attempts fds in count x r.1 ≡ owns (input_fd r.0) x + count x fds
unfolding connect_input
connect_input-Holds [] fds x = omega arith
connect_input-Holds (a ∷ attempts) fds x = elim (Bool-cases a.running) [
  | inr e ↦ rw e (omega arith)
  | inl e ↦ rw e (
      attempt_at-Holds a.socket a.connects (connect_input attempts) fds
        (connect_input-Holds attempts) x)
]

try_accept-Holds :
    (a : Option ℕ) (k : Kept) (base : List ℕ) → Holds base k → Holds base (try_accept a k)
unfolding try_accept
try_accept-Holds none (none, fds) base h x = h x
try_accept-Holds (some c) (none, fds) base h x = omega (arith, count-cons x c fds, h x)
try_accept-Holds none (some conn, fds) base h x = h x
try_accept-Holds (some c) (some conn, fds) base h x = h x

drop_consumer-Holds :
    (fails : Bool) (k : Kept) (base : List ℕ) → Holds base k → Holds base (drop_consumer fails k)
unfolding drop_consumer
drop_consumer-Holds fails (none, fds) base h x = h x
drop_consumer-Holds true (some conn, fds) base h x = omega (arith, count-remove x conn fds, h x)
drop_consumer-Holds false (some conn, fds) base h x = h x

frame_loop-Holds :
    (rs : List Round) (k : Kept) (base : List ℕ) → Holds base k → Holds base (frame_loop rs k)
unfolding frame_loop
frame_loop-Holds [] k base h = h
frame_loop-Holds (r ∷ rs) k base h =
    frame_loop-Holds rs _ base
      (drop_consumer-Holds r.send_fails _ base (try_accept-Holds r.accepts k base h))

session-Holds :
    (r : Connected × List ℕ) (rounds : List Round) (conn : Option ℕ) (base : List ℕ)
    → ((x : ℕ) → count x r.1 ≡ owns (input_fd r.0) x + owns conn x + count x base)
    → Holds base (session_at r rounds conn).0
unfolding session_at close_input
session-Holds (connected fd, fds) rounds conn base h x =
    let inside =
      frame_loop-Holds rounds (conn, fds) (fd ∷ base)
        (λ y. omega (arith, h y, count-cons y fd base)) x in
    omega (arith, inside, count-remove x fd (frame_loop rounds (conn, fds)).1, count-cons x fd base)
session-Holds (failed, fds) rounds conn base h x = omega (arith, h x)
session-Holds (stopped, fds) rounds conn base h x = omega (arith, h x)
session-Holds (waiting, fds) rounds conn base h x = omega (arith, h x)

sessions-Holds :
    (ss : List Session) (k : Kept) (base : List ℕ) → Holds base k → Holds base (sessions ss k)
unfolding sessions
sessions-Holds [] k base h = h
sessions-Holds (s ∷ ss) (conn, fds) base h =
    let r = connect_input s.attempts fds in
    let k = session_at r s.rounds conn in
    let now : Holds base k.0 =
      session-Holds r s.rounds conn base
        (λ x. omega (arith, connect_input-Holds s.attempts fds x, h x)) in
    elim (Bool-cases k.1) [ inl e ↦ rw e (sessions-Holds ss k.0 base now) | inr e ↦ rw e now ]

close_consumer-Holds :
    (k : Kept) (base : List ℕ) (x : ℕ) → Holds base k → count x (close_consumer k) ≡ count x base
unfolding close_consumer
close_consumer-Holds (none, fds) base x h = omega (arith, h x)
close_consumer-Holds (some conn, fds) base x h = omega (arith, count-remove x conn fds, h x)

main_at-Holds : (k : Kept) (ss : List Session) (x : ℕ) → Holds [] k → count x (main_at k ss) ≡ 0
unfolding main_at count
main_at-Holds (none, fds) ss x h = h x
main_at-Holds (some out, fds) ss x h = omega (
  arith,
  count-remove x out (close_consumer (sessions ss (none, fds))),
  close_consumer-Holds (sessions ss (none, fds)) fds x
      (sessions-Holds ss (none, fds) fds (λ y. omega arith)),
  h x,
)

-- A service closes every descriptor that it opened, whatever the system calls give: on a failed
-- set-up, over any attempts to connect, any consumers that come and go, and at the end.
pub service_main-closed : (a : Setup) (ss : List Session) → service_main a ss ≡ []
unfolding service_main bind_output
service_main-closed a ss =
    nil_of_count (service_main a ss)
      (λ x. main_at-Holds (bind_output a []) ss x (bind_at-Holds a.socket a []))

close_listener-Holds :
    (o : Option ℕ) (fds base : List ℕ) (x : ℕ)
    → count x fds ≡ owns o x + count x base
    → count x (close_listener o fds) ≡ count x base
unfolding close_listener
close_listener-Holds none fds base x h = omega (arith, h)
close_listener-Holds (some fd) fds base x h = omega (arith, count-remove x fd fds, h)

accept_loop-count :
    (conns : List (Option ℕ)) (fds : List ℕ) (x : ℕ) → count x (accept_loop conns fds) ≡ count x fds
unfolding accept_loop
accept_loop-count [] fds x = refl
accept_loop-count (none ∷ conns) fds x = refl
accept_loop-count (some conn ∷ conns) fds x =
    accept_loop-count conns (remove conn (conn ∷ fds)) x ∙ reclosed conn x fds

start_at-Holds :
    (k : Kept) (s : Server) (x : ℕ)
    → Holds s.fds k
    → count x (start_at k s).fds ≡ owns (start_at k s).listen_fd x + count x s.fds
unfolding start_at
start_at-Holds (none, fds) s x h = h x
start_at-Holds (some fd, fds) s x h = h x

-- A server that is started, takes any connections and is stopped has closed every descriptor.
server_life-closed :
    (a : Setup) (conns : List (Option ℕ))
    → let s = start a new_server in (stop (record s { fds = accept_loop conns s.fds })).fds ≡ []
unfolding stop start new_server bind_output count
server_life-closed a conns =
    let s = start a new_server in
    nil_of_count _ (λ x.
      close_listener-Holds s.listen_fd (accept_loop conns s.fds) [] x (
        accept_loop-count conns s.fds x
        ∙ start_at-Holds (bind_at a.socket a []) new_server x (bind_at-Holds a.socket a []))
      ∙ nothing x)
  where
    nothing : (x : ℕ) → count x [] ≡ 0
    nothing x = refl
