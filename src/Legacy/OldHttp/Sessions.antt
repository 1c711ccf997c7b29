-- ===== src/Legacy/OldHttp/Sessions.antt =====
-- A session of the old HTTP server, from its accept to its answer.
use components_network.Prelude.{
  ℕ, Bytes, ◌≡◌, refl, ◌≤◌, ◌<◌, ◌+◌, ◌-◌, ltb, number_key, ==_refl, ◌==◌, Bool, true, false, not,
  ◌&&◌, List, [], ◌∷◌, Option, none, some, is_some, arith, if_cases, All,
}
use components_network.Prelude.Assoc.{find, erase, insert, find-erase, find-insert}
use components_network.Legacy.OldHttp.Answers.{
  Processors, get, post, put, delete, other, Request, Response, process_request,
}
use components_network.Legacy.OldHttp.{
  Server, accept_connections, close_acceptor, start, stop, has_all, on_accept, on_accept_error,
  on_read, read_by, answered, set_processor, Event, starts, stops, Opening, open_throws,
  listen_throws, opens, sets, accepts, fails_to_accept, reads, step, steps,
}

-- Does an event leave a session alone?
abbrev pub leaves : ℕ → Event → Bool
leaves id (reads k input) = not (k == id)
leaves id _ = true

-- The session with these processors waits for its request.
abbrev pub Waits : ℕ → Processors → Server → Type 0
Waits id ps d = (find id d.sessions ≡ some ps) × (id < d.next)

accept_connections-Waits :
    (id : ℕ) (ps : Processors) (d : Server) → Waits id ps d → Waits id ps (accept_connections d)
unfolding accept_connections
accept_connections-Waits id ps d w = if_cases (Waits id ps) d.acceptor_open (λ t. w) (λ f. w)

on_accept-Waits :
    (id : ℕ) (ps : Processors) (d : Server) → Waits id ps d → Waits id ps (on_accept d)
unfolding on_accept
on_accept-Waits id ps d w =
    if_cases (Waits id ps) (has_all d.processors)
      (λ t.
        accept_connections-Waits id ps
          (record d {
            accepting = d.accepting - 1;
            sessions = insert d.next d.processors d.sessions;
            next = d.next + 1;
          })
          (ground (arith, find-insert d.next id d.processors d.sessions), omega arith))
      (λ f. (w.0, omega arith))

answered-Waits :
    (id k : ℕ) (ps : Processors) (d : Server) (o : Option Response)
    → Waits id ps d
    → Waits id ps (answered k d o)
answered-Waits id k ps d none w = w
answered-Waits id k ps d (some response) w = w

read_by-Waits :
    (id k : ℕ) (ps : Processors) (input : Option (Request × Option Bytes)) (o : Option Processors)
    (d : Server)
    → (k == id) ≡ false
    → Waits id ps d
    → Waits id ps (read_by k d input o)
read_by-Waits id k ps input none d h w = w
read_by-Waits id k ps none (some qs) d h w = (rw (find-erase k id d.sessions, h) w.0, w.1)
read_by-Waits id k ps (some (request, peer)) (some qs) d h w =
    answered-Waits id k ps (record d { sessions = erase k d.sessions })
      (process_request qs request peer) (rw (find-erase k id d.sessions, h) w.0, w.1)

start-Waits :
    (id : ℕ) (ps : Processors) (opening : Opening) (port : ℕ) (d : Server)
    → Waits id ps d
    → Waits id ps (start opening port d)
unfolding start close_acceptor accept_connections
start-Waits id ps open_throws port d w = ground arith
start-Waits id ps listen_throws port d w = ground arith
start-Waits id ps opens port d w = ground arith

step-Waits :
    (id : ℕ) (ps : Processors) (d : Server) (e : Event)
    → leaves id e ≡ true
    → Waits id ps d
    → Waits id ps (step d e)
unfolding step on_read set_processor stop start close_acceptor accept_connections on_accept_error
step-Waits id ps d (starts opening port) h w =
    if_cases (Waits id ps) d.in_run (λ t. w) (λ f. start-Waits id ps opening port d w)
step-Waits id ps d (stops acceptor_throws socket_throws) h w = ground arith
step-Waits id ps d (sets get f) h w = w
step-Waits id ps d (sets post f) h w = w
step-Waits id ps d (sets put f) h w = w
step-Waits id ps d (sets delete f) h w = w
step-Waits id ps d (sets (other name) f) h w = w
step-Waits id ps d accepts h w =
    if_cases (Waits id ps) (d.in_run && ltb 0 d.accepting) (λ t. on_accept-Waits id ps d w) (λ f. w)
step-Waits id ps d (fails_to_accept called_off) h w = ground arith
step-Waits id ps d (reads k input) h w =
    if_cases (Waits id ps) d.in_run
      (λ t. read_by-Waits id k ps input (find k d.sessions) d (ground arith) w) (λ f. w)

steps-Waits :
    (id : ℕ) (ps : Processors) (d : Server) (es : List Event)
    → All (λ e. leaves id e ≡ true) es
    → Waits id ps d
    → Waits id ps (steps d es)
unfolding steps
steps-Waits id ps d [] h w = w
steps-Waits id ps d (e ∷ es) h w = steps-Waits id ps (step d e) es h.1 (step-Waits id ps d e h.0 w)

accepts-Waits :
    (d : Server)
    → d.in_run ≡ true
    → 1 ≤ d.accepting
    → has_all d.processors ≡ true
    → Waits d.next d.processors (step d accepts)
unfolding step on_accept
accepts-Waits d r a c =
    if_cases (Waits d.next d.processors) (d.in_run && ltb 0 d.accepting)
      (λ t. rw c (
        accept_connections-Waits d.next d.processors
          (record d {
            accepting = d.accepting - 1;
            sessions = insert d.next d.processors d.sessions;
            next = d.next + 1;
          })
          (ground (arith, find-insert d.next d.next d.processors d.sessions), omega arith)))
      (λ f. absurd (ground arith))

abbrev pub answer_of : ℕ → Option Response → List (ℕ × Response) → List (ℕ × Response)
answer_of id none written = written
answer_of id (some response) written = (id, response) ∷ written

-- What the read of a request makes of a server: the answer goes out, or an exception ends `run`; the
-- session is over.
abbrev pub Answers : ℕ → Option Response → Server → Server → Type 0
Answers id o d d' =
    (d'.written ≡ answer_of id o d.written) × (d'.in_run ≡ is_some o) × (find id d'.sessions ≡ none)

answered-Answers :
    (id : ℕ) (d : Server) (o : Option Response)
    → d.in_run ≡ true
    → Answers id o d (answered id (record d { sessions = erase id d.sessions }) o)
answered-Answers id d none r = (refl, refl, rw (find-erase id id d.sessions, ==_refl id) refl)
answered-Answers id d (some response) r =
    (refl, r, rw (find-erase id id d.sessions, ==_refl id) refl)

reads-Answers :
    (id : ℕ) (ps : Processors) (d : Server) (request : Request) (peer : Option Bytes)
    → find id d.sessions ≡ some ps
    → d.in_run ≡ true
    → Answers id (process_request ps request peer) d (step d (reads id (some (request, peer))))
unfolding step on_read
reads-Answers id ps d request peer w r =
    if_cases (Answers id (process_request ps request peer) d) d.in_run
      (λ t. rw w (answered-Answers id d (process_request ps request peer) r))
      (λ f. absurd (ground arith))

-- Every connection is answered by the processors that were set when it was made, and at most once:
-- whatever happens to the server in between, processors that are set included, the request of the
-- session, when it is read while the server is in `run`, is processed by those processors, an
-- exception ends `run`, and another request on the connection is not read.
pub accepts-reads :
    (d : Server) (es : List Event) (request : Request) (peer : Option Bytes)
    → d.in_run ≡ true
    → 1 ≤ d.accepting
    → has_all d.processors ≡ true
    → All (λ e. leaves d.next e ≡ true) es
    → (steps (step d accepts) es).in_run ≡ true
    → let d' = steps (step d accepts) es in
      Answers d.next
        (process_request d.processors request peer)
        d'
        (step d' (reads d.next (some (request, peer))))
accepts-reads d es request peer r a c h r' =
    reads-Answers d.next d.processors (steps (step d accepts) es) request peer
      (steps-Waits d.next d.processors (step d accepts) es h (accepts-Waits d r a c)).0 r'
