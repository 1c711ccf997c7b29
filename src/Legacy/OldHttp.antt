-- ===== src/Legacy/OldHttp.antt =====
-- Legacy/Implementation/HTTP: the old HTTP server, which answers one request on each connection.
pub mod Answers
pub mod Timeout
pub mod Serving
pub mod Ending
pub mod Sessions
use components_network.Prelude.{
  ℕ, Bytes, ◌+◌, ◌-◌, ltb, number_key, Bool, true, false, not, ◌&&◌, ◌||◌, List, [], ◌∷◌, Option,
  none, some, is_some, if◌then◌else◌,
}
use components_network.Prelude.Assoc.{find, erase, insert}
use components_network.Legacy.OldHttp.Answers.{
  Processors, Processor, Verb, get, post, put, delete, other, Request, Response, process_request,
}

-- `Server::Impl` with its sessions, by numbers. `accepting` counts the accepts that are outstanding,
-- `aborted` the handlers of accepts that wait to be called with an error. A session that reads holds
-- the processors that it was given.
pub record Server : Type 0 where
  pub port : ℕ
  pub acceptor_open : Bool
  pub accepting : ℕ
  pub aborted : ℕ
  pub in_run : Bool
  pub stopped : Bool
  pub processors : Processors
  pub sessions : List (ℕ × Processors)
  pub next : ℕ
  pub written : List (ℕ × Response)

abbrev pub new : Server
new = record {
  port = 9001;
  acceptor_open = false;
  accepting = 0;
  aborted = 0;
  in_run = false;
  stopped = false;
  processors = record {
    request_get = none;
    request_post = none;
    request_put = none;
    request_delete = none;
  };
  sessions = [];
  next = 0;
  written = [];
}

-- `acceptConnections`: on an acceptor that is closed the accept fails at once.
unfoldable pub accept_connections : Server → Server
accept_connections d =
    if d.acceptor_open
    then record d { accepting = d.accepting + 1 }
    else record d { aborted = d.aborted + 1 }

-- `close` of the acceptor calls the handlers of its accepts off.
unfoldable pub close_acceptor : Server → Server
close_acceptor d = record d {
  acceptor_open = false;
  aborted = d.aborted + d.accepting;
  accepting = 0;
}

-- Which call on the acceptor throws when the server is started: that of `open`, one of those behind
-- it, or none?
pub data Opening : Type 0 where
  open_throws listen_throws opens : Opening

abbrev pub opened : Opening → Server → Server
opened open_throws d = d
opened listen_throws d = record d { acceptor_open = true }
opened opens d = record (accept_connections (record d { acceptor_open = true })) {
  in_run = not d.stopped;
}

-- `start`, to its call of `run`. An exception of the acceptor goes to the caller.
unfoldable pub start : Opening → ℕ → Server → Server
start opening port d =
    let d1 = record d { port = port } in
    opened opening (if d.acceptor_open then close_acceptor d1 else d1)

-- `stop`, for whether the calls of `cancel` throw, of the acceptor and of the socket that waits for
-- a connection.
unfoldable pub stop : Bool → Bool → Server → Server
stop acceptor_throws socket_throws d =
    if acceptor_throws
    then d
    else (if socket_throws
        then close_acceptor d
        else record (close_acceptor d) { stopped = true; in_run = false })

-- An exception leaves a handler and with it `run`; `start` logs it and returns.
abbrev pub leave_run : Server → Server
leave_run d = record d { in_run = false }

abbrev pub has_all : Processors → Bool
has_all ps =
    is_some ps.request_get
    && is_some ps.request_post
    && is_some ps.request_put
    && is_some ps.request_delete

-- The handler of an accept, where a connection was made: a session with the processors of the
-- server, whose `readRequest` throws if one of them is missing.
unfoldable pub on_accept : Server → Server
on_accept d =
    let d1 = record d {
      accepting = d.accepting - 1;
      sessions = insert d.next d.processors d.sessions;
      next = d.next + 1;
    } in
    if has_all d.processors
    then accept_connections d1
    else leave_run (record d { accepting = d.accepting - 1; next = d.next + 1 })

-- The same where the accept failed: it was called off, or it failed for another reason.
unfoldable pub on_accept_error : Bool → Server → Server
on_accept_error called_off d = accept_connections (
    if called_off
    then record d { aborted = d.aborted - 1 }
    else record d { accepting = d.accepting - 1 })

abbrev pub answered : ℕ → Server → Option Response → Server
answered id d none = leave_run d
answered id d (some response) = record d { written = (id, response) ∷ d.written }

-- The handler of a read, in a session that was found: nothing is done on an error.
abbrev pub read_by : ℕ → Server → Option (Request × Option Bytes) → Option Processors → Server
read_by id d input none = d
read_by id d none (some ps) = record d { sessions = erase id d.sessions }
read_by id d (some (request, peer)) (some ps) =
    answered id (record d { sessions = erase id d.sessions }) (process_request ps request peer)

unfoldable pub on_read : ℕ → Option (Request × Option Bytes) → Server → Server
on_read id input d = read_by id d input (find id d.sessions)

-- `setProcessorGet` and its like; there is none for another verb.
unfoldable pub set_processor : Verb → Option Processor → Server → Server
set_processor get f d = record d { processors = record d.processors { request_get = f } }
set_processor post f d = record d { processors = record d.processors { request_post = f } }
set_processor put f d = record d { processors = record d.processors { request_put = f } }
set_processor delete f d = record d { processors = record d.processors { request_delete = f } }
set_processor (other name) f d = d

-- What may happen. `start` blocks its caller; it is called while no `run` goes on.
pub data Event : Type 0 where
  starts : Opening → ℕ → Event
  stops : Bool → Bool → Event
  sets : Verb → Option Processor → Event
  accepts : Event
  fails_to_accept : Bool → Event
  reads : ℕ → Option (Request × Option Bytes) → Event

unfoldable pub step : Server → Event → Server
step d (starts opening port) = if d.in_run then d else start opening port d
step d (stops acceptor_throws socket_throws) = stop acceptor_throws socket_throws d
step d (sets verb f) = set_processor verb f d
step d accepts = if d.in_run && ltb 0 d.accepting then on_accept d else d
step d (fails_to_accept called_off) =
    if d.in_run && ltb 0 (if called_off then d.aborted else d.accepting)
    then on_accept_error called_off d
    else d
step d (reads id input) = if d.in_run then on_read id input d else d

unfoldable pub steps : Server → List Event → Server
steps d [] = d
steps d (e ∷ es) = steps (step d e) es
