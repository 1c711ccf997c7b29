-- ===== src/WebSockets/Server.antt =====
-- src/WebSockets/server: a WebSocket server with its set of connections and a thread of its own.
pub mod Stopping
use components_network.Prelude.{
  ℕ, ◌==◌, number_key, Bool, true, false, not, ◌&&◌, ◌||◌, List, [], ◌∷◌, ◌++◌, map, if◌then◌else◌,
}

-- A connection handle is a number. `closed` are the connections that the server closed itself.
pub record Server : Type 0 where
  pub connections : List ℕ
  pub listening : Bool
  -- Is there a thread, is it inside `run`, and was the service stopped?
  pub has_thread : Bool
  pub in_run : Bool
  pub stopped : Bool
  pub closed : List ℕ

abbrev pub new : Server
new = record {
  connections = [];
  listening = false;
  has_thread = false;
  in_run = false;
  stopped = false;
  closed = [];
}

abbrev pub contains : List ℕ → ℕ → Bool
contains [] h = false
contains (k ∷ ks) h = k == h || contains ks h

-- `std::set::erase`.
abbrev pub without : List ℕ → ℕ → List ℕ
without [] h = []
without (k ∷ ks) h = let rest = without ks h in if k == h then rest else k ∷ rest

unfoldable pub on_open : Server → ℕ → Server
on_open d h = if contains d.connections h then d else record d { connections = h ∷ d.connections }

-- `DisconnectReason`.
pub data DisconnectReason : Type 0 where
  normal server_shutdown protocol_error connection_lost unknown : DisconnectReason

-- The reason that the close handler makes of the code of the other side.
unfoldable pub reason_of : ℕ → DisconnectReason
reason_of code =
    if code == 1000
    then normal
    else (if code == 1001
        then server_shutdown
        else (if code == 1002 then protocol_error else connection_lost))

-- The close handler: the server, and the reason that it logs.
unfoldable pub on_close : Server → ℕ → ℕ → Server × DisconnectReason
on_close d h code = (record d { connections = without d.connections h }, reason_of code)

-- `listen`, for what `listen` and `start_accept` of the library answer: does either fail? The thread
-- is made once; its `run` returns at once if the service is stopped.
unfoldable pub listen : Bool → Bool → Server → Server
listen listen_fails accept_fails d =
    if listen_fails || accept_fails
    then d
    else (if d.has_thread
        then record d { listening = true }
        else record d { listening = true; has_thread = true; in_run = not d.stopped })

-- A call of the open or the close handler, which the thread makes while it is in `run`.
pub data Handler : Type 0 where
  opens : ℕ → Handler
  closes : ℕ → ℕ → Handler

unfoldable pub handle : Server → Handler → Server
unfolding on_open on_close
handle d (opens h) = if d.in_run then on_open d h else d
handle d (closes h code) = if d.in_run then (on_close d h code).0 else d

unfoldable pub handle_all : Server → List Handler → Server
unfolding handle
handle_all d [] = d
handle_all d (c ∷ cs) = handle_all (handle d c) cs

-- The parts of `stop`. The mutex is held in the second one only, where each connection is asked to
-- close, errors ignored; in the third one the thread, if there is one, is stopped and joined.
unfoldable pub stop_listening : Server → Server
stop_listening d = record d { listening = false }

unfoldable pub close_all : Server → Server
close_all d = record d { connections = []; closed = d.closed ++ d.connections }

unfoldable pub end_thread : Server → Server
end_thread d =
    if d.has_thread then record d { stopped = true; has_thread = false; in_run = false } else d

-- `stop`, with the handlers that the thread calls between its parts.
unfoldable pub stop : List Handler → List Handler → Server → Server
unfolding handle_all stop_listening close_all end_thread
stop early late d = end_thread (handle_all (close_all (handle_all (stop_listening d) early)) late)

-- The destructor of `Impl`.
unfoldable pub destroy : List Handler → List Handler → Server → Server
unfolding stop
destroy early late d = stop early late d

-- `isListening`.
abbrev pub is_listening : Server → Bool
is_listening d = d.listening

-- What may happen to a server.
pub data Event : Type 0 where
  listens : Bool → Bool → Event
  stops : List Handler → List Handler → Event
  calls : Handler → Event

unfoldable pub step : Server → Event → Server
unfolding listen stop handle
step d (listens listen_fails accept_fails) = listen listen_fails accept_fails d
step d (stops early late) = stop early late d
step d (calls c) = handle d c

unfoldable pub steps : Server → List Event → Server
steps d [] = d
steps d (e ∷ es) = steps (step d e) es
