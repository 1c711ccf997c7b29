-- ===== src/WebSockets/Session/Lifetime.antt =====
-- src/WebSockets/websocketsession: how long a `Session` lives, which its owner and the handlers of
-- its operations hold by `shared_from_this`, and its destructor.
pub mod Bound
pub mod Reading
use components_network.Prelude.{
  ℕ, Bytes, Bool, true, false, ◌&&◌, ◌||◌, List, [], ◌∷◌, Option, if◌then◌else◌,
}
use components_network.WebSockets.Session.{
  Pending, idle, resolving, connecting, handshaking, reading, Session, start, on_resolve,
  on_connect, on_handshake, on_read, send, set_read_callback, set_close_callback, close,
  is_handshaking, is_reading,
}

-- A session with whether its owner holds it; one that is destroyed keeps what was outstanding.
pub data Outcome : Type 0 where
  lives : Bool → Session → Outcome
  destroyed : Session → Outcome
  terminated undefined_behaviour : Outcome

abbrev pub is_resolving : Pending → Bool
is_resolving resolving = true
is_resolving _ = false

abbrev pub is_connecting : Pending → Bool
is_connecting connecting = true
is_connecting _ = false

abbrev pub is_outstanding : Pending → Bool
is_outstanding idle = false
is_outstanding resolving = true
is_outstanding connecting = true
is_outstanding handshaking = true
is_outstanding reading = true

-- The destructor: `close` throws where the stream fails to close, and no exception leaves a destructor.
unfoldable pub destroy : Bool → Session → Outcome
unfolding close
destroy fails s = if s.connected && fails then terminated else destroyed (close s)

-- Is there a `shared_from_this` bound to the handler of the operation that is outstanding? It is bound
-- where `start`, `on_resolve`, `on_connect` and `on_handshake` or `on_read` begin the operation.
unfoldable pub binds_self : Pending → Bool
binds_self idle = false
binds_self resolving = true
binds_self connecting = true
binds_self handshaking = true
binds_self reading = true

-- The last shared pointer to the session is gone, or not: the owner may have one, and the handler that
-- is bound.
unfoldable pub settle : Bool → Bool → Session → Outcome
unfolding binds_self
settle fails owned s = if owned || binds_self s.pending then lives owned s else destroy fails s

-- What may happen to a session. A handler runs if its operation is outstanding, and holds the session
-- until it has returned; the owner uses a session that it holds. The last argument of a handler and
-- of `releases` is whether the stream fails to close, if the session is destroyed there.
pub data Event : Type 0 where
  starts : Bytes → Event
  resolves : Bool → Bool → Event
  connects : Bool → Bytes → Bool → Event
  handshakes : Bool → Bool → Event
  reads : Bool → Bytes → Bool → Event
  sends : Option ℕ → Bytes → Event
  sets_read_callback sets_close_callback : Bool → Event
  closes : Event
  releases : Bool → Event

abbrev pub by_owner : Bool → Session → Session → Outcome
by_owner owned s next = if owned then lives owned next else lives owned s

unfoldable pub step_alive : Bool → Session → Event → Outcome
unfolding start on_resolve on_connect on_handshake on_read send set_read_callback set_close_callback
    close destroy settle
step_alive owned s (starts host) =
    if is_outstanding s.pending then lives owned s else by_owner owned s (start s host)
step_alive owned s (resolves failed fails) =
    if is_resolving s.pending then settle fails owned (on_resolve s failed) else lives owned s
step_alive owned s (connects failed port fails) =
    if is_connecting s.pending then settle fails owned (on_connect s failed port) else lives owned s
step_alive owned s (handshakes failed fails) =
    if is_handshaking s.pending then settle fails owned (on_handshake s failed) else lives owned s
step_alive owned s (reads failed received fails) =
    if is_reading s.pending then settle fails owned (on_read s failed received) else lives owned s
step_alive owned s (sends n text) = by_owner owned s (send n s text).1
step_alive owned s (sets_read_callback given) = by_owner owned s (set_read_callback s given)
step_alive owned s (sets_close_callback given) = by_owner owned s (set_close_callback s given)
step_alive owned s closes = by_owner owned s (close s)
step_alive owned s (releases fails) = if owned then settle fails false s else lives owned s

abbrev pub used_if : Bool → Session → Outcome
used_if due s = if due then undefined_behaviour else destroyed s

-- A handler of an operation that is outstanding would run also if the session were destroyed.
abbrev pub step_destroyed : Session → Event → Outcome
step_destroyed s (resolves failed fails) = used_if (is_resolving s.pending) s
step_destroyed s (connects failed port fails) = used_if (is_connecting s.pending) s
step_destroyed s (handshakes failed fails) = used_if (is_handshaking s.pending) s
step_destroyed s (reads failed received fails) = used_if (is_reading s.pending) s
step_destroyed s _ = destroyed s

unfoldable pub step : Outcome → Event → Outcome
unfolding step_alive
step (lives owned s) e = step_alive owned s e
step (destroyed s) e = step_destroyed s e
step terminated e = terminated
step undefined_behaviour e = undefined_behaviour

unfoldable pub steps : Outcome → List Event → Outcome
unfolding step
steps o [] = o
steps o (e ∷ es) = steps (step o e) es
