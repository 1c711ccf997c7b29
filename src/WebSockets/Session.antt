-- ===== src/WebSockets/Session.antt =====
-- src/WebSockets/websocketsession: `Session`, one plain WebSocket connection to a host.
pub mod Reading
pub mod Connected
pub mod Lifetime
use components_network.Prelude.{
  ℕ, ◌+◌, ◌==◌, number_key, Bytes, Bool, true, false, not, List, [], ◌∷◌, ◌++◌, Option, none, some,
  if◌then◌else◌,
}

-- The asynchronous operation that is outstanding.
pub data Pending : Type 0 where
  idle resolving connecting handshaking reading : Pending

-- The callbacks keep what they were called with, oldest first.
pub record Session : Type 0 where
  pub host : Bytes
  pub connected : Bool  -- m_isConnected
  pub pending : Pending
  pub buffer : Bytes  -- m_buffer
  pub has_read_callback : Bool
  pub has_close_callback : Bool
  pub read_calls : List Bytes
  pub close_calls : ℕ
  -- What was written, and how often the stream was closed.
  pub sent : List Bytes
  pub closings : ℕ

abbrev pub new : Session
new = record {
  host = [];
  connected = false;
  pending = idle;
  buffer = [];
  has_read_callback = false;
  has_close_callback = false;
  read_calls = [];
  close_calls = 0;
  sent = [];
  closings = 0;
}

abbrev pub call_close : Session → Session
call_close s = if s.has_close_callback then record s { close_calls = s.close_calls + 1 } else s

unfoldable pub start : Session → Bytes → Session
start s host = record s { host = host; pending = resolving }

-- In the handlers `failed` is whether there is an `ec`.
unfoldable pub on_resolve : Session → Bool → Session
on_resolve s failed = record s { pending = if failed then idle else connecting }

-- `port` is what `std::to_string` makes of the port.
unfoldable pub on_connect : Session → Bool → Bytes → Session
on_connect s failed port =
    if failed
    then call_close (record s { pending = idle; connected = false })
    else record s { host = s.host ++ b':' ∷ port; pending = handshaking; connected = true }

unfoldable pub on_handshake : Session → Bool → Session
on_handshake s failed =
    if failed then record s { pending = idle } else record s { pending = reading; connected = true }

-- A read puts what it received behind what the buffer holds, also if it fails.
unfoldable pub on_read : Session → Bool → Bytes → Session
on_read s failed received =
    let all = s.buffer ++ received in
    let s' = record s { buffer = all } in
    if failed
    then call_close (record s' { pending = idle })
    else (if s.has_read_callback
        then record s' { read_calls = s.read_calls ++ all ∷ []; pending = reading }
        else record s' { pending = reading })

-- `send`, for what `write` gives: the number of bytes, or `none` for an exception.
unfoldable pub send : Option ℕ → Session → Bytes → Option Bool × Session
send none s text = (none, s)
send (some n) s text = (some (not (n == 0)), record s { sent = s.sent ++ text ∷ [] })

unfoldable pub set_read_callback : Session → Bool → Session
set_read_callback s given = record s { has_read_callback = given }

unfoldable pub set_close_callback : Session → Bool → Session
set_close_callback s given = record s { has_close_callback = given }

unfoldable pub close : Session → Session
close s = if not s.connected then s else record s { closings = s.closings + 1 }

-- What may happen to a session once a connection was begun. A handler runs if its operation is
-- outstanding.
pub data Event : Type 0 where
  handshakes : Bool → Event
  reads : Bool → Bytes → Event
  sends : Option ℕ → Bytes → Event
  sets_read_callback sets_close_callback : Bool → Event
  closes : Event

abbrev pub is_handshaking : Pending → Bool
is_handshaking handshaking = true
is_handshaking _ = false

abbrev pub is_reading : Pending → Bool
is_reading reading = true
is_reading _ = false

unfoldable pub step : Session → Event → Session
unfolding on_handshake on_read send set_read_callback set_close_callback close
step s (handshakes failed) = if is_handshaking s.pending then on_handshake s failed else s
step s (reads failed received) = if is_reading s.pending then on_read s failed received else s
step s (sends n text) = (send n s text).1
step s (sets_read_callback given) = set_read_callback s given
step s (sets_close_callback given) = set_close_callback s given
step s closes = close s

unfoldable pub steps : Session → List Event → Session
steps s [] = s
steps s (e ∷ es) = steps (step s e) es
