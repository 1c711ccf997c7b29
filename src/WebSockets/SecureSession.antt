-- ===== src/WebSockets/SecureSession.antt =====
-- src/WebSockets/websocketsession: `SecureSession`, a WebSocket connection to a host over TLS, with
-- the end of its life: unlike those of `Session`, its handlers do not keep it alive.
pub mod Plain
pub mod Released
pub mod Structure
use components_network.Prelude.{
  ℕ, ◌+◌, ◌==◌, number_key, Bytes, Bool, true, false, not, ◌&&◌, List, [], ◌∷◌, ◌++◌, Option, none,
  some, if◌then◌else◌,
}
use components_network.WebSockets.Session.{
  Pending, idle, handshaking, reading, is_handshaking, is_reading,
}

-- The callbacks keep what they were called with, oldest first; `sent` and `closings` are what was
-- written, and how often the stream was closed.
pub record SecureSession : Type 0 where
  pub host : Bytes
  pub connected : Bool  -- m_isConnected
  pub pending : Pending
  pub buffer : Bytes  -- m_buffer
  pub has_read_callback : Bool
  pub has_close_callback : Bool
  pub read_calls : List Bytes
  pub close_calls : ℕ
  pub sent : List Bytes
  pub closings : ℕ

-- The constructor.
abbrev pub new : SecureSession
new = record {
  host = [];
  connected = false;
  pending = idle;
  buffer = [];
  has_read_callback = false;
  has_close_callback = false;
  read_calls = [];
  close_calls = 0;
  sent = [];
  closings = 0;
}

-- `start`: the session, and whether it throws. The name, the connection and the TLS handshake are
-- waited for, and each of them may throw.
unfoldable pub start : Bool → SecureSession → Bytes → SecureSession × Bool
start throws s host =
    let named = record s { host = host } in
    if throws then (named, true) else (record named { pending = handshaking }, false)

-- The handler that `start` gives to the WebSocket handshake.
unfoldable pub on_handshake : SecureSession → Bool → SecureSession
on_handshake s failed =
    if failed then record s { pending = idle } else record s { pending = reading; connected = true }

-- A read puts what it received behind what the buffer holds, also if it fails.
unfoldable pub on_read : SecureSession → Bool → Bytes → SecureSession
on_read s failed received =
    let all = s.buffer ++ received in
    let filled = record s { buffer = all } in
    if failed
    then (if s.has_close_callback
        then record filled { pending = idle; close_calls = s.close_calls + 1 }
        else record filled { pending = idle })
    else (if s.has_read_callback
        then record filled { read_calls = s.read_calls ++ all ∷ []; pending = reading }
        else record filled { pending = reading })

-- `send`, for what `write` gives: the number of bytes, or `none` for an exception.
unfoldable pub send : Option ℕ → SecureSession → Bytes → Option Bool × SecureSession
send none s text = (none, s)
send (some n) s text = (some (not (n == 0)), record s { sent = s.sent ++ text ∷ [] })

unfoldable pub set_read_callback : SecureSession → Bool → SecureSession
set_read_callback s given = record s { has_read_callback = given }

unfoldable pub set_close_callback : SecureSession → Bool → SecureSession
set_close_callback s given = record s { has_close_callback = given }

-- `close`: the session, and whether it throws, which it does where the stream fails to close.
unfoldable pub close : Bool → SecureSession → SecureSession × Bool
close fails s =
    if not s.connected then (s, false) else (record s { closings = s.closings + 1 }, fails)

-- A session that is destroyed keeps what was outstanding.
pub data Outcome : Type 0 where
  alive : SecureSession → Outcome
  destroyed : SecureSession → Outcome
  terminated : Outcome
  undefined_behaviour : Outcome

-- The destructor, out of which no exception gets.
unfoldable pub destroy : Bool → SecureSession → Outcome
destroy fails s = let closed = close fails s in if closed.1 then terminated else destroyed closed.0

-- What may happen to a session; it is released by its owner. A handler runs if its operation is
-- outstanding.
pub data Event : Type 0 where
  starts : Bool → Bytes → Event
  handshakes : Bool → Event
  reads : Bool → Bytes → Event
  sends : Option ℕ → Bytes → Event
  sets_read_callback sets_close_callback : Bool → Event
  closes releases : Bool → Event

-- A handler of an operation that is outstanding runs also after the session is destroyed, and uses it.
abbrev pub run_destroyed : SecureSession → Event → Outcome
run_destroyed s (handshakes failed) =
    if is_handshaking s.pending then undefined_behaviour else destroyed s
run_destroyed s (reads failed received) =
    if is_reading s.pending then undefined_behaviour else destroyed s
run_destroyed s _ = destroyed s

unfoldable pub step : Outcome → Event → Outcome
step terminated e = terminated
step undefined_behaviour e = undefined_behaviour
step (destroyed s) e = run_destroyed s e
step (alive s) (starts throws host) = alive (start throws s host).0
step (alive s) (handshakes failed) =
    alive (if is_handshaking s.pending then on_handshake s failed else s)
step (alive s) (reads failed received) =
    alive (if is_reading s.pending then on_read s failed received else s)
step (alive s) (sends n text) = alive (send n s text).1
step (alive s) (sets_read_callback given) = alive (set_read_callback s given)
step (alive s) (sets_close_callback given) = alive (set_close_callback s given)
step (alive s) (closes fails) = alive (close fails s).0
step (alive s) (releases fails) = destroy fails s

unfoldable pub steps : Outcome → List Event → Outcome
steps o [] = o
steps o (e ∷ es) = steps (step o e) es
