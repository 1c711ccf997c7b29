-- ===== src/BasicSocket.antt =====
-- src/BasicSocket/socketsession: a TCP connection that hands what it reads to a callback.
pub mod Reading
pub mod Connected
pub mod Examples
use components_network.Prelude.{
  ℕ, ◌+◌, ltb, leb, min, Bytes, Bool, true, false, not, ◌&&◌, ◌||◌, List, [], ◌∷◌, ◌++◌, take, drop,
  length, if◌then◌else◌,
}

-- `m_bufferSize`.
abbrev pub buffer_size : ℕ
buffer_size = 4096

-- `Session`. The system holds what arrived on the socket and was not read in `unread`; the callbacks
-- keep what they are called with; `written` is what went out.
pub record Session : Type 0 where
  pub host : Bytes
  pub buffer_data : Bytes
  pub is_connected : Bool
  pub has_read_callback : Bool
  pub has_close_callback : Bool
  -- Is the socket open, and is a connect or a read outstanding?
  pub is_open : Bool
  pub connecting : Bool
  pub reading : Bool
  pub unread : Bytes
  pub written : Bytes
  pub read_calls : List Bytes
  pub close_calls : ℕ

abbrev pub new : Session
new = record {
  host = [];
  buffer_data = [];
  is_connected = false;
  has_read_callback = false;
  has_close_callback = false;
  is_open = false;
  connecting = false;
  reading = false;
  unread = [];
  written = [];
  read_calls = [];
  close_calls = 0;
}

-- `start`. The resolver throws if the host cannot be resolved. `async_connect` closes the socket before
-- it tries an address, and what was not read of an earlier connection is lost.
unfoldable pub start : Bool → Bytes → Session → Session
start resolver_throws host s =
    if resolver_throws
    then record s { host = host }
    else record s { host = host; connecting = true; is_open = false; unread = [] }

-- `read`.
unfoldable pub read : Session → Session
read s = record s { reading = true }

-- The handler of the connect.
unfoldable pub on_connect : Bool → Session → Session
unfolding read
on_connect ec s =
    let s' = record s { connecting = false } in
    if ec then s' else record (read (record s' { is_open = true })) { is_connected = true }

-- A read stores what it gives over the beginning of the buffer.
abbrev pub store : Bytes → Bytes → Bytes
store received buffer = received ++ drop (length received) buffer

-- The handler of the read: for an error, or for the number of characters that the system gives, out of
-- those that it has and at most a buffer of them.
unfoldable pub on_read : Bool → ℕ → Session → Session
unfolding read
on_read ec given s =
    let size = min given buffer_size in
    let s1 = record s {
      reading = false;
      buffer_data = store (take size s.unread) s.buffer_data;
      unread = drop size s.unread;
    } in
    let response = take (length (take size s.unread)) s1.buffer_data in
    if ec
    then record s { reading = false }
    else read (
        if s.has_read_callback
        then record s1 { read_calls = s.read_calls ++ response ∷ [] }
        else s1)

-- `send`: the session and the result, for how many characters of the line `write_some` writes.
unfoldable pub send : ℕ → Bytes → Session → Session × Bool
send count text s =
    let gone = take count (text ++ 10 ∷ []) in
    (record s { written = s.written ++ gone }, ltb 0 (length gone))

-- `setReadCallback` and `setCloseCallback`.
unfoldable pub set_read_callback : Bool → Session → Session
set_read_callback given s = record s { has_read_callback = given }

unfoldable pub set_close_callback : Bool → Session → Session
set_close_callback given s = record s { has_close_callback = given }

-- `close`, for whether `cancel` or `shutdown` throws: the calls behind are not made then. Outstanding
-- operations end with an error, and what was not read is lost.
unfoldable pub close : Bool → Bool → Session → Session
close cancel_throws shutdown_throws s =
    if cancel_throws || shutdown_throws then s else record s { is_open = false; unread = [] }

-- What may happen: data arrives in order, on a socket that is open.
pub data Event : Type 0 where
  starts : Bool → Bytes → Event
  connects : Bool → Event
  arrives : Bytes → Event
  reads : Bool → ℕ → Event
  sends : ℕ → Bytes → Event
  sets_read_callback : Bool → Event
  sets_close_callback : Bool → Event
  closes : Bool → Bool → Event

unfoldable pub step : Session → Event → Session
step s (starts resolver_throws host) = start resolver_throws host s
step s (connects ec) = if s.connecting then on_connect ec s else s
step s (arrives more) = if s.is_open then record s { unread = s.unread ++ more } else s
step s (reads ec given) =
    if s.reading && (ec || ltb 0 (length (take given s.unread))) then on_read ec given s else s
step s (sends count text) = (send count text s).0
step s (sets_read_callback given) = set_read_callback given s
step s (sets_close_callback given) = set_close_callback given s
step s (closes cancel_throws shutdown_throws) = close cancel_throws shutdown_throws s

unfoldable pub steps : Session → List Event → Session
steps s [] = s
steps s (e ∷ es) = steps (step s e) es
