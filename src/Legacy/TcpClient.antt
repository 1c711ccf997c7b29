-- ===== src/Legacy/TcpClient.antt =====
-- Legacy/tcpclientinstance: the client of the Qt server, and how it speaks with a worker.
pub mod RoundTrip
use components_network.Prelude.{
  ℕ, zero, suc, ltb, Bool, true, false, not, List, [], ◌∷◌, Option, none, some, if◌then◌else◌,
  Bytes, length,
}
use components_network.Legacy.Exchange.{Packet, Codec, fresh, from_bytes, to_bytes}

-- The signals of the client.
pub data Signal : Type 0 where
  connected : Signal
  disconnected : Signal
  got_packet : Packet → Signal

-- `TcpCLientInstanceQ::Impl`, the state of its socket, and the signals that were emitted, the last
-- one first.
pub record Client : Type 0 where
  pub connection_timeout : ℕ
  pub send_timeout : ℕ
  pub socket_connected : Bool
  pub done : Bool
  pub response_got : Bool
  pub read_buf : Bytes
  pub response : Packet
  pub host_address : Bytes
  pub server_port : ℕ
  pub emitted : List Signal

abbrev pub new : Bytes → Client
new localhost = record {
  connection_timeout = 1000;
  send_timeout = 100;
  socket_connected = false;
  done = false;
  response_got = false;
  read_buf = [];
  response = fresh;
  host_address = localhost;
  server_port = 8000;
  emitted = [];
}

abbrev pub is_connected : Client → Bool
is_connected d = d.socket_connected

abbrev pub emit : Signal → Client → Client
emit s d = record d { emitted = s ∷ d.emitted }

-- `setupServer`.
unfoldable pub setup_server : Bytes → ℕ → Client → Client
setup_server address port d =
    if not (is_connected d) then record d { host_address = address; server_port = port } else d

unfoldable pub set_connection_timeout : ℕ → Client → Client
set_connection_timeout timeout d = record d { connection_timeout = timeout }

unfoldable pub set_send_timeout : ℕ → Client → Client
set_send_timeout timeout d = record d { send_timeout = timeout }

-- `connect`, for what `waitForConnected` answers.
unfoldable pub connect : Bool → Client → Client
connect established d =
    let d1 = record d { socket_connected = established } in
    let d2 = record d1 { done = not (is_connected d1) } in
    if is_connected d
    then d
    else (if not established then d1 else (if not d2.done then emit connected d2 else d2))

-- `onFail`, which the socket calls when it is disconnected.
unfoldable pub on_fail : Client → Client
on_fail d = emit disconnected d

-- The socket is disconnected.
unfoldable pub drop_connection : Client → Client
drop_connection d = if is_connected d then on_fail (record d { socket_connected = false }) else d

-- `disconnect`: is the socket closed before the timeout?
unfoldable pub disconnect : Bool → Client → Client
disconnect closes d =
    let d1 = record d { done = true } in
    let d2 = if closes then drop_connection d1 else d1 in
    if not (is_connected d) then d else (if not (is_connected d2) then emit disconnected d2 else d2)

-- The destructor, whose own `disconnect` is called with the signal of the socket unconnected.
unfoldable pub destroy : Bool → Client → Client
destroy closes d =
    let d1 = record d { done = true } in
    let d2 = if closes then record d1 { socket_connected = false } else d1 in
    if not (is_connected d) then d else (if not (is_connected d2) then emit disconnected d2 else d2)

abbrev pub is_empty : Bytes → Bool
is_empty [] = true
is_empty (c ∷ cs) = false

-- `sendMessageSlot`, with what it writes: nothing if the write fails. The wait for the bytes has no
-- effect but a line of the log.
unfoldable pub send_message_slot : Codec → Bool → Packet → Client → Client × List Bytes
send_message_slot c write_fails p d =
    let d1 = record d { response_got = false } in
    if not (is_connected d)
    then (d, [])
    else (if is_empty p.command
        then (d, [])
        else (if write_fails then (d1, []) else (d1, to_bytes c p ∷ [])))

-- `getMessage` calls itself. `none` if this many calls do not return.
unfoldable pub get_message : ℕ → Client → Option Packet
get_message zero d = none
get_message (suc fuel) d = get_message fuel d

-- `messagesAvailable`.
abbrev pub messages_available : Client → Bool
messages_available d = d.response_got

-- `onMessage`, for what the socket holds.
unfoldable pub on_message : Codec → Bytes → Client → Client
on_message c input d =
    let d1 = record d { read_buf = input } in
    let p = from_bytes c input in
    if ltb (length input) 2
    then d1
    else emit (got_packet p) (record d1 { response = p; response_got = true })
