-- ===== src/WebSockets/Client.antt =====
-- src/WebSockets/client: a WebSocket client with a thread of its own, and its pings.
pub mod Pings
pub mod Restart
use components_network.Prelude.{
  ℕ, zero, suc, ◌+◌, ◌*◌, ◌==◌, number_key, Bytes, Bool, true, false, not, List, [], ◌∷◌, ◌++◌,
  Option, none, some, leb, u64, take, replicate, length, if◌then◌else◌,
}
use components_network.Prelude.Assoc.{find, insert, erase}
use mathlib.Core.Option

pub data DisconnectReason : Type 0 where
  normal server_closed connection_lost protocol_error : DisconnectReason

-- The value of a future: `answered` is 1 and `failed` is -1.
pub data PingResult : Type 0 where
  answered failed : PingResult

-- A future that was ready when it was returned, or that of the promise of this number.
pub data Future : Type 0 where
  ready : PingResult → Future
  promised : ℕ → Future

-- `Impl`. Promises are numbered in the order in which they are made.
pub record Client : Type 0 where
  pub connection : Option ℕ
  pub connected : Bool
  -- Is there a thread, and is it inside `run`?
  pub has_thread : Bool
  pub in_run : Bool
  -- The promise of each identifier. Its timer lives as long as its entry.
  pub pending_pings : List (ℕ × ℕ)
  pub next_ping_id : ℕ  -- uint64_t
  pub promises : ℕ
  -- What promises were set to, oldest first.
  pub settled : List (ℕ × PingResult)
  -- How many texts the open handler sent, and the codes that connections were closed with.
  pub greetings : ℕ
  pub closings : List ℕ

abbrev pub new : Client
new = record {
  connection = none;
  connected = false;
  has_thread = false;
  in_run = false;
  pending_pings = [];
  next_ping_id = 0;
  promises = 0;
  settled = [];
  greetings = 0;
  closings = [];
}

-- The open handler sends two texts; `sends` tells that neither send throws.
unfoldable pub on_open : Bool → Client → ℕ → Client
on_open sends d h =
    let d' = record d { connection = some h; connected = true } in
    if sends then record d' { greetings = d.greetings + 2 } else d'

unfoldable pub reason_of : ℕ → DisconnectReason
reason_of code =
    if code == 1000
    then normal
    else (if code == 1001
        then server_closed
        else (if code == 1002 then protocol_error else connection_lost))

-- The close handler: the client, and the reason that it makes of the code.
unfoldable pub on_close : Client → ℕ → Client × DisconnectReason
on_close d code = (record d { connected = false }, reason_of code)

unfoldable pub on_fail : Client → Client
on_fail d = record d { connected = false }

-- A promise that is found under an identifier is set and leaves the map.
abbrev pub settle_found : Client → ℕ → PingResult → Option ℕ → Client
settle_found d id r none = d
settle_found d id r (some p) = record d {
  pending_pings = erase id d.pending_pings;
  settled = d.settled ++ (p, r) ∷ [];
}

unfoldable pub settle : Client → ℕ → PingResult → Client
settle d id r = settle_found d id r (find id d.pending_pings)

-- The number that `memcpy` makes of the first bytes, on a little-endian machine.
abbrev pub little_endian : Bytes → ℕ
little_endian [] = 0
little_endian (b ∷ bs) = b + 256 * little_endian bs

-- The pong handler.
unfoldable pub on_pong : Client → Bytes → Client
unfolding settle
on_pong d payload =
    if leb 8 (length payload) then settle d (little_endian (take 8 payload)) answered else d

-- The handler of a timer that was not cancelled.
unfoldable pub on_timeout : Client → ℕ → Client
unfolding settle
on_timeout d id = settle d id failed

-- `std::copy_n` between arrays: `none` where it reads or writes outside of them.
unfoldable pub copy_n : ℕ → List ℕ → List ℕ → Option (List ℕ)
copy_n zero from to = some to
copy_n (suc n) [] to = none
copy_n (suc n) (x ∷ from) [] = none
copy_n (suc n) (x ∷ from) (y ∷ to) = Option.map (λ rest. x ∷ rest) (copy_n n from to)

-- The block of `ping`, before its copy, that enters a new promise under the next identifier. An entry that is there
-- already is replaced, with its timer.
unfoldable pub register : Client → Client
register d = record d {
  next_ping_id = u64 (d.next_ping_id + 1);
  pending_pings = insert d.next_ping_id d.promises d.pending_pings;
  promises = d.promises + 1;
}

pub data Outcome : Type 0 where
  returns : Future → Outcome
  throws undefined_behaviour : Outcome

-- The end of `ping`, for what `id` was overwritten with. `fails` is whether the send fails.
abbrev pub finish_ping : Bool → Client → ℕ → Option (List ℕ) → Outcome × Client
finish_ping fails d p (some (id ∷ [])) =
    (returns (promised p), if fails then settle d id failed else d)
finish_ping fails d p _ = (undefined_behaviour, d)

-- `ping`. The payload is `bytes` zeros and a terminating one. The copy goes from it to `id`, one
-- array element for each character.
unfoldable pub ping : Bool → Client → ℕ → Outcome × Client
unfolding register settle copy_n
ping fails d bytes =
    if not d.connected
    then (returns (ready failed), d)
    else (if leb 8 bytes
        then (throws, d)
        else finish_ping fails (register d) d.promises
            (copy_n 8 (replicate (bytes + 1) 0) (d.next_ping_id ∷ [])))

-- `connect`, for what `get_connection` answers. The thread is made once.
unfoldable pub connect : Bool → Client → Client
connect fails d =
    if fails then d else (if d.has_thread then d else record d { has_thread = true; in_run = true })

abbrev pub close_code : DisconnectReason → ℕ
close_code normal = 1000
close_code server_closed = 1001
close_code protocol_error = 1002
close_code connection_lost = 1006

unfoldable pub disconnect : Client → DisconnectReason → Client
disconnect d reason =
    if not d.connected
    then d
    else record d { connected = false; closings = d.closings ++ close_code reason ∷ [] }

-- `isConnected`.
abbrev pub is_connected : Client → Bool
is_connected d = d.connected

-- `sendText`, `sendJson` and `sendBinary`, which end without the result that they are declared to
-- return, and the setters of callbacks, which drop them.
abbrev pub send_text : Client → Bytes → Outcome × Client
send_text d data' = (undefined_behaviour, d)

abbrev pub send_json : Client → Bytes → Outcome × Client
send_json d data' = (undefined_behaviour, d)

abbrev pub send_binary : Client → Bytes → Outcome × Client
send_binary d data' = (undefined_behaviour, d)

abbrev pub set_receive_callback : Client → Bool → Client
set_receive_callback d given = d

abbrev pub set_receive_byte_callback : Client → Bool → Client
set_receive_byte_callback d given = d

-- The destructor: the client is disconnected, and its thread stopped and joined. The promises that
-- are left are broken.
unfoldable pub destroy : Client → Client
unfolding disconnect
destroy d = record (disconnect d normal) { has_thread = false; in_run = false; pending_pings = [] }

-- What may happen to a client, but for `ping`: on a client without a connection it changes nothing,
-- and otherwise it does not return. The handlers run on the thread; its `run` returns when it has
-- nothing to wait for.
pub data Event : Type 0 where
  connects : Bool → Event
  disconnects : DisconnectReason → Event
  opens : Bool → ℕ → Event
  closes : ℕ → Event
  connection_fails runs_dry : Event
  pongs : Bytes → Event
  times_out : ℕ → Event

-- The events on the thread, while it is inside `run`.
abbrev pub handle : Client → Event → Client
handle d (opens sends h) = on_open sends d h
handle d (closes code) = (on_close d code).0
handle d connection_fails = on_fail d
handle d runs_dry = record d { in_run = false }
handle d (pongs payload) = on_pong d payload
handle d (times_out id) = on_timeout d id
handle d _ = d

unfoldable pub step : Client → Event → Client
unfolding connect disconnect on_open on_close on_fail on_pong on_timeout
step d (connects fails) = connect fails d
step d (disconnects reason) = disconnect d reason
step d e = if d.in_run then handle d e else d

unfoldable pub steps : Client → List Event → Client
steps d [] = d
steps d (e ∷ es) = steps (step d e) es
