-- ===== src/Http/Client.antt =====
-- src/HTTP/client: the blocking and the asynchronous requests of one client.
pub mod Connection
pub mod Requests
pub mod Files
pub mod Lifetime
use components_network.Prelude.{
  ℕ, ◌*◌, ◌≡◌, String, string_key, number_key, ◌==◌, Bool, true, false, not, ◌&&◌, List, [], ◌∷◌,
  ◌++◌, Option, none, some, if◌then◌else◌,
}
use components_network.Http.Types.{
  MethodType, get, put, post, delete, BodyType, undefined, bytes, Packet, fresh, to_string,
  from_string,
}
use components_network.Http.Socket.{
  ErrorCode, success, not_connected, eof, stream_truncated, operation_aborted, connection_reset,
  would_block, try_again, value_1, other_error, is_error, Kind, plain, secure, Socket, Shutdown,
  close_socket,
}

-- Boost.Beast's verbs that the client sends.
pub data Verb : Type 0 where
  verb_get verb_put verb_post verb_delete : Verb

-- The switch over the method: `none` is its default branch.
unfoldable pub verb_of : MethodType → Option Verb
verb_of get = some verb_get
verb_of put = some verb_put
verb_of post = some verb_post
verb_of delete = some verb_delete
verb_of (MethodType.other n) = none

-- What is sent, and what comes back. An answer that could not be read is what is left of it.
pub record Request : Type 0 where
  pub verb : Verb
  pub target : String
  pub user_agent : String
  pub host : String
  pub content_type : Option String
  pub accept : Option String
  pub body : String

pub record Response : Type 0 where
  pub status : ℕ
  pub content_type : Option String
  pub body : String

-- `Impl`, less the contexts, the thread and the logging. `to_decimal` below is `std::to_string`.
pub record Client : Type 0 where
  pub socket : Socket
  pub verify_certificate : Option Bool
  pub host : String
  pub port : String
  pub is_logging_enabled : Bool
  pub client_name : String
  pub max_file_size : ℕ  -- uint32_t
  -- The requests that were handed to `http::write`, oldest first.
  pub sent : List Request

abbrev pub kind_of : Bool → Kind
kind_of true = secure
kind_of false = plain

-- The constructors: a TLS client also keeps whether it verifies certificates.
unfoldable pub new : Bool → Bool → Client
new is_secure verify = record {
  socket = record { kind = kind_of is_secure; is_open = false };
  verify_certificate = if is_secure then some verify else none;
  host = "";
  port = "";
  is_logging_enabled = false;
  client_name = "TestApp";
  max_file_size = 1024 * 1024 * 1024;
  sent = [];
}

unfoldable pub set_logging_enabled : Client → Bool → Client
set_logging_enabled d en = record d { is_logging_enabled = en }

unfoldable pub set_client_name : Client → String → Client
set_client_name d name = record d { client_name = name }

unfoldable pub set_max_file_size : Client → ℕ → Client
set_max_file_size d n = record d { max_file_size = n }

unfoldable pub set_host : (ℕ → String) → Client → String → ℕ → Client
set_host to_decimal d host port = record d { host = host; port = to_decimal port }

-- The answers of the network and of the TLS layer to one call.
pub record Network : Type 0 where
  -- `receive` with `message_peek`, once it returns: on a blocking socket that is open it waits for data
  -- or for the end of the connection.
  pub peek : ErrorCode
  pub resolves : Bool  -- `resolve` throws if not
  pub accepts_host_name : Bool  -- SSL_set_tlsext_host_name
  pub connect : ErrorCode
  pub leaves_open : Bool  -- is the socket open behind `connect`?
  pub handshake : ErrorCode
  pub shutdown : Shutdown
  pub write : ErrorCode
  pub read : ErrorCode
  pub response : Response

-- `none` is an exception of type `system_error`.
abbrev pub Outcome : Type 0 → Type 0
Outcome A = Option A

-- `tryRead`.
abbrev pub try_read : ErrorCode → Bool
try_read success = true
try_read would_block = true
try_read try_again = true
try_read _ = false

-- `isConnected`, for what the peek gives when it returns.
unfoldable pub is_connected : Network → Socket → Bool
is_connected net s = if not s.is_open then false else try_read net.peek

-- The branches of `connectToHost` behind its test: the socket, and the outer `ec`. The code of the
-- handshake replaces that of the connection. Where the host name is refused, the code of the failure
-- goes to an `ec` of the inner block.
unfoldable pub connect_by_kind : Network → Kind → Socket → Socket × ErrorCode
connect_by_kind net plain s = (record s { is_open = net.leaves_open }, net.connect)
connect_by_kind net secure s =
    if net.accepts_host_name
    then (record s { is_open = net.leaves_open }, net.handshake)
    else (s, success)

unfoldable pub connect_to_host : Network → Socket → Outcome (Socket × Bool)
unfolding is_connected connect_by_kind
connect_to_host net s =
    if is_connected net s
    then some (s, true)
    else (if not net.resolves
        then none
        else (let (s', ec) = connect_by_kind net s.kind s in some (s', not (is_error ec))))

unfoldable pub disconnect_from_host : Network → Socket → Socket × Bool
unfolding is_connected close_socket
disconnect_from_host net s =
    if not (is_connected net s) then (s, true) else close_socket net.shutdown s

-- The destructor, less the thread of the default context, which it stops and joins.
unfoldable pub destroy : Network → Client → Client
unfolding disconnect_from_host
destroy net d = record d { socket = (disconnect_from_host net d.socket).0 }

-- The request of `request` and `requestAsync`.
unfoldable pub packet_request : Client → Verb → Packet → Request
packet_request d v pkt = record {
  verb = v;
  target = pkt.target;
  user_agent = d.client_name;
  host = d.host;
  content_type = some (to_string pkt.body_type);
  accept = some (to_string pkt.acceptable_type);
  body = pkt.body;
}

-- The type that the answer states, or `otherwise`.
abbrev pub stated_type : Option String → BodyType → BodyType
stated_type none otherwise = otherwise
stated_type (some t) otherwise = from_string t

-- The answer, written over the packet of the request, and as a packet of its own.
unfoldable pub answer_in_place : Packet → Response → Packet
answer_in_place pkt res = record pkt {
  status_code = res.status;
  body_type = stated_type res.content_type pkt.body_type;
  body = res.body;
}

unfoldable pub answer_fresh : Packet → Response → Packet
answer_fresh pkt res = record fresh {
  target = pkt.target;
  acceptable_type = pkt.acceptable_type;
  status_code = res.status;
  body_type = stated_type res.content_type undefined;
  body = res.body;
}

-- Writing a request, behind a connection that is there.
abbrev pub sending : Client → Socket → Request → Client
sending d s req = record d { socket = s; sent = d.sent ++ req ∷ [] }

-- `ec` behind the write and the read.
abbrev pub exchange : Network → ErrorCode
exchange net = if is_error net.write then net.write else net.read

-- A call that needs a connection: an exception of `connectToHost` goes on, a refusal gives
-- `refused`, and otherwise the call goes on with the socket.
unfoldable pub with_connection {ℓ} :
    {A : Type ℓ} → Network → Client → A → (Socket → Option A × Client) → Option A × Client
with_connection net d refused next = elim (connect_to_host net d.socket) [
  | none ↦ (none, d)
  | some (s, connected) ↦ if connected then next s else (some refused, record d { socket = s })
]

-- `request(method, Packet&&)`.
unfoldable pub request_moved : Network → Client → MethodType → Packet → Outcome Packet × Client
unfolding verb_of with_connection packet_request answer_in_place
request_moved net d method pkt = elim (verb_of method) [
  | none ↦ (some fresh, d)
  | some v ↦ with_connection net d fresh λ s. (
    (if is_error (exchange net) then some fresh else some (answer_in_place pkt net.response)),
    sending d s (packet_request d v pkt),
  )
]

-- `request(method, const Packet&)`: here a failed write or read throws.
unfoldable pub request_copied : Network → Client → MethodType → Packet → Outcome Packet × Client
unfolding verb_of with_connection packet_request answer_fresh
request_copied net d method pkt = elim (verb_of method) [
  | none ↦ (some fresh, d)
  | some v ↦ with_connection net d fresh λ s. (
    (if is_error (exchange net) then none else some (answer_fresh pkt net.response)),
    sending d s (packet_request d v pkt),
  )
]

-- The handlers of `requestAsync`: what they call the callback with, in their order. The handler of
-- the read does not return behind an error.
unfoldable pub async_calls : Network → Packet → List (Option Packet)
unfolding answer_fresh
async_calls net pkt =
    if is_error net.write
    then none ∷ []
    else (if is_error net.read
        then none ∷ some (answer_fresh pkt net.response) ∷ []
        else some (answer_fresh pkt net.response) ∷ [])

-- `requestAsync`, up to the end of its handlers: the calls of the callback.
unfoldable pub request_async :
    Network → Client → MethodType → Packet → Bool → Outcome (List (Option Packet)) × Client
unfolding verb_of with_connection packet_request async_calls
request_async net d method pkt has_callback = elim (verb_of method) [
  | none ↦ (some [], d)
  | some v ↦ with_connection net d [] λ s. (
    some (if has_callback then async_calls net pkt else []),
    sending d s (packet_request d v pkt),
  )
]
