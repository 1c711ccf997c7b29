-- ===== src/Http/Session.antt =====
-- src/HTTP/connectionsession: one client's connection on the server.
pub mod Answers
pub mod Deadline
pub mod Writing
use components_network.Prelude.{
  ℕ, ◌+◌, ◌≡◌, String, ◌==◌, Bool, true, false, not, ◌&&◌, ◌||◌, List, [], ◌∷◌, ◌++◌, Option, none,
  some, leb, if◌then◌else◌,
}
use components_network.Prelude.Assoc.{find}
use components_network.Http.Types.{
  MethodType, get, put, post, delete, method_key, BodyType, undefined, Packet, fresh, to_string,
  from_string, Reasons, create_error_packet,
}
use components_network.Http.Socket.{
  ErrorCode, success, not_connected, eof, stream_truncated, operation_aborted, connection_reset,
  would_block, try_again, value_1, other_error, is_error, Kind, plain, secure, Socket, Shutdown,
  close_socket,
}
use components_network.Http.Client.{Verb, verb_get, verb_put, verb_post, verb_delete}

-- What a processor does with the connection: `sendResponse` and `sendErrorResponse`.
pub data Reply : Type 0 where
  response : Packet → Reply
  error_response : ℕ → Reply

-- A processor, by the replies that it makes.
abbrev pub RequestProcessor : Type 0
RequestProcessor = Packet → List Reply

-- What `m_request` may hold; its verb is `none` if it is none of the four.
pub record Message : Type 0 where
  pub verb : Option Verb
  pub target : String
  pub content_type : Option String
  pub body : String

-- A response that was handed to `async_write`.
pub record Answer : Type 0 where
  pub version : ℕ
  pub server : String
  pub content_type : String
  pub status : ℕ
  pub body : String

pub record Session : Type 0 where
  pub processors : List (MethodType × RequestProcessor)
  pub socket : Socket
  pub response_error_packet : Packet
  pub self_server_name : String
  -- When the timer expires, and whether a wait for it is outstanding.
  pub deadline : ℕ
  pub waiting : Bool
  -- Is an asynchronous read outstanding?
  pub reading : Bool
  -- What the last read left; it is not cleared before the next one.
  pub request : Message
  pub sent : List Answer

-- The files that can be opened, by their path, with their content.
abbrev pub Files : Type 0
Files = String → Option String

-- Ten seconds, in the unit of `now`.
abbrev pub timeout_sec : ℕ
timeout_sec = 10

unfoldable pub new : String → Socket → ℕ → Session
new name sock now = record {
  processors = [];
  socket = sock;
  response_error_packet = fresh;
  self_server_name = name;
  deadline = now + timeout_sec;
  waiting = false;
  reading = false;
  request = record { verb = none; target = ""; content_type = none; body = "" };
  sent = [];
}

abbrev pub is_connected : Session → Bool
is_connected s = s.socket.is_open

-- The end of `sendResponse`: the settings that both kinds of response share.
unfoldable pub write : Session → Packet → String → Session
write s pkt content = record s {
  sent =
      s.sent
      ++ record {
        version = 11;
        server = s.self_server_name;
        content_type = to_string pkt.body_type;
        status = pkt.status_code;
        body = content;
      }
        ∷ [];
}

-- `sendErrorResponse`: the packet that it sends is no file.
unfoldable pub send_error_response : Reasons → Session → ℕ → Session
unfolding write create_error_packet
send_error_response reason s status =
    let e = create_error_packet reason status in
    write (record s { response_error_packet = e }) e e.body

-- Statuses by their names in `http::status`.
abbrev pub bad_request : ℕ
bad_request = 400

abbrev pub not_found : ℕ
not_found = 404

abbrev pub method_not_allowed : ℕ
method_not_allowed = 405

abbrev pub not_implemented : ℕ
not_implemented = 501

abbrev pub gateway_timeout : ℕ
gateway_timeout = 504

unfoldable pub send_response : Files → Reasons → Session → Packet → Session
unfolding send_error_response write
send_response files reason s pkt =
    if pkt.is_file
    then elim (files pkt.target) [
      | none ↦ send_error_response reason s bad_request
      | some content ↦ write s pkt content
    ]
    else write s pkt pkt.body

unfoldable pub close_connection : Shutdown → Session → Session
unfolding close_socket
close_connection codes s =
    if not (is_connected s)
    then record s { waiting = false }
    else record s { waiting = false; socket = (close_socket codes s.socket).0 }

-- `checkDeadline`: the wait that was outstanding is cancelled, and a new one for the same time is
-- begun.
unfoldable pub check_deadline : Session → Session
check_deadline s = record s { waiting = true }

-- The handler of that wait, when the timer has expired.
unfoldable pub on_deadline : Files → Reasons → Shutdown → Session → Session
unfolding send_response close_connection
on_deadline files reason codes s =
    let e = record s.response_error_packet { status_code = gateway_timeout } in
    close_connection codes
      (send_response files reason (record s { waiting = false; response_error_packet = e }) e)

-- The timer at the time `now`.
unfoldable pub tick : Files → Reasons → Shutdown → ℕ → Session → Session
unfolding on_deadline
tick files reason codes now s =
    if s.waiting && leb s.deadline now then on_deadline files reason codes s else s

-- `ec && (ec != stream_truncated)`.
abbrev pub handshake_fails : ErrorCode → Bool
handshake_fails success = false
handshake_fails stream_truncated = false
handshake_fails _ = true

abbrev pub is_secure : Kind → Bool
is_secure plain = false
is_secure secure = true

-- `handleRequests`, up to the beginning of the read; `handshake` is what the TLS layer answers. Behind a
-- handshake that fails the connection is shut down, which leaves the socket open and the state as it is;
-- what the call throws where the other side is gone already is not modelled.
unfoldable pub handle_requests : ErrorCode → Session → Session
unfolding check_deadline
handle_requests handshake s =
    if is_secure s.socket.kind && handshake_fails handshake
    then s
    else check_deadline (record s { reading = true })

-- The codes on which the handler of the read returns in silence.
abbrev pub is_silent : ErrorCode → Bool
is_silent not_connected = true
is_silent eof = true
is_silent connection_reset = true
is_silent stream_truncated = true
is_silent operation_aborted = true
is_silent value_1 = true
is_silent _ = false

-- The switch over the verb. Its default branch leaves the variable as it was found.
abbrev pub method_of : MethodType → Option Verb → MethodType
method_of indeterminate none = indeterminate
method_of indeterminate (some verb_get) = get
method_of indeterminate (some verb_put) = put
method_of indeterminate (some verb_post) = post
method_of indeterminate (some verb_delete) = delete

abbrev pub type_of : Option String → BodyType
type_of none = undefined
type_of (some t) = from_string t

unfoldable pub packet_of : Message → Packet
packet_of m = record fresh { target = m.target; body = m.body; body_type = type_of m.content_type }

abbrev pub perform : Files → Reasons → Session → List Reply → Session
perform files reason s [] = s
perform files reason s (response pkt ∷ rs) =
    perform files reason (send_response files reason s pkt) rs
perform files reason s (error_response status ∷ rs) =
    perform files reason (send_error_response reason s status) rs

-- What the processors make of a request; without one for the method, 405.
unfoldable pub replies_to : List (MethodType × RequestProcessor) → MethodType → Packet → List Reply
replies_to processors method request = elim (find method processors) [
  | none ↦ error_response method_not_allowed ∷ []
  | some process ↦ process request
]

-- What surrounds one call of the handler: the answers of the layers below, the files, and the value
-- that the variable for the method happens to have.
pub record Surroundings : Type 0 where
  pub files : Files
  pub reason : Reasons
  pub shutdown : Shutdown
  pub handshake : ErrorCode
  pub indeterminate : MethodType

-- The handler of the read, with what Beast left in `m_request`, of what it found there and what it got.
unfoldable pub on_read : Surroundings → Session → ErrorCode → Message → Session
unfolding close_connection handle_requests packet_of replies_to
on_read w s ec m =
    if is_silent ec
    then record s { reading = false; request = m }
    else (if is_error ec
        then close_connection w.shutdown (record s { reading = false; request = m })
        else handle_requests w.handshake (
            perform w.files w.reason (record s { reading = false; request = m })
              (replies_to s.processors (method_of w.indeterminate m.verb) (packet_of m))))
