-- ===== src/Http/Server.antt =====
-- src/HTTP/server: the processors of the targets, and the server that accepts the connections.
pub mod Routing
pub mod Registration
pub mod Routes
pub mod Running
use components_network.Prelude.{
  ℕ, ◌+◌, ◌≡◌, String, string_key, number_key, ◌==◌, Bool, true, false, not, ◌&&◌, List, [], ◌∷◌,
  ◌++◌, map, Option, none, some, if◌then◌else◌,
}
use components_network.Prelude.Assoc.{find, insert}
use components_network.Http.Types.{MethodType, get, put, post, delete, method_key, Packet, Reasons}
use components_network.Http.Socket.{ErrorCode, success, is_error, Kind, plain, secure, Socket}
use components_network.Http.Session.{
  Reply, response, error_response, RequestProcessor, Session, not_found, not_implemented,
  handle_requests,
}
use components_network.Http.Session

-- A target's processor, by the packets that it answers with.
abbrev pub TargetProcessor : Type 0
TargetProcessor = Packet → List Packet

abbrev pub MethodProcessors : Type 0
MethodProcessors = List (MethodType × TargetProcessor)

abbrev pub Processors : Type 0
Processors = List (String × MethodProcessors)

-- `m_processors[target]`: a target that is missing is entered with no method.
abbrev pub methods_of : Option MethodProcessors → MethodProcessors
methods_of none = []
methods_of (some ms) = ms

-- `m_processors[target][method] = cbk`, for the four setters.
unfoldable pub set_handler : MethodType → Processors → String → TargetProcessor → Processors
set_handler method ps target cbk =
    insert target (insert method cbk (methods_of (find target ps))) ps

unfoldable pub set_get_handler : Processors → String → TargetProcessor → Processors
unfolding set_handler
set_get_handler = set_handler get

unfoldable pub set_post_handler : Processors → String → TargetProcessor → Processors
unfolding set_handler
set_post_handler = set_handler post

unfoldable pub set_put_handler : Processors → String → TargetProcessor → Processors
unfolding set_handler
set_put_handler = set_handler put

unfoldable pub set_delete_handler : Processors → String → TargetProcessor → Processors
unfolding set_handler
set_delete_handler = set_handler delete

-- The second look-up of `handleMethod`, in the methods of the target.
unfoldable pub reply_by : Option TargetProcessor → Packet → List Reply
reply_by none pkt = error_response not_found ∷ []
reply_by (some process) pkt = map response (process pkt)

unfoldable pub handle_target : Option MethodProcessors → Packet → MethodType → List Reply
unfolding reply_by
handle_target none pkt method = error_response not_implemented ∷ []
handle_target (some ms) pkt method = reply_by (find method ms) pkt

-- `handleMethod`, the processor that the server gives a connection for each method.
unfoldable pub handle_method : Processors → Packet → MethodType → List Reply
unfolding handle_target
handle_method ps pkt method = handle_target (find pkt.target ps) pkt method

-- `addMethod` for the four methods, onto the empty map of a new connection.
unfoldable pub method_processors : Processors → List (MethodType × RequestProcessor)
unfolding handle_method
method_processors ps =
    insert delete (λ pkt. handle_method ps pkt delete)
      (insert post (λ pkt. handle_method ps pkt post)
        (insert put (λ pkt. handle_method ps pkt put)
          (insert get (λ pkt. handle_method ps pkt get) [])))

-- `Impl`, and the server around it. The processors are shared with the connections by reference.
pub record Impl : Type 0 where
  pub port : ℕ  -- uint16_t
  pub thread_count : ℕ  -- uint16_t
  pub is_secure : Bool
  pub accepting : Bool
  -- `m_ioc.stopped()`.
  pub stopped : Bool
  pub connections : List Session

pub record Server : Type 0 where
  pub server_name : String
  pub cert_file : String
  pub processors : Processors
  pub impl : Option Impl

unfoldable pub new : String → String → Server
new name cert_file = record {
  server_name = name;
  cert_file = cert_file;
  processors = [];
  impl = none;
}

-- `start`, up to `m_ioc.run()`. The constructor of `Impl` throws (`none`) if the address cannot be
-- bound or the certificate cannot be read; `ready` tells that it does not.
unfoldable pub start : Bool → Server → ℕ → ℕ → Option Server
start ready d port thread_count =
    if ready
    then some (record d {
      impl = some (record {
        port = port;
        thread_count = thread_count;
        is_secure = not (d.cert_file == "");
        accepting = true;
        stopped = false;
        connections = [];
      });
    })
    else none

abbrev pub runs : Option Impl → Bool
runs none = false
runs (some i) = not i.stopped

unfoldable pub is_running : Server → Bool
is_running d = runs d.impl

unfoldable pub stop : Server → Server
unfolding is_running
stop d = if is_running d then record d { impl = none } else d

-- The destructor.
unfoldable pub destroy : Server → Server
unfolding stop
destroy d = stop d

abbrev pub kind_of : Bool → Kind
kind_of true = secure
kind_of false = plain

-- A connection with its four processors.
unfoldable pub connection : String → Processors → Bool → ℕ → Session
unfolding method_processors Session.new
connection name ps is_secure now =
    record (Session.new name (record { kind = kind_of is_secure; is_open = true }) now) {
      processors = method_processors ps;
    }

-- The handler of `async_accept` in `handleConnections`, at the time `now`: it accepts again in
-- either case.
unfoldable pub on_accept : Server → Impl → ErrorCode → ErrorCode → ℕ → Impl
unfolding connection handle_requests
on_accept d i ec handshake now = if is_error ec then record i { accepting = true } else record i {
  accepting = true;
  connections =
      i.connections
      ++ handle_requests handshake (connection d.server_name d.processors i.is_secure now) ∷ [];
}
