-- ===== src/Http/Examples.antt =====
-- Runs of the HTTP client and server against a network whose answers are written out.
mod Running
mod Transfers
mod Lifetimes
mod Async
mod Waiting
mod Writing
use components_network.Prelude.{
  ◌≡◌, ◌⊎◌, ◌↔◌, refl, string_key, true, false, List, [], ◌∷◌, Option, none, some, length, arith,
}
use components_network.Prelude.Assoc.{find, insert}
use components_network.Http.Types.{
  get, post, method_key, Packet, fresh, to_string, from_string, json, undefined,
}
use components_network.Http.Socket.{success, eof, other_error, is_error, secure, Socket}
use components_network.Http.Client
use components_network.Http.Client.{
  Network, Response, verb_of, verb_get, verb_delete, Client, connect_to_host, connect_by_kind,
  is_connected, disconnect_from_host, set_host, with_connection, request_moved, request_copied,
  request_async, packet_request,
}
use components_network.Http.Client.Connection.{Connects, connect_to_host-Connects}
use components_network.Http.Client.Files.{SavedFile, download_file, download_file_lem}
use components_network.Http.Client.Requests.{
  Agrees, request_moved-request_copied, request_async_calls,
}
use components_network.Http.Session
use components_network.Http.Session.{
  tick, Session, Answer, Message, Surroundings, Reply, response, error_response, on_read, not_found,
  packet_of, handle_requests, method_of, perform, replies_to, send_response,
}
use components_network.Http.Session.Deadline.{
  Event, serves, begins, reads, ticks, step, run, TimesOut, run-TimesOut,
}
use components_network.Http.Exchange.{response_of, answered_by, returned, request_copied-on_read}
use components_network.Http.Server.{Processors, set_handler, handle_method, method_processors}
use components_network.Http.Server.Routing.{
  handle_method-set_handler, Answers, on_read-handle_method, on_read_other_verb,
}

abbrev tls_client : Client
tls_client = Client.new true false

-- A network on which all goes well, one that refuses the host name, one on which nothing can be
-- read.
abbrev reachable : Network
reachable = record {
  peek = success;
  resolves = true;
  accepts_host_name = true;
  connect = success;
  leaves_open = true;
  handshake = success;
  shutdown = record { tls = eof; tcp = success };
  write = success;
  read = success;
  response = record { status = 200; content_type = some "application/json"; body = "{}" };
}

abbrev refusing : Network
refusing = record reachable { accepts_host_name = false }

abbrev unreadable : Network
unreadable = record reachable { read = other_error }

abbrev open_socket : Socket
open_socket = record { kind = secure; is_open = true }

abbrev closed_socket : Socket
closed_socket = record { kind = secure; is_open = false }

-- The packet that the request for `/` gives on the good network.
abbrev answered : Packet
answered = record fresh { body_type = json; body = "{}"; status_code = 200 }

abbrev around : Surroundings
around = record {
  files = λ path. none;
  reason = λ status. "reason";
  shutdown = record { tls = eof; tcp = success };
  handshake = success;
  indeterminate = post;
}

-- A server with one processor, and a connection to it.
abbrev greet : Packet → List Packet
greet pkt = record fresh { body = "hello"; status_code = 200 } ∷ []

abbrev processors : Processors
processors = ("/hello", (get, greet) ∷ []) ∷ []

abbrev served : Session
served = record (Session.new "test" open_socket 7) { processors = method_processors processors }

abbrev asks : Message
asks = record { verb = some verb_get; target = "/hello"; content_type = none; body = "" }

-- A client that connects to the server asks for `/hello`.
abbrev asker : Client
asker = tls_client

abbrev hello : Packet
hello = record fresh { target = "/hello" }

abbrev greeting : Answer
greeting = record {
  version = 11;
  server = "test";
  content_type = "text/plain";
  status = 200;
  body = "hello";
}

request_copied-on_read_example :
    (request_copied (answered_by response_of reachable greeting) asker get hello).0
    ≡ some (returned hello 200 undefined "hello")
unfolding Client.new Session.new on_read find insert packet_request packet_of handle_method
    method_processors replies_to send_response handle_requests is_connected connect_by_kind
    connect_to_host from_string to_string verb_of
request_copied-on_read_example =
    request_copied-on_read around served processors response_of reachable asker open_socket get
      verb_get hello greeting [] (response (record fresh { body = "hello"; status_code = 200 })) []
      refl refl refl refl refl refl refl refl

-- One request, which a processor answers, and a look at the timer five seconds after the connection
-- began.
abbrev history : List Event
history =
    serves (method_processors processors)
    ∷ begins around
    ∷ reads around success asks
    ∷ ticks around 12
    ∷ []

run-TimesOut_example :
    TimesOut around
      (run (Session.new "test" open_socket 7) history)
      (step (run (Session.new "test" open_socket 7) history) (ticks around 17))
unfolding Session.new run step handle_requests on_read tick find insert method_processors replies_to
    packet_of handle_method send_response
run-TimesOut_example = run-TimesOut "test" open_socket 7 17 history around (omega arith) refl
