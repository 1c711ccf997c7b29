-- ===== src/Http/Examples/Waiting.antt =====
-- A request that a processor leaves without a reply.
use components_network.Prelude.{◌≡◌, refl, string_key, [], ◌∷◌, some, arith}
use components_network.Prelude.Assoc.{find, insert}
use components_network.Http.Types.{get, undefined}
use components_network.Http.Socket.{success}
use components_network.Http.Client
use components_network.Http.Client.{
  is_connected, connect_by_kind, connect_to_host, verb_get, verb_of, packet_request, request_copied,
}
use components_network.Http.Session
use components_network.Http.Session.{Session, on_read, packet_of, tick}
use components_network.Http.Server.{Processors, handle_method, method_processors}
use components_network.Http.Exchange.{message_of, response_of, answered_by, returned}
use components_network.Http.Exchange.Waiting.{timeout_answer, request_copied-tick}
use components_network.Http.Examples.{reachable, around, asker, hello, open_socket}

abbrev silent : Processors
silent = ("/hello", (get, λ pkt. []) ∷ []) ∷ []

abbrev session : Session
session = record (Session.new "test" open_socket 7) { processors = method_processors silent }

request_copied-tick_example :
    let s = on_read around session success (message_of (packet_request asker verb_get hello)) in
    (s.sent ≡ [])
    × ((tick around.files around.reason around.shutdown 20 s).sent ≡ timeout_answer session ∷ [])
    × ((request_copied
          (answered_by response_of reachable (timeout_answer session))
          asker
          get
          hello).0
        ≡ some (returned hello 504 undefined ""))
unfolding Client.new Session.new find insert handle_method method_processors is_connected
    connect_by_kind connect_to_host verb_of
request_copied-tick_example =
    request_copied-tick around session silent response_of reachable asker open_socket get verb_get
      hello 20 refl refl refl (omega arith) refl refl refl refl refl refl
