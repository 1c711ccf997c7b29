-- ===== src/Http/Examples/Async.antt =====
-- A run of an asynchronous request to a connection of a server.
use components_network.Prelude.{◌≡◌, refl, string_key, true, false, [], ◌∷◌, some}
use components_network.Prelude.Assoc.{find, insert}
use components_network.Http.Types.{get, method_key, fresh, undefined, from_string, to_string}
use components_network.Http.Client
use components_network.Http.Client.{
  is_connected, connect_by_kind, connect_to_host, verb_get, verb_of, packet_request, request_async,
  answer_fresh,
}
use components_network.Http.Client.Lifetime.{
  Life, default_ctx, goes, requests, begin, begin_request, run,
}
use components_network.Http.Client.Lifetime.Replies.{handlers}
use components_network.Http.Session
use components_network.Http.Session.{
  on_read, packet_of, handle_requests, replies_to, response, send_response,
}
use components_network.Http.Server.{handle_method, method_processors}
use components_network.Http.Exchange.{response_of, answered_by, returned}
use components_network.Http.Exchange.Async.{run-on_read}
use components_network.Http.Examples.{
  reachable, around, served, processors, asker, hello, greeting, open_socket,
}

abbrev asking : Life
asking = record (begin default_ctx true false) { client = asker }

run-on_read_example :
    let net = answered_by response_of reachable greeting in
    run asking
      (requests net get hello true ∷ handlers net (begin_request net asker get hello true).0)
    ≡ goes (record asking {
      client = (request_async net asker get hello true).1;
      calls = some (returned hello 200 undefined "hello") ∷ [];
    })
unfolding Client.new Session.new on_read find insert packet_request packet_of handle_method
    method_processors replies_to send_response handle_requests is_connected connect_by_kind
    connect_to_host from_string to_string verb_of
run-on_read_example =
    run-on_read around served processors response_of reachable asking open_socket get verb_get hello
      greeting [] (response (record fresh { body = "hello"; status_code = 200 })) [] refl refl refl
      refl refl refl refl refl refl refl
