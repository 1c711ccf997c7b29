-- ===== src/Http/Examples/Running.antt =====
-- A running server: a connection is accepted before the processor of its request is registered.
use components_network.Prelude.{
  ℕ, ◌≡◌, refl, nat_beq, true, false, if◌then◌else◌, List, [], ◌∷◌, some, none, get_elem?,
}
use components_network.Prelude.Assoc.{find, insert}
use components_network.Http.Types.{get, Packet, fresh}
use components_network.Http.Socket.{success, eof}
use components_network.Http.Client.{verb_get}
use components_network.Http.Session.{
  Session, Message, Surroundings, response, on_read, handle_requests, packet_of,
}
use components_network.Http.Session
use components_network.Http.Server.{Server, Impl, connection, set_handler, on_accept}
use components_network.Http.Server
use components_network.Http.Server.Routing.{Answers}
use components_network.Http.Server.Registration.{Registration}
use components_network.Http.Server.Running.{
  Event, registers, accepts, reads, ticks, step, steps, register, refer, change,
}
use components_network.Http.Server.Running.Answering.{connections_of, steps-reads_http}

abbrev around : Surroundings
around = record {
  files = λ path. none;
  reason = λ status. "reason";
  shutdown = record { tls = eof; tcp = success };
  handshake = success;
  indeterminate = get;
}

abbrev impl : Impl
impl = record {
  port = 8000;
  thread_count = 1;
  is_secure = false;
  accepting = true;
  stopped = false;
  connections = [];
}

abbrev server : Server
server = record (Server.new "test" "") { impl = some impl }

abbrev hello : Packet
hello = record fresh { body = "hello"; status_code = 200 }

abbrev greeting : Registration
greeting = record { method = get; target = "/hello"; process = λ pkt. hello ∷ [] }

abbrev asks : Message
asks = record { verb = some verb_get; target = "/hello"; content_type = none; body = "" }

-- The request of the second connection is answered.
abbrev history : List Event
history =
    accepts success success 7
    ∷ accepts success success 8
    ∷ registers greeting
    ∷ ticks 0 around 9
    ∷ []

abbrev second : Session
second =
    refer (set_handler get [] "/hello" greeting.process)
      (handle_requests success (connection "test" [] false 8))

steps-reads_http_example :
    let after = step (steps server history) (reads 1 around success asks) in
    Answers around second asks (response hello ∷ [])
    × ((j : ℕ)
        → get_elem? (connections_of after.impl) j ≡ (
            if nat_beq 1 j
            then some (on_read around second success asks)
            else get_elem? (connections_of (steps server history).impl) j))
    × (after.processors ≡ (steps server history).processors)
unfolding steps step register on_accept change Session.tick Server.new connection handle_requests
    set_handler find insert Session.new packet_of
steps-reads_http_example =
    steps-reads_http [] server history 1 second around asks verb_get
      (record { listed = refl; shared = tt }) refl refl refl
