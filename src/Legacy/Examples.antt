-- ===== src/Legacy/Examples.antt =====
-- Runs of the Qt manager, the Qt client, and the old HTTP server, with a codec that is lossless.
pub mod Servers
mod Threads
use mathlib.Core.Option
use components_network.Prelude.{
  ℕ, Bytes, ◌≡◌, refl, ap, ◌≤◌, ◌*◌, number_key, true, false, List, [], ◌∷◌, ◌++◌, Option, none,
  some, arith, length, take, drop, take-append, drop-append, replicate,
}
use components_network.Prelude.Assoc.{find}
use components_network.Legacy.Exchange.{
  Packet, Archived, Codec, IsLossless, Processors, from_bytes, info_packet_type,
}
use components_network.Legacy.Workers
use components_network.Legacy.Workers.Standing.{InOrder}
use components_network.Legacy.Workers.Lifetime.{
  TakesOrRejects, steps-InOrder, new-Inv, create_connection_lem,
}
use components_network.Legacy.TcpClient
use components_network.Legacy.TcpClient.RoundTrip.{exchange, answers, exchange-answers}
use components_network.Legacy.UdpServer
use components_network.Legacy.UdpServer.Receiving.{on_message_lem}
use components_network.Legacy.OldHttp.Answers
use components_network.Legacy.OldHttp
use components_network.Legacy.OldHttp.Serving.{Serves, steps-Serves}
use components_network.Legacy.OldHttp.Ending.{stop-aborts, accepts-steps}
use components_network.Legacy.OldHttp.Sessions.{accepts-reads, Answers}

-- Each character twice.
abbrev encode_hex : Bytes → Bytes
encode_hex [] = []
encode_hex (x ∷ xs) = x ∷ x ∷ encode_hex xs

abbrev consed : ℕ → Option Bytes → Option Bytes
consed x none = none
consed x (some xs) = some (x ∷ xs)

abbrev decode_hex : Bytes → Option Bytes
decode_hex [] = some []
decode_hex (x ∷ []) = none
decode_hex (x ∷ y ∷ xs) = consed x (decode_hex xs)

-- The type, the length of the command, and the two texts.
abbrev write : Archived → Bytes
write a = a.type ∷ length a.command ∷ a.command ++ a.content

abbrev text_iarchive : Bytes → Option Archived
text_iarchive (type ∷ size ∷ rest) =
    some (record { type = type; command = take size rest; content = drop size rest })
text_iarchive _ = none

abbrev pub codec : Codec
codec = record {
  encode_hex = encode_hex;
  decode_hex = decode_hex;
  text_oarchive = λ a. some (write a);
  text_iarchive = text_iarchive;
}

decode-encode : (s : Bytes) → decode_hex (encode_hex s) ≡ some s
decode-encode [] = refl
decode-encode (x ∷ s) = ap (consed x) (decode-encode s)

length-encode : (s : Bytes) → length (encode_hex s) ≡ 2 * length s
length-encode [] = refl
length-encode (x ∷ s) = omega (arith, length-encode s)

read-write : (a : Archived) → text_iarchive (write a) ≡ some a
read-write a i = some (record a {
  command = take-append a.command a.content i;
  content = drop-append a.command a.content i;
})

codec-IsLossless : IsLossless codec
codec-IsLossless = record {
  decode-encode = decode-encode;
  write = write;
  writes = λ a. refl;
  read-write = read-write;
  has_header = λ a. omega arith;
  length-encode = length-encode;
}

-- Requests for information are answered by themselves.
abbrev echoing : Processors
echoing = record {
  info_processor = some (λ p response. p);
  action_processor = none;
  error_processor = false;
}

abbrev packet : Packet
packet = record { type = info_packet_type; command = 7 ∷ []; content = 8 ∷ 9 ∷ []; is_valid = true }

-- Two connections for one thread: the second is rejected. The first sends a packet and leaves.
abbrev busy : List Workers.Event
busy =
    Workers.sets_info_processor (some (λ p response. p))
    ∷ Workers.creates (5 ∷ []) 40
    ∷ Workers.creates (5 ∷ 6 ∷ []) 41
    ∷ Workers.attaches false 0
    ∷ Workers.receives codec (1 ∷ []) 0
    ∷ Workers.disconnects 0
    ∷ Workers.finishes 0
    ∷ Workers.creates (5 ∷ []) 42
    ∷ []

steps-InOrder_example : InOrder (Workers.steps (Workers.done (Workers.new 1)) busy)
steps-InOrder_example = steps-InOrder (Workers.done (Workers.new 1)) busy (new-Inv 1)

abbrev client : TcpClient.Client
client = record (TcpClient.new []) { socket_connected = true }

abbrev worker : Workers.Worker
worker = record (Workers.new_worker (40, 5)) { socket = Workers.connected 40 }

exchange-answers_example :
    (exchange codec echoing packet client worker).0.emitted ≡ answers echoing packet ++ []
exchange-answers_example =
    exchange-answers codec echoing packet client worker codec-IsLossless refl refl

-- Three datagrams on a server with two slots.
abbrev udp_server : UdpServer.Server
udp_server = record (UdpServer.new 2) {
  pending = encode_hex (1 ∷ []) ∷ encode_hex (2 ∷ []) ∷ encode_hex (1 ∷ 1 ∷ 7 ∷ []) ∷ [];
}

-- A server that answers each request with its body, as a page.
abbrev page : OldHttp.Answers.Processor
page = λ meta. record meta {
  response_result = OldHttp.Answers.ok;
  response_type = OldHttp.Answers.html;
}

abbrev server : OldHttp.Server
server = record OldHttp.new {
  acceptor_open = true;
  accepting = 1;
  in_run = true;
  processors = record {
    request_get = some page;
    request_post = some page;
    request_put = some page;
    request_delete = some page;
  };
}

server-Serves : Serves server
unfolding find
server-Serves = record {
  runs = refl;
  complete = refl;
  waits = omega arith;
  given = λ id ps e. ground arith;
}

abbrev request : OldHttp.Answers.Request
request = record { method = OldHttp.Answers.get; version = 11; target = 47 ∷ []; body = 104 ∷ [] }

abbrev visits : List OldHttp.Event
visits =
    OldHttp.accepts
    ∷ OldHttp.fails_to_accept false
    ∷ OldHttp.sets OldHttp.Answers.get (some page)
    ∷ OldHttp.reads 0 (some (request, some (1 ∷ [])))
    ∷ []

steps-Serves_example : Serves (OldHttp.steps server visits)
steps-Serves_example = steps-Serves server visits (refl, (refl, (refl, (refl, tt)))) server-Serves

stop-aborts_example :
    let d =
      OldHttp.steps (OldHttp.stop false true server) (replicate 3 (OldHttp.fails_to_accept true)) in
    (d.in_run ≡ true) × (d.stopped ≡ false) × (1 ≤ d.aborted)
stop-aborts_example = stop-aborts 3 server refl (omega arith)

abbrev incomplete : OldHttp.Server
incomplete = record server { processors = record server.processors { request_put = none } }

abbrev meantime : List OldHttp.Event
meantime = OldHttp.sets OldHttp.Answers.get none ∷ []

-- A connection is made while all processors are set, and one is taken away before its request is read.
accepts-reads_example :
    let d = OldHttp.steps (OldHttp.step server OldHttp.accepts) meantime in
    Answers 0
      (OldHttp.Answers.process_request server.processors request (some (1 ∷ [])))
      d
      (OldHttp.step d (OldHttp.reads 0 (some (request, some (1 ∷ [])))))
unfolding OldHttp.steps OldHttp.step OldHttp.set_processor OldHttp.on_accept
    OldHttp.accept_connections
accepts-reads_example =
    accepts-reads server meantime request (some (1 ∷ [])) refl (omega arith) refl (refl, tt) refl
