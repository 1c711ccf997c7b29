-- ===== src/Http/Exchange.antt =====
-- A request of src/HTTP/client.cpp to a connection of src/HTTP/server.cpp and back.
pub mod Transfers
pub mod Async
pub mod Waiting
use components_network.Prelude.{
  ℕ, ◌≡◌, refl, ap, sym, ◌∙◌, String, Bool, true, false, List, [], ◌∷◌, ◌++◌, Option, none, some,
  if◌then◌else◌, arith,
}
use components_network.Http.Types.{
  MethodType, get, put, post, delete, BodyType, undefined, Packet, fresh, named, Reasons,
  from_string-to_string-named, create_error_packet,
}
use components_network.Http.Socket.{success, is_error, Socket}
use components_network.Http.Client.{
  Verb, Request, Response, Client, Network, Outcome, verb_of, is_connected, connect_by_kind,
  connect_to_host, with_connection, exchange, packet_request, answer_fresh, request_copied,
}
use components_network.Http.Session.{
  Session, Answer, Message, Reply, response, error_response, Files, Surroundings, on_read,
  packet_of, bad_request,
}
use components_network.Http.Session.Answers.{all_sent, sent_of}
use components_network.Http.Server.{Processors, handle_method, method_processors}
use components_network.Http.Server.Routing.{method_of_verb, on_read-handle_method}

-- A request as the server reads it.
abbrev pub message_of : Request → Message
message_of req = record {
  verb = some req.verb;
  target = req.target;
  content_type = req.content_type;
  body = req.body;
}

-- An answer as it was written.
abbrev pub response_of : Answer → Response
response_of a = record { status = a.status; content_type = some a.content_type; body = a.body }

-- The network where this is the first answer that the server writes, and `wire` what the client reads
-- for an answer.
abbrev pub answered_by : (Answer → Response) → Network → Answer → Network
answered_by wire net a = record net { response = wire a }

-- The packet of the client as the processor gets it.
abbrev pub arriving : Packet → Packet
arriving pkt = record fresh {
  target = pkt.target;
  body = pkt.body;
  body_type = named pkt.body_type;
}

-- What the client is to get for a request: status, body type and body.
abbrev pub returned : Packet → ℕ → BodyType → String → Packet
returned pkt status body_type body = record fresh {
  target = pkt.target;
  acceptable_type = pkt.acceptable_type;
  status_code = status;
  body_type = body_type;
  body = body;
}

abbrev pub from_file : Reasons → Packet → Packet → Option String → Packet
from_file reason pkt q none = returned pkt bad_request undefined (reason bad_request)
from_file reason pkt q (some content) = returned pkt q.status_code (named q.body_type) content

abbrev pub received : Files → Reasons → Packet → Reply → Packet
received files reason pkt (error_response status) = returned pkt status undefined (reason status)
received files reason pkt (response q) =
    if q.is_file
    then from_file reason pkt q (files q.target)
    else returned pkt q.status_code (named q.body_type) q.body

-- A call for which `connectToHost` gives a connection goes on with it.
pub with_connection-connect_to_host {ℓ} :
    {A : Type ℓ} (net : Network) (d : Client) (k : Socket) (refused : A)
    (next : Socket → Option A × Client)
    → connect_to_host net d.socket ≡ some (k, true)
    → with_connection net d refused next ≡ next k
unfolding with_connection
with_connection-connect_to_host {A} net d k refused next c =
    ap {B = Option A × Client}
      (λ (o : Option (Socket × Bool)). elim o [
        | none ↦ (none, d)
        | some (s, connected) ↦
            if connected then next s else (some refused, record d { socket = s })
      ])
      c

-- The copying overload, where `connectToHost` gives a connection.
pub asked :
    (net : Network) (d : Client) (k : Socket) (method : MethodType) (v : Verb) (pkt : Packet)
    → verb_of method ≡ some v
    → connect_to_host net d.socket ≡ some (k, true)
    → (request_copied net d method pkt).0
      ≡ (if is_error (exchange net) then none else some (answer_fresh pkt net.response))
unfolding verb_of request_copied
asked net d k get v pkt e c = ap (λ r. r.0) (with_connection-connect_to_host net d k _ _ c)
asked net d k put v pkt e c = ap (λ r. r.0) (with_connection-connect_to_host net d k _ _ c)
asked net d k post v pkt e c = ap (λ r. r.0) (with_connection-connect_to_host net d k _ _ c)
asked net d k delete v pkt e c = ap (λ r. r.0) (with_connection-connect_to_host net d k _ _ c)
asked net d k (MethodType.other n) v pkt e c = absurd (ground arith)

pub packet_of-message_of :
    (d : Client) (v : Verb) (pkt : Packet)
    → packet_of (message_of (packet_request d v pkt)) ≡ arriving pkt
unfolding packet_of packet_request
packet_of-message_of d v pkt i = record fresh {
  target = pkt.target;
  body = pkt.body;
  body_type = from_string-to_string-named pkt.body_type i;
}

pub method_of_verb-verb_of :
    (method : MethodType) (v : Verb) → verb_of method ≡ some v → method_of_verb v ≡ method
unfolding verb_of
method_of_verb-verb_of method v e = ground arith

-- What the client makes of an answer.
answer_fresh-sent_of :
    (files : Files) (reason : Reasons) (name : String) (pkt : Packet) (r : Reply)
    → answer_fresh pkt (response_of (sent_of files reason name r)) ≡ received files reason pkt r
unfolding answer_fresh create_error_packet
answer_fresh-sent_of files reason name pkt (error_response status) =
    ap (λ t. returned pkt status t (reason status)) (from_string-to_string-named undefined)
answer_fresh-sent_of files reason name pkt (response q) =
    ground (arith, from_string-to_string-named q.body_type, from_string-to_string-named undefined)

-- What the copying overload makes of an answer on a network without errors.
pub answered :
    (wire : Answer → Response) (net : Network) (d : Client) (k : Socket) (method : MethodType)
    (v : Verb) (pkt : Packet) (a : Answer)
    → verb_of method ≡ some v
    → connect_to_host net d.socket ≡ some (k, true)
    → is_error (exchange net) ≡ false
    → wire a ≡ response_of a
    → (request_copied (answered_by wire net a) d method pkt).0
      ≡ some (answer_fresh pkt (response_of a))
unfolding connect_to_host is_connected connect_by_kind
answered wire net d k method v pkt a e c x t =
    asked (answered_by wire net a) d k method v pkt e c
    ∙ ap (λ b. if b then none else some (answer_fresh pkt (wire a))) x
    ∙ ap (λ res. some (answer_fresh pkt res)) t

-- What a connection that wrote nothing yet writes for a request.
abbrev pub written_by : Surroundings → Session → Request → List Answer
written_by w s req = (on_read w s success (message_of req)).sent

pub on_read-written :
    (w : Surroundings) (s : Session) (ps : Processors) (req : Request)
    → s.processors ≡ method_processors ps
    → s.sent ≡ []
    → written_by w s req
      ≡ all_sent w.files w.reason s.self_server_name
          (handle_method ps (packet_of (message_of req)) (method_of_verb req.verb))
on_read-written w s ps req p n =
    (on_read-handle_method w s ps (message_of req) req.verb p refl).0
    ∙ ap
        (λ earlier.
          earlier
          ++ all_sent w.files w.reason s.self_server_name
              (handle_method ps (packet_of (message_of req)) (method_of_verb req.verb)))
        n

-- What a connection that wrote nothing yet writes for a request of the client.
written :
    (w : Surroundings) (s : Session) (ps : Processors) (d : Client) (method : MethodType) (v : Verb)
    (pkt : Packet)
    → s.processors ≡ method_processors ps
    → s.sent ≡ []
    → verb_of method ≡ some v
    → (on_read w s success (message_of (packet_request d v pkt))).sent
      ≡ all_sent w.files w.reason s.self_server_name (handle_method ps (arriving pkt) method)
unfolding packet_request
written w s ps d method v pkt p n e = on_read-written w s ps (packet_request d v pkt) p n ∙ (λ i.
    all_sent w.files w.reason s.self_server_name
      (handle_method ps (packet_of-message_of d v pkt i) (method_of_verb-verb_of method v e i)))

-- The first answer of a list is that of the first reply.
pub first_answer :
    (files : Files) (reason : Reasons) (name : String) (answers later : List Answer) (a : Answer)
    (replies rs : List Reply) (r : Reply)
    → answers ≡ all_sent files reason name replies
    → answers ≡ a ∷ later
    → replies ≡ r ∷ rs
    → a ≡ sent_of files reason name r
first_answer files reason name answers later a replies rs r e h k =
    let same : a ∷ later ≡ sent_of files reason name r ∷ all_sent files reason name rs =
      sym h ∙ e ∙ ap (all_sent files reason name) k in
    cc

-- A client for which `connectToHost` gives a connection to a server, where nothing was written on it
-- yet, on a network without errors whose wire carries the first answer `a` unchanged: its request comes
-- to the processor that is registered for its target and method, with its body and the name of its
-- body type. Where the first reply of that processor, or the error of the server if there is no
-- such processor, is `r`, the client returns what `r` says: status, body type and body, where a
-- file that cannot be opened is answered by 400.
pub request_copied-on_read :
    (w : Surroundings) (s : Session) (ps : Processors) (wire : Answer → Response) (net : Network)
    (d : Client) (k : Socket) (method : MethodType) (v : Verb) (pkt : Packet) (a : Answer)
    (later : List Answer) (r : Reply) (rs : List Reply)
    → s.processors ≡ method_processors ps
    → s.sent ≡ []
    → verb_of method ≡ some v
    → connect_to_host net d.socket ≡ some (k, true)
    → is_error (exchange net) ≡ false
    → handle_method ps (arriving pkt) method ≡ r ∷ rs
    → (on_read w s success (message_of (packet_request d v pkt))).sent ≡ a ∷ later
    → wire a ≡ response_of a
    → (request_copied (answered_by wire net a) d method pkt).0
      ≡ some (received w.files w.reason pkt r)
request_copied-on_read w s ps wire net d k method v pkt a later r rs p n e c x replies wrote t =
    let first =
      first_answer w.files w.reason s.self_server_name _ later a _ rs r
        (written w s ps d method v pkt p n e) wrote replies in
    answered wire net d k method v pkt a e c x t
    ∙ ap (λ b. some (answer_fresh pkt (response_of b))) first
    ∙ ap some (answer_fresh-sent_of w.files w.reason s.self_server_name pkt r)
