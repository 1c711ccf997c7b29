-- ===== src/Http/Exchange/Async.antt =====
-- An asynchronous request of src/HTTP/client.cpp to a connection of src/HTTP/server.cpp: what its
-- callback gets.
use components_network.Prelude.{
  ◌≡◌, refl, ap, sym, ◌∙◌, true, false, List, [], ◌∷◌, ◌++◌, Option, none, some, inl, inr,
  Bool-cases, arith, if◌then◌else◌,
}
use components_network.Http.Types.{MethodType, get, put, post, delete, Packet}
use components_network.Http.Socket.{success, is_error, Socket}
use components_network.Http.Client.{
  Verb, Response, Client, Network, Outcome, verb_of, is_connected, connect_by_kind, connect_to_host,
  exchange, packet_request, answer_fresh, request_copied, request_async, async_calls,
}
use components_network.Http.Client.Lifetime.{Life, goes, requests, begin_request, run}
use components_network.Http.Client.Lifetime.Replies.{handlers, calls_of, run-request_async}
use components_network.Http.Session.{Session, Answer, Reply, Surroundings, on_read}
use components_network.Http.Server.{Processors, handle_method, method_processors}
use components_network.Http.Exchange.{
  message_of, response_of, answered_by, arriving, asked, with_connection-connect_to_host, received,
  request_copied-on_read,
}

-- The calls of a callback, by what the blocking request returns: where that throws, there is a call
-- without an answer and one with what is there of it.
abbrev pub calls_for : Outcome Packet → Packet → List (Option Packet)
calls_for none rest = none ∷ some rest ∷ []
calls_for (some q) rest = some q ∷ []

asked_async :
    (net : Network) (d : Client) (k : Socket) (method : MethodType) (v : Verb) (pkt : Packet)
    → verb_of method ≡ some v
    → connect_to_host net d.socket ≡ some (k, true)
    → calls_of (request_async net d method pkt true).0 ≡ async_calls net pkt
unfolding verb_of request_async
asked_async net d k get v pkt e c =
    ap (λ r. calls_of r.0) (with_connection-connect_to_host net d k _ _ c)
asked_async net d k put v pkt e c =
    ap (λ r. calls_of r.0) (with_connection-connect_to_host net d k _ _ c)
asked_async net d k post v pkt e c =
    ap (λ r. calls_of r.0) (with_connection-connect_to_host net d k _ _ c)
asked_async net d k delete v pkt e c =
    ap (λ r. calls_of r.0) (with_connection-connect_to_host net d k _ _ c)
asked_async net d k (MethodType.other n) v pkt e c = absurd (ground arith)

async_calls-calls_for :
    (net : Network) (pkt : Packet)
    → is_error net.write ≡ false
    → async_calls net pkt
      ≡ calls_for
          (if is_error (exchange net) then none else some (answer_fresh pkt net.response))
          (answer_fresh pkt net.response)
unfolding async_calls
async_calls-calls_for net pkt w = elim (Bool-cases (is_error net.read)) [
  | inl e ↦ rw (w, e) refl
  | inr e ↦ rw (w, e) refl
]

-- Where a connection is there and the request is written, the callback of an asynchronous request gets
-- what the blocking request returns.
request_async-request_copied :
    (net : Network) (d : Client) (k : Socket) (method : MethodType) (v : Verb) (pkt : Packet)
    → verb_of method ≡ some v
    → connect_to_host net d.socket ≡ some (k, true)
    → is_error net.write ≡ false
    → calls_of (request_async net d method pkt true).0
      ≡ calls_for (request_copied net d method pkt).0 (answer_fresh pkt net.response)
request_async-request_copied net d k method v pkt e c w =
    asked_async net d k method v pkt e c
    ∙ async_calls-calls_for net pkt w
    ∙ ap (λ o. calls_for o (answer_fresh pkt net.response)) (sym (asked net d k method v pkt e c))

exchange-write : (net : Network) → is_error (exchange net) ≡ false → is_error net.write ≡ false
exchange-write net x = ground arith

answered_by-connect_to_host :
    (wire : Answer → Response) (net : Network) (a : Answer) (s : Socket)
    → connect_to_host (answered_by wire net a) s ≡ connect_to_host net s
unfolding connect_to_host is_connected connect_by_kind
answered_by-connect_to_host wire net a s = refl

-- An asynchronous request with a callback, of a client that has none outstanding and for which
-- `connectToHost` gives a connection to a server, where nothing was written on it yet, on a network
-- without errors whose wire carries the first answer `a` unchanged. Where `r` is the first reply of the
-- processor for its target and method, or the error of the server if there is no such processor:
-- once its handlers have run, the callback was called once, with what `r` says.
pub run-on_read :
    (w : Surroundings) (s : Session) (ps : Processors) (wire : Answer → Response) (net : Network)
    (l : Life) (k : Socket) (method : MethodType) (v : Verb) (pkt : Packet) (a : Answer)
    (later : List Answer) (r : Reply) (rs : List Reply)
    → l.released ≡ false
    → l.outstanding ≡ none
    → s.processors ≡ method_processors ps
    → s.sent ≡ []
    → verb_of method ≡ some v
    → connect_to_host net l.client.socket ≡ some (k, true)
    → is_error (exchange net) ≡ false
    → handle_method ps (arriving pkt) method ≡ r ∷ rs
    → (on_read w s success (message_of (packet_request l.client v pkt))).sent ≡ a ∷ later
    → wire a ≡ response_of a
    → let served = answered_by wire net a in
      run l (
        requests served method pkt true
        ∷ handlers served (begin_request served l.client method pkt true).0)
      ≡ goes (record l {
        client = (request_async served l.client method pkt true).1;
        calls = l.calls ++ some (received w.files w.reason pkt r) ∷ [];
      })
run-on_read w s ps wire net l k method v pkt a later r rs alive idle p n e c x replies wrote t =
    let served = answered_by wire net a in
    let connected = answered_by-connect_to_host wire net a l.client.socket ∙ c in
    let calls =
      request_async-request_copied served l.client k method v pkt e connected (exchange-write net x)
      ∙ ap (λ o. calls_for o (answer_fresh pkt served.response))
          (request_copied-on_read w s ps wire net l.client k method v pkt a later r rs p n e c x
            replies wrote t) in
    run-request_async served l method pkt true alive idle
    ∙ ap
        (λ cs. goes (record l {
          client = (request_async served l.client method pkt true).1;
          calls = l.calls ++ cs;
        }))
        calls
