-- ===== src/Http/Exchange/Waiting.antt =====
-- A request of src/HTTP/client.cpp that the processor of src/HTTP/server.cpp does not answer, up to the
-- deadline of the connection.
use components_network.Prelude.{
  ℕ, ◌≤◌, ◌≡◌, refl, ap, ◌∙◌, false, true, ◌&&◌, List, [], ◌∷◌, ◌++◌, some, arith, leb,
  if◌then◌else◌,
}
use components_network.Http.Types.{
  MethodType, Packet, to_string, named, from_string-to_string-named,
}
use components_network.Http.Socket.{success, is_error, Socket}
use components_network.Http.Client.{
  Verb, Response, Client, Network, verb_of, connect_to_host, exchange, packet_request, answer_fresh,
  request_copied,
}
use components_network.Http.Session.{
  Session, Answer, Message, Reply, Surroundings, on_read, on_deadline, tick, handle_requests,
  check_deadline, is_secure, handshake_fails, perform, replies_to, method_of, packet_of,
}
use components_network.Http.Session.Deadline.{on_deadline-TimesOut}
use components_network.Http.Server.{Processors, handle_method, method_processors}
use components_network.Http.Server.Routing.{method_of-some, replies_to-method_processors}
use components_network.Http.Exchange.{
  message_of, response_of, answered_by, arriving, returned, answered, packet_of-message_of,
  method_of_verb-verb_of,
}

-- What a connection writes at its deadline.
abbrev pub timeout_answer : Session → Answer
timeout_answer s = record {
  version = 11;
  server = s.self_server_name;
  content_type = to_string s.response_error_packet.body_type;
  status = 504;
  body = s.response_error_packet.body;
}

-- A connection that waits, for the next request and for its deadline.
abbrev pub awaiting : Session → Message → Session
awaiting s m = record s { reading = true; waiting = true; request = m }

on_read-awaiting :
    (w : Surroundings) (s : Session) (m : Message)
    → (is_secure s.socket.kind && handshake_fails w.handshake) ≡ false
    → replies_to s.processors (method_of w.indeterminate m.verb) (packet_of m) ≡ []
    → on_read w s success m ≡ awaiting s m
unfolding on_read handle_requests check_deadline
on_read-awaiting w s m h e =
    ap
      (λ (rs : List Reply).
        handle_requests w.handshake
          (perform w.files w.reason (record s { reading = false; request = m }) rs))
      e
    ∙ ap (λ b. if b then record s { reading = false; request = m } else awaiting s m) h

tick-timeout_answer :
    (w : Surroundings) (s : Session) (m : Message) (now : ℕ)
    → s.response_error_packet.is_file ≡ false
    → s.deadline ≤ now
    → s.sent ≡ []
    → (tick w.files w.reason w.shutdown now (awaiting s m)).sent ≡ timeout_answer s ∷ []
unfolding tick
tick-timeout_answer w s m now p l n =
    let due : leb s.deadline now ≡ true = ground arith in
    let out =
      on_deadline-TimesOut w s.deadline (awaiting s m) (record { fixed = refl; plain_error = p }) in
    ap
      (λ b.
        (if b then on_deadline w.files w.reason w.shutdown (awaiting s m) else awaiting s m).sent)
      due
    ∙ out.answered
    ∙ ap (λ earlier. earlier ++ timeout_answer s ∷ []) n

-- What the processors of a server make of a request of the client.
replies_to-arriving :
    (w : Surroundings) (s : Session) (ps : Processors) (d : Client) (method : MethodType) (v : Verb)
    (pkt : Packet)
    → s.processors ≡ method_processors ps
    → verb_of method ≡ some v
    → let m = message_of (packet_request d v pkt) in
      replies_to s.processors (method_of w.indeterminate m.verb) (packet_of m)
      ≡ handle_method ps (arriving pkt) method
unfolding packet_request
replies_to-arriving w s ps d method v pkt p e =
    let m = message_of (packet_request d v pkt) in
    (λ i. replies_to (p i) (method_of-some w.indeterminate v i) (packet_of m))
    ∙ replies_to-method_processors ps v (packet_of m)
    ∙ (λ i. handle_method ps (packet_of-message_of d v pkt i) (method_of_verb-verb_of method v e i))

-- A client for which `connectToHost` gives a connection to a server, where nothing was written on it
-- yet, on a network without errors whose wire carries the answer of the deadline unchanged. Where the
-- processor for its target and method makes no reply and, on TLS, the handshake behind the request
-- does not fail, the request is answered by nothing at once, and by a 504 alone when the timer is
-- looked at behind its deadline; the client returns that 504, with the type and body of the
-- packet that the connection keeps for errors, which is no file.
pub request_copied-tick :
    (w : Surroundings) (s : Session) (ps : Processors) (wire : Answer → Response) (net : Network)
    (d : Client) (k : Socket) (method : MethodType) (v : Verb) (pkt : Packet) (now : ℕ)
    → s.processors ≡ method_processors ps
    → s.sent ≡ []
    → s.response_error_packet.is_file ≡ false
    → s.deadline ≤ now
    → (is_secure s.socket.kind && handshake_fails w.handshake) ≡ false
    → verb_of method ≡ some v
    → connect_to_host net d.socket ≡ some (k, true)
    → is_error (exchange net) ≡ false
    → handle_method ps (arriving pkt) method ≡ []
    → wire (timeout_answer s) ≡ response_of (timeout_answer s)
    → let s' = on_read w s success (message_of (packet_request d v pkt)) in
      let e = s.response_error_packet in
      (s'.sent ≡ [])
      × ((tick w.files w.reason w.shutdown now s').sent ≡ timeout_answer s ∷ [])
      × ((request_copied (answered_by wire net (timeout_answer s)) d method pkt).0
          ≡ some (returned pkt 504 (named e.body_type) e.body))
unfolding answer_fresh
request_copied-tick w s ps wire net d k method v pkt now p n plain late h e c x none' t =
    let m = message_of (packet_request d v pkt) in
    let same = on_read-awaiting w s m h (replies_to-arriving w s ps d method v pkt p e ∙ none') in
    let error = s.response_error_packet in
    (
      ap (λ (u : Session). u.sent) same ∙ n,
      ap (λ u. (tick w.files w.reason w.shutdown now u).sent) same
          ∙ tick-timeout_answer w s m now plain late n,
      answered wire net d k method v pkt (timeout_answer s) e c x t
          ∙ ap (λ b. some (returned pkt 504 b error.body))
              (from_string-to_string-named error.body_type),
    )
