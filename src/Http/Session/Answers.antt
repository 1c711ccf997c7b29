-- ===== src/Http/Session/Answers.antt =====
-- The responses of one connection.
use components_network.Prelude.{
  ℕ, ◌≡◌, refl, ap, ◌∙◌, String, true, false, not, ◌&&◌, List, [], ◌∷◌, ◌++◌, append-nil,
  append_assoc, none, some, arith, if◌then◌else◌,
}
use components_network.Http.Types.{Packet, Reasons, create_error_packet, to_string}
use components_network.Http.Socket.{ErrorCode, success}
use components_network.Http.Session.{
  Session, Answer, Message, Reply, response, error_response, Files, Surroundings, send_response,
  send_error_response, perform, replies_to, packet_of, method_of, on_read, bad_request,
  handle_requests, is_secure, handshake_fails,
}

-- The answer that a packet with this content makes, on a server of this name.
abbrev pub answer_of : String → Packet → String → Answer
answer_of name pkt content = record {
  version = 11;
  server = name;
  content_type = to_string pkt.body_type;
  status = pkt.status_code;
  body = content;
}

-- What a reply puts on the wire, told without the session: a file that cannot be opened is answered
-- by 400.
abbrev pub sent_packet : Files → Reasons → Packet → Packet × String
sent_packet files reason pkt =
    if pkt.is_file
    then elim (files pkt.target) [
      | none ↦ (create_error_packet reason bad_request, reason bad_request)
      | some content ↦ (pkt, content)
    ]
    else (pkt, pkt.body)

abbrev pub sent_of : Files → Reasons → String → Reply → Answer
sent_of files reason name (response pkt) =
    let (p, content) = sent_packet files reason pkt in answer_of name p content
sent_of files reason name (error_response status) =
    answer_of name (create_error_packet reason status) (reason status)

abbrev pub all_sent : Files → Reasons → String → List Reply → List Answer
all_sent files reason name [] = []
all_sent files reason name (r ∷ rs) = sent_of files reason name r ∷ all_sent files reason name rs

-- A reply sends one answer, and changes nothing else but the packet kept for errors.
pub record Sends (s s' : Session) (answers : List Answer) : Type 0 where
  pub sent : s'.sent ≡ s.sent ++ answers
  pub processors : s'.processors ≡ s.processors
  pub socket : s'.socket ≡ s.socket
  pub name : s'.self_server_name ≡ s.self_server_name
  pub deadline : s'.deadline ≡ s.deadline
  pub waiting : s'.waiting ≡ s.waiting
  pub reading : s'.reading ≡ s.reading

pub send_response-Sends :
    (files : Files) (reason : Reasons) (name : String) (s : Session) (pkt : Packet)
    → s.self_server_name ≡ name
    → Sends s (send_response files reason s pkt) (sent_of files reason name (response pkt) ∷ [])
unfolding send_response create_error_packet
send_response-Sends files reason name s pkt e = ground arith

send_error_response-Sends :
    (files : Files) (reason : Reasons) (name : String) (s : Session) (status : ℕ)
    → s.self_server_name ≡ name
    → Sends s
        (send_error_response reason s status)
        (sent_of files reason name (error_response status) ∷ [])
unfolding send_error_response create_error_packet
send_error_response-Sends files reason name s status e = ground arith

Sends-trans :
    (s t u : Session) (xs ys : List Answer) → Sends s t xs → Sends t u ys → Sends s u (xs ++ ys)
Sends-trans s t u xs ys a b = record {
  sent = b.sent ∙ ap (λ (l : List Answer). l ++ ys) a.sent ∙ append_assoc s.sent xs ys;
  processors = b.processors ∙ a.processors;
  socket = b.socket ∙ a.socket;
  name = b.name ∙ a.name;
  deadline = b.deadline ∙ a.deadline;
  waiting = b.waiting ∙ a.waiting;
  reading = b.reading ∙ a.reading;
}

-- Each reply of a processor is answered once, in the order of the replies, and nothing else of the
-- session changes but the packet kept for errors.
pub perform-Sends :
    (files : Files) (reason : Reasons) (name : String) (s : Session) (rs : List Reply)
    → s.self_server_name ≡ name
    → Sends s (perform files reason s rs) (all_sent files reason name rs)
perform-Sends files reason name s [] e = record {
  sent = rw append-nil;
  processors = refl;
  socket = refl;
  name = refl;
  deadline = refl;
  waiting = refl;
  reading = refl;
}
perform-Sends files reason name s (response pkt ∷ rs) e =
    let t = send_response files reason s pkt in
    let first = send_response-Sends files reason name s pkt e in
    Sends-trans s t _ _ _ first (perform-Sends files reason name t rs (first.name ∙ e))
perform-Sends files reason name s (error_response status ∷ rs) e =
    let t = send_error_response reason s status in
    let first = send_error_response-Sends files reason name s status e in
    Sends-trans s t _ _ _ first (perform-Sends files reason name t rs (first.name ∙ e))

-- What a connection that answered does next: it reads on with its deadline watched, or it is left
-- as it is behind a TLS handshake that failed.
abbrev pub Continues : ErrorCode → Session → Session → List Answer → Type 0
Continues handshake s s' answers =
    let fails = is_secure s.socket.kind && handshake_fails handshake in
    (s'.sent ≡ s.sent ++ answers)
    × (s'.socket ≡ s.socket)
    × (s'.deadline ≡ s.deadline)
    × (s'.reading ≡ not fails)
    × (s'.waiting ≡ (if fails then s.waiting else true))

handle_requests-Continues :
    (handshake : ErrorCode) (m : Message) (s t : Session) (answers : List Answer)
    → Sends (record s { reading = false; request = m }) t answers
    → Continues handshake s (handle_requests handshake t) answers
unfolding handle_requests
handle_requests-Continues handshake m s t answers h = ground arith

-- A request that was read is answered by exactly the replies of its processor, in their order; the
-- socket and the deadline stay as they are, and the connection reads on with its deadline watched,
-- unless it is a TLS connection and the handshake fails.
pub on_read-Continues :
    (w : Surroundings) (s : Session) (m : Message)
    → let s' = on_read w s success m in
      let request = packet_of m in
      let replies = replies_to s.processors (method_of w.indeterminate m.verb) request in
      Continues w.handshake s s' (all_sent w.files w.reason s.self_server_name replies)
unfolding on_read
on_read-Continues w s m = handle_requests-Continues w.handshake m s _ _ (
    perform-Sends w.files w.reason s.self_server_name (record s { reading = false; request = m })
      (replies_to s.processors (method_of w.indeterminate m.verb) (packet_of m)) refl)
