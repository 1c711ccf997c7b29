-- ===== src/Http/Session/Deadline.antt =====
-- The deadline of a connection over any sequence of events.
use components_network.Prelude.{
  ◌⊎◌, subst, ℕ, ◌+◌, ◌≤◌, ◌≡◌, refl, ◌∙◌, String, true, false, List, [], ◌∷◌, ◌++◌, arith,
  Bool-cases, leb, ◌&&◌, inl, inr,
}
use components_network.Http.Types.{MethodType, Packet, Reasons, create_error_packet, to_string}
use components_network.Http.Socket.{
  ErrorCode, Socket, Shutdown, Closes, close_socket, close_socket_lem,
}
use components_network.Http.Session.{
  Session, RequestProcessor, Message, Reply, response, error_response, Surroundings, Files, new,
  send_response, send_error_response, close_connection, perform, handle_requests, on_read,
  on_deadline, tick, gateway_timeout, replies_to, method_of, packet_of,
}
use components_network.Http.Session.Answers.{send_response-Sends}

-- What may happen to a connection. It gets its processors from the server, and what they answer changes
-- with the map of the server that they refer to.
pub data Event : Type 0 where
  serves : List (MethodType × RequestProcessor) → Event
  begins : Surroundings → Event
  reads : Surroundings → ErrorCode → Message → Event
  ticks : Surroundings → ℕ → Event

unfoldable pub step : Session → Event → Session
step s (serves processors) = record s { processors = processors }
step s (begins w) = handle_requests w.handshake s
step s (reads w ec m) = on_read w s ec m
step s (ticks w now) = tick w.files w.reason w.shutdown now s

unfoldable pub run : Session → List Event → Session
run s [] = s
run s (e ∷ es) = run (step s e) es

-- The timer of the connection expires at `n`, and the packet kept for errors is no file.
pub record IsTimed (n : ℕ) (s : Session) : Type 0 where
  pub fixed : s.deadline ≡ n
  pub plain_error : s.response_error_packet.is_file ≡ false

send_response-IsTimed :
    (files : Files) (reason : Reasons) (n : ℕ) (s : Session) (pkt : Packet)
    → IsTimed n s
    → IsTimed n (send_response files reason s pkt)
unfolding send_response create_error_packet
send_response-IsTimed files reason n s pkt t = ground arith

send_error_response-IsTimed :
    (reason : Reasons) (n : ℕ) (s : Session) (status : ℕ)
    → IsTimed n s
    → IsTimed n (send_error_response reason s status)
unfolding send_error_response create_error_packet
send_error_response-IsTimed reason n s status t = ground arith

perform-IsTimed :
    (files : Files) (reason : Reasons) (n : ℕ) (s : Session) (rs : List Reply)
    → IsTimed n s
    → IsTimed n (perform files reason s rs)
perform-IsTimed files reason n s [] t = t
perform-IsTimed files reason n s (response pkt ∷ rs) t =
    perform-IsTimed files reason n (send_response files reason s pkt) rs
      (send_response-IsTimed files reason n s pkt t)
perform-IsTimed files reason n s (error_response status ∷ rs) t =
    perform-IsTimed files reason n (send_error_response reason s status) rs
      (send_error_response-IsTimed reason n s status t)

handle_requests-IsTimed :
    (handshake : ErrorCode) (n : ℕ) (s : Session)
    → IsTimed n s
    → IsTimed n (handle_requests handshake s)
unfolding handle_requests
handle_requests-IsTimed handshake n s t = ground arith

close_connection-IsTimed :
    (w : Surroundings) (n : ℕ) (s : Session)
    → IsTimed n s
    → IsTimed n (close_connection w.shutdown s)
unfolding close_connection
close_connection-IsTimed w n s t = ground arith

on_read-IsTimed :
    (w : Surroundings) (n : ℕ) (s : Session) (ec : ErrorCode) (m : Message)
    → IsTimed n s
    → IsTimed n (on_read w s ec m)
unfolding on_read
on_read-IsTimed w n s ec m t =
    let s' = record s { reading = false; request = m } in
    let t' : IsTimed n s' = record { fixed = t.fixed; plain_error = t.plain_error } in
    let rs = replies_to s.processors (method_of w.indeterminate m.verb) (packet_of m) in
    let served = perform-IsTimed w.files w.reason n s' rs t' in
    ground (
      arith,
      close_connection-IsTimed w n s' t',
      handle_requests-IsTimed w.handshake n (perform w.files w.reason s' rs) served,
    )

-- The packet of the timeout, and the session with it.
abbrev pub timeout_packet : Session → Packet
timeout_packet s = record s.response_error_packet { status_code = gateway_timeout }

abbrev pub timing_out : Session → Session
timing_out s = record s { waiting = false; response_error_packet = timeout_packet s }

on_deadline-IsTimed :
    (w : Surroundings) (n : ℕ) (s : Session)
    → IsTimed n s
    → IsTimed n (on_deadline w.files w.reason w.shutdown s)
unfolding on_deadline
on_deadline-IsTimed w n s t = close_connection-IsTimed w n _ (
    send_response-IsTimed w.files w.reason n (timing_out s) (timeout_packet s)
      (record { fixed = t.fixed; plain_error = t.plain_error }))

tick-IsTimed :
    (w : Surroundings) (n now : ℕ) (s : Session)
    → IsTimed n s
    → IsTimed n (tick w.files w.reason w.shutdown now s)
unfolding tick
tick-IsTimed w n now s t = elim (Bool-cases (s.waiting && leb s.deadline now)) [
  | inl e ↦ rw e (on_deadline-IsTimed w n s t)
  | inr e ↦ rw e t
]

step-IsTimed : (n : ℕ) (s : Session) (e : Event) → IsTimed n s → IsTimed n (step s e)
unfolding step
step-IsTimed n s (serves processors) t = record { fixed = t.fixed; plain_error = t.plain_error }
step-IsTimed n s (begins w) t = handle_requests-IsTimed w.handshake n s t
step-IsTimed n s (reads w ec m) t = on_read-IsTimed w n s ec m t
step-IsTimed n s (ticks w now) t = tick-IsTimed w n now s t

run-IsTimed : (n : ℕ) (s : Session) (es : List Event) → IsTimed n s → IsTimed n (run s es)
unfolding run
run-IsTimed n s [] t = t
run-IsTimed n s (e ∷ es) t = run-IsTimed n (step s e) es (step-IsTimed n s e t)

-- What is left of a session behind its timeout.
pub record TimesOut (w : Surroundings) (s s' : Session) : Type 0 where
  pub not_waiting : s'.waiting ≡ false
  pub answered :
      s'.sent
      ≡ s.sent
        ++ record {
          version = 11;
          server = s.self_server_name;
          content_type = to_string s.response_error_packet.body_type;
          status = 504;
          body = s.response_error_packet.body;
        }
          ∷ []
  pub shut :
      (s'.socket.is_open ≡ false) ⊎ ((¬ Closes s.socket.kind w.shutdown) × (s'.socket ≡ s.socket))

shut_or_kept :
    (codes : Shutdown) (s : Socket)
    → ((close_socket codes s).0.is_open ≡ false)
      ⊎ ((¬ Closes s.kind codes) × ((close_socket codes s).0 ≡ s))
shut_or_kept codes s = elim (close_socket_lem codes s) [
  | inl e ↦ inl (rw e.1)
  | inr e ↦ inr (e.0, rw e.1)
]

close_connection-Closes :
    (w : Surroundings) (s : Session)
    → ((close_connection w.shutdown s).waiting ≡ false)
      × ((close_connection w.shutdown s).sent ≡ s.sent)
      × (((close_connection w.shutdown s).socket.is_open ≡ false)
          ⊎ ((¬ Closes s.socket.kind w.shutdown)
              × ((close_connection w.shutdown s).socket ≡ s.socket)))
unfolding close_connection
close_connection-Closes w s = elim (Bool-cases s.socket.is_open) [
  | inl o ↦ simp o (refl, refl, shut_or_kept w.shutdown s.socket)
  | inr o ↦ simp o (refl, refl, inl refl)
]

pub on_deadline-TimesOut :
    (w : Surroundings) (n : ℕ) (s : Session)
    → IsTimed n s
    → TimesOut w s (on_deadline w.files w.reason w.shutdown s)
unfolding on_deadline
on_deadline-TimesOut w n s t =
    let s' = send_response w.files w.reason (timing_out s) (timeout_packet s) in
    let c = close_connection-Closes w s' in
    let a =
      send_response-Sends w.files w.reason s.self_server_name (timing_out s) (timeout_packet s)
        refl in
    record {
      not_waiting = c.0;
      answered = c.1 ∙ a.sent ∙ rw t.plain_error;
      shut =
          subst
            (λ (k : Socket).
              ((close_connection w.shutdown s').socket.is_open ≡ false)
              ⊎ ((¬ Closes k.kind w.shutdown) × ((close_connection w.shutdown s').socket ≡ k)))
            a.socket c.2;
    }

-- However many requests a connection serves, by whatever processors it is given, and however often their
-- answers are sent: its time is counted from its beginning. A look at the timer ten seconds later or
-- more, while the deadline is watched, sends a 504, and closes the socket unless its layers refuse
-- the shutdown.
pub run-TimesOut :
    (name : String) (sock : Socket) (start now : ℕ) (es : List Event) (w : Surroundings)
    → start + 10 ≤ now
    → (run (new name sock start) es).waiting ≡ true
    → TimesOut w (run (new name sock start) es) (step (run (new name sock start) es) (ticks w now))
unfolding step tick new
run-TimesOut name sock start now es w h r =
    let t =
      run-IsTimed (start + 10) (new name sock start) es
        (record { fixed = refl; plain_error = refl }) in
    let s = run (new name sock start) es in
    let due : s.waiting && leb s.deadline now ≡ true = rw (r, t.fixed) (ground arith) in
    rw due (on_deadline-TimesOut w (start + 10) (run (new name sock start) es) t)
