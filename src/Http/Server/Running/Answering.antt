-- ===== src/Http/Server/Running/Answering.antt =====
-- What the connections of a running server answer.
use components_network.Prelude.{
  All-snoc, All-get_elem?, nat_beq, if◌then◌else◌, ℕ, zero, suc, ◌&&◌, true, false, leb, Bool-cases,
  inl, inr, ◌≡◌, refl, ◌∙◌, ap, subst, List, [], ◌∷◌, map, Option, none, some, if_cases, arith, All,
  get_elem?,
}
use mathlib.Core.Option.{some-injective}
use components_network.Http.Socket.{Shutdown, ErrorCode, success, is_error}
use components_network.Http.Client.{Verb}
use components_network.Http.Session.{
  Session, Message, Surroundings, on_read, tick, on_deadline, close_connection, handle_requests,
  send_response, replies_to, method_of, packet_of,
}
use components_network.Http.Session.Deadline.{timing_out, timeout_packet}
use components_network.Http.Session.Answers.{perform-Sends, send_response-Sends}
use components_network.Http.Server.{
  Processors, Impl, Server, method_processors, set_handler, on_accept, connection,
}
use components_network.Http.Server.Routing.{Answers, on_read-handle_method, method_of_verb}
use components_network.Http.Server.Registration.{
  Registration, registered, is_known, latest, answer_by, handle_method-registered,
}
use components_network.Http.Server.Running.{
  refer, refer_all, register, accepted, change, changed, read, Event, registers, accepts, reads,
  ticks, step, steps,
}

-- The connections of a server.
abbrev pub connections_of : Option Impl → List Session
connections_of none = []
connections_of (some i) = i.connections

-- The processors of a connection look into this map.
abbrev pub Refers : Processors → Session → Type 0
Refers ps s = s.processors ≡ method_processors ps

-- All connections look into the map of the server, which is what these registrations made of it.
pub record Inv (rs : List Registration) (d : Server) : Type 0 where
  pub listed : d.processors ≡ registered rs
  pub shared : All (Refers (registered rs)) (connections_of d.impl)

map-Refers : (ps : Processors) (ss : List Session) → All (Refers ps) (map (refer ps) ss)
map-Refers ps [] = tt
map-Refers ps (s ∷ ss) = (refl, map-Refers ps ss)

change-Refers :
    (ps : Processors) (k : ℕ) (f : Session → Session) (ss : List Session)
    → ((s : Session) → (f s).processors ≡ s.processors)
    → All (Refers ps) ss
    → All (Refers ps) (change k f ss)
unfolding change
change-Refers ps k f [] h a = tt
change-Refers ps zero f (s ∷ ss) h a = (h s ∙ a.0, a.1)
change-Refers ps (suc k) f (s ∷ ss) h a = (a.0, change-Refers ps k f ss h a.1)

on_read-processors :
    (w : Surroundings) (s : Session) (ec : ErrorCode) (m : Message)
    → (on_read w s ec m).processors ≡ s.processors
unfolding on_read close_connection handle_requests
on_read-processors w s ec m =
    let served =
      perform-Sends w.files w.reason s.self_server_name (record s { reading = false; request = m })
        (replies_to s.processors (method_of w.indeterminate m.verb) (packet_of m)) refl in
    ground (arith, served.processors)

read-processors :
    (w : Surroundings) (ec : ErrorCode) (m : Message) (s : Session)
    → (read w ec m s).processors ≡ s.processors
read-processors w ec m s = ground (arith, on_read-processors w s ec m)

close_connection-processors :
    (codes : Shutdown) (s : Session) → (close_connection codes s).processors ≡ s.processors
unfolding close_connection
close_connection-processors codes s = ground arith

on_deadline-processors :
    (w : Surroundings) (s : Session)
    → (on_deadline w.files w.reason w.shutdown s).processors ≡ s.processors
unfolding on_deadline
on_deadline-processors w s =
    let sent =
      send_response-Sends w.files w.reason s.self_server_name (timing_out s) (timeout_packet s)
        refl in
    close_connection-processors w.shutdown
      (send_response w.files w.reason (timing_out s) (timeout_packet s))
    ∙ sent.processors

tick-processors :
    (w : Surroundings) (now : ℕ) (s : Session)
    → (tick w.files w.reason w.shutdown now s).processors ≡ s.processors
unfolding tick
tick-processors w now s = elim (Bool-cases (s.waiting && leb s.deadline now)) [
  | inl e ↦ rw e (on_deadline-processors w s)
  | inr e ↦ rw e refl
]

handle_requests-processors :
    (handshake : ErrorCode) (s : Session) → (handle_requests handshake s).processors ≡ s.processors
unfolding handle_requests
handle_requests-processors handshake s = ground arith

-- The registrations among what happens, the last one first, in front of earlier ones.
abbrev pub registrations : List Registration → List Event → List Registration
registrations rs [] = rs
registrations rs (registers r ∷ es) = registrations (r ∷ rs) es
registrations rs (e ∷ es) = registrations rs es

accepted_shared :
    (rs : List Registration) (d : Server) (ec handshake : ErrorCode) (now : ℕ) (o : Option Impl)
    → d.processors ≡ registered rs
    → All (Refers (registered rs)) (connections_of o)
    → All (Refers (registered rs)) (connections_of (accepted d ec handshake now o))
unfolding on_accept connection
accepted_shared rs d ec handshake now none e a = tt
accepted_shared rs d ec handshake now (some i) e a =
    if_cases (λ (j : Impl). All (Refers (registered rs)) j.connections) (is_error ec) (λ t. a)
      (λ f. All-snoc (Refers (registered rs)) i.connections _ a (
        handle_requests-processors handshake (connection d.server_name d.processors i.is_secure now)
        ∙ ap method_processors e))

changed_shared :
    (ps : Processors) (k : ℕ) (f : Session → Session) (o : Option Impl)
    → ((s : Session) → (f s).processors ≡ s.processors)
    → All (Refers ps) (connections_of o)
    → All (Refers ps) (connections_of (changed k f o))
changed_shared ps k f none h a = tt
changed_shared ps k f (some i) h a = change-Refers ps k f i.connections h a

refer_all_shared :
    (ps : Processors) (o : Option Impl) → All (Refers ps) (connections_of (refer_all ps o))
refer_all_shared ps none = tt
refer_all_shared ps (some i) = map-Refers ps i.connections

pub steps-Inv_http :
    (rs : List Registration) (d : Server) (es : List Event)
    → Inv rs d
    → Inv (registrations rs es) (steps d es)
unfolding steps step register
steps-Inv_http rs d [] v = v
steps-Inv_http rs d (registers r ∷ es) v = steps-Inv_http (r ∷ rs) (register r d) es (record {
  listed = ap (λ ps. set_handler r.method ps r.target r.process) v.listed;
  shared =
      subst (λ ps. All (Refers ps) (connections_of (register r d).impl))
        (ap (λ ps. set_handler r.method ps r.target r.process) v.listed)
        (refer_all_shared _ d.impl);
})
steps-Inv_http rs d (accepts ec handshake now ∷ es) v =
    steps-Inv_http rs (step d (accepts ec handshake now)) es (record {
      listed = v.listed;
      shared = accepted_shared rs d ec handshake now d.impl v.listed v.shared;
    })
steps-Inv_http rs d (reads k w ec m ∷ es) v =
    steps-Inv_http rs (step d (reads k w ec m)) es (record {
      listed = v.listed;
      shared =
          changed_shared (registered rs) k (read w ec m) d.impl (read-processors w ec m) v.shared;
    })
steps-Inv_http rs d (ticks k w now ∷ es) v = steps-Inv_http rs (step d (ticks k w now)) es (record {
  listed = v.listed;
  shared = changed_shared (registered rs) k _ d.impl (tick-processors w now) v.shared;
})

get_elem?-change :
    (k j : ℕ) (f : Session → Session) (ss : List Session) (s : Session)
    → get_elem? ss k ≡ some s
    → get_elem? (change k f ss) j ≡ (if nat_beq k j then some (f s) else get_elem? ss j)
unfolding change
get_elem?-change k j f [] s e = absurd (ground arith)
get_elem?-change zero zero f (t ∷ ss) s e = ap (λ u. some (f u)) (some-injective t s e)
get_elem?-change zero (suc j) f (t ∷ ss) s e = ground arith
get_elem?-change (suc k) zero f (t ∷ ss) s e = ground arith
get_elem?-change (suc k) (suc j) f (t ∷ ss) s e = ground (arith, get_elem?-change k j f ss s e)

connections-changed :
    (k : ℕ) (f : Session → Session) (o : Option Impl)
    → connections_of (changed k f o) ≡ change k f (connections_of o)
unfolding change
connections-changed k f none = refl
connections-changed k f (some i) = refl

-- After whatever happened to a server, a request of a known verb that a connection has read is
-- answered on that connection, by what was registered last by then for its target and method, before
-- the connection was accepted or since, by 404 if that is nothing but the target was named in some
-- call, and by 501 if it was named in none; all other connections, and the map, stay as they are.
pub steps-reads_http :
    (rs : List Registration) (d : Server) (es : List Event) (k : ℕ) (s : Session) (w : Surroundings)
    (m : Message) (v : Verb)
    → Inv rs d
    → get_elem? (connections_of (steps d es).impl) k ≡ some s
    → s.reading ≡ true
    → m.verb ≡ some v
    → let asked = registrations rs es in
      let answers =
        answer_by
          (is_known m.target asked)
          (latest m.target (method_of_verb v) asked)
          (packet_of m) in
      let after = step (steps d es) (reads k w success m) in
      Answers w s m answers
      × ((j : ℕ)
          → get_elem? (connections_of after.impl) j ≡ (
              if nat_beq k j
              then some (on_read w s success m)
              else get_elem? (connections_of (steps d es).impl) j))
      × (after.processors ≡ (steps d es).processors)
unfolding step packet_of
steps-reads_http rs d es k s w m v i at_k outstanding verb =
    let asked = registrations rs es in
    let standing = steps-Inv_http rs d es i in
    let refers = All-get_elem? (Refers (registered asked)) _ k s standing.shared at_k in
    (
      subst (Answers w s m) (handle_method-registered asked (packet_of m) (method_of_verb v))
          (on_read-handle_method w s (registered asked) m v refers verb),
      λ j.
          ap (λ ss. get_elem? ss j) (connections-changed k (read w success m) (steps d es).impl)
          ∙ get_elem?-change k j (read w success m) _ s at_k
          ∙ ap (λ t. if nat_beq k j then some t else get_elem? (connections_of (steps d es).impl) j)
              (rw outstanding refl),
      refl,
    )
