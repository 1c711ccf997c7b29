-- ===== src/Legacy/OldHttp/Serving.antt =====
-- How long the old HTTP server serves.
use components_network.Prelude.{
  ℕ, Bytes, ◌≡◌, refl, ◌≤◌, ◌+◌, ◌-◌, ltb, number_key, Bool, true, false, ◌&&◌, List, [], ◌∷◌,
  Option, none, some, is_some, if◌then◌else◌, arith, if_cases, inl, inr, subst, All,
}
use components_network.Prelude.Assoc.{find, erase, insert, insert_cases, erase_cases}
use components_network.Legacy.OldHttp.Answers.{
  Processors, Processor, Verb, get, post, put, delete, other, Request, Response, process_request,
  dispatch, PacketMeta, meta_of,
}
use components_network.Legacy.OldHttp.{
  Server, accept_connections, has_all, on_accept, on_accept_error, on_read, read_by, answered,
  set_processor, Event, starts, stops, sets, accepts, fails_to_accept, reads, step, steps,
}

-- A server in `run`, all of whose processors are set, and those of its sessions too, and that waits
-- for a connection.
pub record Serves (d : Server) : Type 0 where
  pub runs : d.in_run ≡ true
  pub complete : has_all d.processors ≡ true
  pub waits : 1 ≤ d.accepting + d.aborted
  pub given : (id : ℕ) (ps : Processors) → find id d.sessions ≡ some ps → has_all ps ≡ true

-- What a server is meant to be spared: being stopped, losing a processor, and a request whose other
-- side is gone when it is processed.
abbrev pub has_peer : Option (Request × Option Bytes) → Bool
has_peer none = true
has_peer (some (request, peer)) = is_some peer

abbrev pub is_friendly : Event → Bool
is_friendly (starts opening port) = true
is_friendly (stops acceptor_throws socket_throws) = false
is_friendly (sets verb f) = is_some f
is_friendly accepts = true
is_friendly (fails_to_accept called_off) = true
is_friendly (reads id input) = has_peer input

dispatch_some :
    (ps : Processors) (version : ℕ) (verb : Verb) (meta : PacketMeta)
    → has_all ps ≡ true
    → is_some (dispatch ps version verb meta) ≡ true
dispatch_some ps version get meta h = ground arith
dispatch_some ps version post meta h = ground arith
dispatch_some ps version put meta h = ground arith
dispatch_some ps version delete meta h = ground arith
dispatch_some ps version (other name) meta h = refl

process_request-HasAnswer :
    (ps : Processors) (request : Request) (session_id : Bytes)
    → has_all ps ≡ true
    → is_some (process_request ps request (some session_id)) ≡ true
unfolding process_request
process_request-HasAnswer ps request session_id h =
    dispatch_some ps request.version request.method (meta_of request session_id) h

set_processor-Serves :
    (verb : Verb) (f : Option Processor) (d : Server)
    → is_some f ≡ true
    → Serves d
    → Serves (set_processor verb f d)
unfolding set_processor
set_processor-Serves get f d h v = record {
  runs = v.runs;
  complete = ground arith;
  waits = v.waits;
  given = v.given;
}
set_processor-Serves post f d h v = record {
  runs = v.runs;
  complete = ground arith;
  waits = v.waits;
  given = v.given;
}
set_processor-Serves put f d h v = record {
  runs = v.runs;
  complete = ground arith;
  waits = v.waits;
  given = v.given;
}
set_processor-Serves delete f d h v = record {
  runs = v.runs;
  complete = ground arith;
  waits = v.waits;
  given = v.given;
}
set_processor-Serves (other name) f d h v = v

Given : List (ℕ × Processors) → Type 0
Given sessions = (id : ℕ) (ps : Processors) → find id sessions ≡ some ps → has_all ps ≡ true

accept_connections-Serves :
    (d : Server)
    → d.in_run ≡ true
    → has_all d.processors ≡ true
    → Given d.sessions
    → Serves (accept_connections d)
unfolding accept_connections Given
accept_connections-Serves d r c g =
    if_cases Serves d.acceptor_open
      (λ o. record { runs = r; complete = c; waits = omega arith; given = g })
      (λ o. record { runs = r; complete = c; waits = omega arith; given = g })

on_accept-Serves : (d : Server) → Serves d → Serves (on_accept d)
unfolding on_accept Given
on_accept-Serves d v = rw v.complete (
    accept_connections-Serves
      (record d {
        accepting = d.accepting - 1;
        sessions = insert d.next d.processors d.sessions;
        next = d.next + 1;
      })
      v.runs v.complete
      (λ id ps e. elim (insert_cases d.next id d.processors ps d.sessions e) [
        | inl (i, j) ↦ subst (λ qs. has_all qs ≡ true) j v.complete
        | inr old ↦ v.given id ps old
      ]))

on_accept_error-Serves :
    (called_off : Bool) (d : Server) → Serves d → Serves (on_accept_error called_off d)
unfolding on_accept_error Given
on_accept_error-Serves true d v =
    accept_connections-Serves (record d { aborted = d.aborted - 1 }) v.runs v.complete v.given
on_accept_error-Serves false d v =
    accept_connections-Serves (record d { accepting = d.accepting - 1 }) v.runs v.complete v.given

without-Serves :
    (id : ℕ) (d : Server) → Serves d → Serves (record d { sessions = erase id d.sessions })
without-Serves id d v = record {
  runs = v.runs;
  complete = v.complete;
  waits = v.waits;
  given = λ k ps e. v.given k ps (erase_cases id k ps d.sessions e).1;
}

answered-Serves :
    (id : ℕ) (d : Server) (o : Option Response)
    → is_some o ≡ true
    → Serves d
    → Serves (answered id d o)
answered-Serves id d (some response) e v = record {
  runs = v.runs;
  complete = v.complete;
  waits = v.waits;
  given = v.given;
}
answered-Serves id d none e v = absurd (ground arith)

read_by-Serves :
    (id : ℕ) (input : Option (Request × Option Bytes)) (o : Option Processors) (d : Server)
    → find id d.sessions ≡ o
    → has_peer input ≡ true
    → Serves d
    → Serves (read_by id d input o)
read_by-Serves id input none d e h v = v
read_by-Serves id none (some ps) d e h v = without-Serves id d v
read_by-Serves id (some (request, none)) (some ps) d e h v = absurd (ground arith)
read_by-Serves id (some (request, some peer)) (some ps) d e h v =
    answered-Serves id (record d { sessions = erase id d.sessions })
      (process_request ps request (some peer))
      (process_request-HasAnswer ps request peer (v.given id ps e)) (without-Serves id d v)

step-Serves : (d : Server) (e : Event) → is_friendly e ≡ true → Serves d → Serves (step d e)
unfolding step on_read
step-Serves d (starts opening port) h v =
    if_cases Serves d.in_run (λ t. v) (λ f. absurd (ground (arith, v.runs)))
step-Serves d (stops acceptor_throws socket_throws) h v = absurd (ground arith)
step-Serves d (sets verb f) h v = set_processor-Serves verb f d h v
step-Serves d accepts h v =
    if_cases Serves (d.in_run && ltb 0 d.accepting) (λ t. on_accept-Serves d v) (λ t. v)
step-Serves d (fails_to_accept called_off) h v =
    if_cases Serves (d.in_run && ltb 0 (if called_off then d.aborted else d.accepting))
      (λ t. on_accept_error-Serves called_off d v) (λ t. v)
step-Serves d (reads id input) h v =
    if_cases Serves d.in_run (λ t. read_by-Serves id input (find id d.sessions) d refl h v) (λ t. v)

-- A server in `run` with all four processors set, for itself and its sessions, that has an accept
-- outstanding, or one that was called off and whose handler is to be called, stays so whatever
-- connections are made, accepts fail, requests come and processors are set, as long as it is not
-- stopped, no processor is emptied, and every request that was read is processed while its socket
-- still has an address on the other side.
pub steps-Serves :
    (d : Server) (es : List Event)
    → All (λ e. is_friendly e ≡ true) es
    → Serves d
    → Serves (steps d es)
unfolding steps
steps-Serves d [] h v = v
steps-Serves d (e ∷ es) h v = steps-Serves (step d e) es h.1 (step-Serves d e h.0 v)
