-- ===== src/Udp/Server/Restart.antt =====
-- A server over any sequence of events, and what becomes of it once it was stopped.
use components_network.Prelude.{
  ℕ, ◌≡◌, ◌⊎◌, refl, ◌∙◌, true, false, List, [], ◌∷◌, none, is_some, arith,
}
use components_network.Udp.Server.{
  Server, Network, new, Event, starts, stops, sets_processor, receives, start, stop, is_working,
  step, steps,
}

-- A server that is running holds a bound socket with a receive outstanding and has its thread; one
-- that is not running has none of them.
pub record Inv (d : Server) : Type 0 where
  pub phase :
      ((d.is_running ≡ true)
        × (d.is_open ≡ true)
        × (is_some d.bound ≡ true)
        × (d.receiving ≡ true)
        × (d.joinable ≡ true))
      ⊎ ((d.is_running ≡ false) × (d.joinable ≡ false) × (d.receiving ≡ false) × (d.bound ≡ none))
  pub in_run : (d.in_run ≡ false) ⊎ ((d.stopped ≡ false) × (d.is_running ≡ true))

step-Inv : (d : Server) (e : Event) → Inv d → Inv (step d e)
unfolding step
step-Inv d (starts net port) v = ground arith
step-Inv d stops v = ground arith
step-Inv d (sets_processor given) v = ground arith
step-Inv d (receives error received) v = ground arith

-- A server for which this holds keeps it over any sequence of events: running, it holds a bound
-- socket with a receive outstanding and has its thread; not running, it has none of them.
pub steps-Inv : (d : Server) (es : List Event) → Inv d → Inv (steps d es)
unfolding steps
steps-Inv d [] v = v
steps-Inv d (e ∷ es) v = steps-Inv (step d e) es (step-Inv d e v)

pub new-Inv : Inv new
new-Inv = ground arith

step_stopped :
    (d : Server) (e : Event)
    → d.stopped ≡ true
    → d.in_run ≡ false
    → ((step d e).stopped ≡ true)
      × ((step d e).in_run ≡ false)
      × ((step d e).processed ≡ d.processed)
unfolding step
step_stopped d (starts net port) s r = ground arith
step_stopped d stops s r = ground arith
step_stopped d (sets_processor given) s r = ground arith
step_stopped d (receives error received) s r = ground arith

steps_stopped :
    (d : Server) (es : List Event)
    → d.stopped ≡ true
    → d.in_run ≡ false
    → (steps d es).processed ≡ d.processed
unfolding steps
steps_stopped d [] s r = refl
steps_stopped d (e ∷ es) s r =
    let t = step_stopped d e s r in steps_stopped (step d e) es t.0 t.1 ∙ t.2

-- A server that was stopped once never processes a datagram again, whatever happens to it, starts
-- included.
pub stop-steps : (d : Server) (es : List Event) → (steps (stop d) es).processed ≡ d.processed
unfolding stop
stop-steps d es = steps_stopped (stop d) es refl refl

-- Where the system lets a stopped server open and bind its socket, its start succeeds, and it says
-- that it works.
pub stop-start :
    (net : Network) (d : Server) (port : ℕ)
    → net.opens false ≡ true
    → net.binds port ≡ true
    → (start net (stop d) port).1 ≡ true × (is_working (start net (stop d) port).0 ≡ true)
unfolding start stop is_working
stop-start net d port o b = ground arith

-- Where the system refuses to open an open socket, a server whose port could not be bound cannot be
-- started on any port before it is stopped.
pub start_after_failed_bind :
    (net net' : Network) (d : Server) (port port' : ℕ)
    → d.is_running ≡ false
    → net.opens d.is_open ≡ true
    → net.binds port ≡ false
    → net'.opens true ≡ false
    → (start net' (start net d port).0 port').1 ≡ false
unfolding start
start_after_failed_bind net net' d port port' r o b r' = ground arith
