-- ===== src/Udp/Examples.antt =====
-- Runs of the UDP client and server.
use mathlib.Core.List.{reverse}
use components_network.Prelude.{
  arith, map, refl, Bytes, zero, suc, ◌≡◌, true, false, List, [], ◌∷◌, some,
}
use components_network.Udp.Client.{ErrorType, send_error, send_data, set_host}
use components_network.Udp.Client
use components_network.Udp.Exchange.{send_all, send_all-steps}
use components_network.Udp.Client.{Endpoint}
use components_network.Udp.Server
use components_network.Udp.Server.{
  Network, Event, starts, stops, sets_processor, receives, start, stop, is_working, steps,
}
use components_network.Udp.Server.Restart.{stop-steps}

-- A client with a host.
abbrev client : Client.Client
client = record Client.new { port = 7; server_endpoint = some 3 }

-- A system that lets a socket be opened once, and bound to port 0 only.
abbrev network : Network
network = record {
  opens = λ is_open. elim is_open [ true ↦ false | false ↦ true ];
  binds = λ port. elim port [ zero ↦ true | suc n ↦ false ];
}

abbrev events : List Event
events = sets_processor true ∷ starts network 0 ∷ receives false (1 ∷ []) ∷ []

stop-steps_example :
    (steps (stop (steps Server.new events)) events).processed ≡ (steps Server.new events).processed
stop-steps_example = stop-steps (steps Server.new events) events

-- The second text is empty, and the network turns the order round.
abbrev waiting : Server.Server
waiting = record Server.new {
  is_running = true;
  in_run = true;
  receiving = true;
  has_processor = true;
}

abbrev texts : List Bytes
texts = (1 ∷ []) ∷ [] ∷ (2 ∷ 3 ∷ []) ∷ []

send_all-steps_example :
    let sent = (send_all client texts).sent in
    (sent ≡ map (λ x. (client.server_endpoint, x)) texts)
    × ((steps waiting
          (map (receives false) (reverse (map (λ (p : Endpoint × Bytes). p.1) sent)))).processed
        ≡ (2 ∷ 3 ∷ []) ∷ (1 ∷ []) ∷ [])
send_all-steps_example =
    send_all-steps reverse client waiting texts
      (record { opened = refl; addressed = λ e. omega (arith, e) })
      (record { runs = refl; inside = refl; outstanding = refl; given = refl }) refl
