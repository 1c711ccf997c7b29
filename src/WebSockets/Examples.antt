-- ===== src/WebSockets/Examples.antt =====
-- Runs of a WebSocket session and a WebSocket server.
mod Secure
mod Lifetimes
use components_network.Prelude.{◌≡◌, refl, true, false, List, [], ◌∷◌, map}
use components_network.WebSockets.Session.{
  Session, reading, handshaking, handshakes, reads, sets_close_callback, closes, steps, on_connect,
  on_handshake,
}
use components_network.WebSockets.Session.Reading.{steps-reads}
use components_network.WebSockets.Session.Connected.{on_handshake-steps}
use components_network.WebSockets.Session
use components_network.WebSockets.Server.{listens, calls, stop, Handler}
use components_network.WebSockets.Server
use components_network.WebSockets.Client
use components_network.WebSockets.Client.Pings.{bytes_of, on_pong-on_timeout}
use components_network.WebSockets.Client.Restart.{Finished, steps-Finished}
use components_network.Prelude.Assoc.{find, insert, erase}
use components_network.Prelude.{
  ℕ, ◌+◌, ◌⊎◌, ◌++◌, ◌==◌, number_key, none, replicate, arith, if◌then◌else◌,
}
use components_network.WebSockets.Server.Stopping.{stop-steps_ws}

-- A session that reads, with a callback.
abbrev session : Session.Session
session = record Session.new { connected = true; pending = reading; has_read_callback = true }

steps-reads_example :
    (Session.steps session (map (reads false) ((1 ∷ []) ∷ (2 ∷ []) ∷ []))).read_calls
    ≡ (1 ∷ []) ∷ (1 ∷ 2 ∷ []) ∷ []
steps-reads_example = steps-reads session ((1 ∷ []) ∷ (2 ∷ []) ∷ []) refl refl

abbrev events : List Server.Event
events =
    listens false false
    ∷ calls (Server.opens 4)
    ∷ calls (Server.opens 5)
    ∷ calls (Server.closes 4 1001)
    ∷ []

-- A connection opens behind the clearing of the set.
abbrev late : List Handler
late = Server.opens 6 ∷ Server.closes 5 1000 ∷ []

stop-steps_ws_example :
    let d = Server.steps Server.new events in
    ((stop [] late d).connections ≡ 6 ∷ [])
    × (((Server.steps (stop [] late d) events).connections ≡ 6 ∷ [])
        ⊎ ((Server.steps (stop [] late d) events).connections ≡ []))
unfolding Server.steps Server.step Server.handle
stop-steps_ws_example = stop-steps_ws (Server.steps Server.new events) [] late events refl refl

abbrev waiting : Client.Client
waiting = record Client.new { connected = true; pending_pings = (258, 3) ∷ []; promises = 4 }

abbrev finished : Client.Client
finished = record Client.new { has_thread = true }
