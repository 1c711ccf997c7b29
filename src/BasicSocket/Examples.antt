-- ===== src/BasicSocket/Examples.antt =====
-- A session that connects, reads and fails to read.
use components_network.Prelude.{◌≡◌, refl, true, false, List, [], ◌∷◌, ◌++◌}
use components_network.BasicSocket.{
  Session, new, Event, starts, connects, arrives, reads, sends, sets_read_callback, start,
  on_connect, set_read_callback, step, steps,
}
use components_network.BasicSocket.Reading.{Listens, seen, arrived, steps-seen}

abbrev session : Session
session = steps new (sets_read_callback true ∷ starts false (104 ∷ []) ∷ connects false ∷ [])

abbrev events : List Event
events =
    arrives (1 ∷ 2 ∷ 3 ∷ [])
    ∷ reads false 2
    ∷ sends 5 (7 ∷ [])
    ∷ arrives (4 ∷ [])
    ∷ reads false 9
    ∷ reads true 0
    ∷ []

steps-seen_example :
    Listens (steps session events) × (seen (steps session events) ≡ [] ++ arrived events)
unfolding steps step start on_connect set_read_callback
steps-seen_example =
    steps-seen session events (refl, (refl, (refl, (refl, (refl, (refl, tt)))))) (refl, refl, tt)
