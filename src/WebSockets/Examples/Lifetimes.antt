-- ===== src/WebSockets/Examples/Lifetimes.antt =====
-- Runs of a plain WebSocket session, up to its destructor.
use components_network.Prelude.{◌≡◌, ◌≢◌, refl, true, false, [], ◌∷◌}
use components_network.WebSockets.Session
use components_network.WebSockets.Session.{reading}
use components_network.WebSockets.Session.Lifetime.{
  lives, undefined_behaviour, destroy, starts, resolves, releases, steps,
}
use components_network.WebSockets.Session.Lifetime.Bound.{steps-lives}
use components_network.WebSockets.Session.Lifetime.Reading.{messages, heard, releases-messages}

abbrev session : Session.Session
session = record Session.new { connected = true; pending = reading; has_read_callback = true }

releases-messages_example :
    steps (lives true session) (releases false ∷ messages ((1 ∷ []) ∷ (2 ∷ []) ∷ []) [] true)
    ≡ destroy true (Session.steps session (heard ((1 ∷ []) ∷ (2 ∷ []) ∷ []) []))
releases-messages_example = releases-messages session ((1 ∷ []) ∷ (2 ∷ []) ∷ []) [] false true refl

-- The owner lets the session go while its name is resolved, and the resolver fails.
steps-lives_example :
    steps
      (lives true Session.new)
      (starts (104 ∷ []) ∷ releases false ∷ resolves true false ∷ resolves false false ∷ [])
    ≢ undefined_behaviour
steps-lives_example =
    steps-lives Session.new
      (starts (104 ∷ []) ∷ releases false ∷ resolves true false ∷ resolves false false ∷ [])
