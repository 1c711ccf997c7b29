-- ===== src/WebSockets/Examples/Secure.antt =====
-- Runs of a secure WebSocket session.
use components_network.Prelude.{◌≡◌, refl, true, false, List, [], ◌∷◌, ◌++◌, map, some}
use components_network.WebSockets.Session
use components_network.WebSockets.SecureSession
use components_network.WebSockets.SecureSession.Released.{after_release, steps-releases}

abbrev listening : SecureSession.SecureSession
listening = record SecureSession.new { has_read_callback = true; has_close_callback = true }

-- A message, an answer to it, and a failed read.
abbrev conversation : List Session.Event
conversation =
    Session.reads false (1 ∷ 2 ∷ [])
    ∷ Session.sends (some 1) (3 ∷ [])
    ∷ Session.reads true []
    ∷ Session.closes
    ∷ []

abbrev reading : SecureSession.SecureSession
reading = record listening { connected = true; pending = Session.reading }

steps-releases_example :
    SecureSession.steps (SecureSession.alive reading) (
      map (SecureSession.reads false) ((1 ∷ []) ∷ [])
      ++ SecureSession.releases false ∷ SecureSession.reads true [] ∷ [])
    ≡ after_release true false
steps-releases_example = steps-releases reading ((1 ∷ []) ∷ []) false true [] refl
