-- ===== src/WebSockets/Client/Restart.antt =====
-- The thread of src/WebSockets/client.cpp, which is made once.
use components_network.Prelude.{◌≡◌, refl, ◌∙◌, true, false, List, [], ◌∷◌, arith, number_key}
use components_network.WebSockets.Client.{Client, Event, connects, disconnects, step, steps}

-- A client without a connection whose thread has left `run`.
abbrev pub Finished : Client → Type 0
Finished d = (d.has_thread ≡ true) × (d.in_run ≡ false) × (d.connected ≡ false)

step-Finished :
    (d : Client) (e : Event) → Finished d → Finished (step d e) × ((step d e).settled ≡ d.settled)
unfolding step
step-Finished d (connects failing) h = ground arith
step-Finished d (disconnects reason) h = ground arith
step-Finished d _ h = ground arith

-- Once the thread of a client has left `run`, without a connection, the client is never connected
-- again, `connect` included, and no promise of a ping is set any more.
pub steps-Finished :
    (d : Client) (es : List Event)
    → Finished d
    → Finished (steps d es) × ((steps d es).settled ≡ d.settled)
unfolding steps
steps-Finished d [] h = (h, refl)
steps-Finished d (e ∷ es) h =
    let (one, kept) = step-Finished d e h in
    let (all, rest) = steps-Finished (step d e) es one in (all, rest ∙ kept)
