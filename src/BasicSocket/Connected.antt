-- ===== src/BasicSocket/Connected.antt =====
-- What a session says of its connection.
use components_network.Prelude.{◌≡◌, refl, ◌∙◌, true, List, [], ◌∷◌, arith}
use components_network.BasicSocket.{
  Session, on_read, on_connect, Event, starts, connects, arrives, reads, sends, sets_read_callback,
  sets_close_callback, closes, start, set_read_callback, set_close_callback, close, send, step,
  steps,
}

-- Still connected, by its own account, and with as many calls of the close callback.
Lasts : Session → Session → Type 0
Lasts s s' = (s'.is_connected ≡ true) × (s'.close_calls ≡ s.close_calls)

step-Lasts : (s : Session) (e : Event) → s.is_connected ≡ true → Lasts s (step s e)
unfolding Lasts step start set_read_callback set_close_callback close send on_read on_connect
step-Lasts s (starts resolver_throws host) c = ground arith
step-Lasts s (connects ec) c = ground arith
step-Lasts s (arrives more) c = ground arith
step-Lasts s (reads ec given) c = ground arith
step-Lasts s (sends count text) c = ground arith
step-Lasts s (sets_read_callback given) c = ground arith
step-Lasts s (sets_close_callback given) c = ground arith
step-Lasts s (closes cancel_throws shutdown_throws) c = ground arith

-- Once a session says that it is connected, it says so for ever, and its close callback is not
-- called, whatever happens: reads that fail and its being closed included.
pub steps-Lasts :
    (s : Session) (es : List Event)
    → s.is_connected ≡ true
    → ((steps s es).is_connected ≡ true) × ((steps s es).close_calls ≡ s.close_calls)
unfolding steps Lasts
steps-Lasts s [] c = (c, refl)
steps-Lasts s (e ∷ es) c =
    let one = step-Lasts s e c in
    let all = steps-Lasts (step s e) es one.0 in (all.0, all.1 ∙ one.1)
