-- ===== src/WebSockets/Session/Connected.antt =====
-- What `isConnected` says of a session.
use components_network.Prelude.{
  ◌≡◌, refl, Bytes, true, false, List, [], ◌∷◌, arith, none, some, ◌∙◌,
}
use components_network.WebSockets.Session.{
  Session, idle, Event, handshakes, reads, sends, sets_read_callback, sets_close_callback, closes,
  step, steps, on_connect, on_handshake,
}

step_keeps : (s : Session) (e : Event) → s.connected ≡ true → (step s e).connected ≡ true
unfolding step
step_keeps s (handshakes failed) h = ground arith
step_keeps s (reads failed received) h = ground arith
step_keeps s (sends none text) h = h
step_keeps s (sends (some n) text) h = h
step_keeps s (sets_read_callback given) h = h
step_keeps s (sets_close_callback given) h = h
step_keeps s closes h = ground arith

steps_keep : (s : Session) (es : List Event) → s.connected ≡ true → (steps s es).connected ≡ true
unfolding steps
steps_keep s [] h = h
steps_keep s (e ∷ es) h = steps_keep (step s e) es (step_keeps s e h)

-- From the moment its TCP connection is there a session says that it is connected, whatever happens
-- to it until it is started again: a failed handshake, a failed read or being closed included.
pub on_connect-steps :
    (s : Session) (port : Bytes) (es : List Event)
    → (steps (on_connect s false port) es).connected ≡ true
unfolding on_connect
on_connect-steps s port es = steps_keep (on_connect s false port) es refl

step_idle :
    (s : Session) (e : Event)
    → s.pending ≡ idle
    → ((step s e).pending ≡ idle)
      × ((step s e).read_calls ≡ s.read_calls)
      × ((step s e).close_calls ≡ s.close_calls)
unfolding step
step_idle s (handshakes failed) h = ground arith
step_idle s (reads failed received) h = ground arith
step_idle s (sends none text) h = (h, refl, refl)
step_idle s (sends (some n) text) h = (h, refl, refl)
step_idle s (sets_read_callback given) h = (h, refl, refl)
step_idle s (sets_close_callback given) h = (h, refl, refl)
step_idle s closes h = ground arith

steps_idle :
    (s : Session) (es : List Event)
    → s.pending ≡ idle
    → ((steps s es).read_calls ≡ s.read_calls) × ((steps s es).close_calls ≡ s.close_calls)
unfolding steps
steps_idle s [] h = (refl, refl)
steps_idle s (e ∷ es) h =
    let one = step_idle s e h in
    let rest = steps_idle (step s e) es one.0 in (rest.0 ∙ one.1, rest.1 ∙ one.2)

-- A failed handshake ends a session in silence: neither callback is called for it, nor for anything
-- that happens after it until the session is started again.
pub on_handshake-steps :
    (s : Session) (es : List Event)
    → let s' = steps (on_handshake s true) es in
      (s'.read_calls ≡ s.read_calls) × (s'.close_calls ≡ s.close_calls)
unfolding on_handshake
on_handshake-steps s es = steps_idle (on_handshake s true) es refl
