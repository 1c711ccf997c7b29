-- ===== src/WebSockets/Session/Reading.antt =====
-- What the read callback of a session is called with.
use components_network.Prelude.{
  ◌≡◌, refl, ap, ◌∙◌, Bytes, true, false, List, [], ◌∷◌, ◌++◌, map, append_assoc, append-nil,
}
use components_network.WebSockets.Session.{Session, reading, reads, step, steps}

-- All that was received up to each message.
abbrev pub received_so_far : Bytes → List Bytes → List Bytes
received_so_far all [] = []
received_so_far all (m ∷ ms) = (all ++ m) ∷ received_so_far (all ++ m) ms

step-reads :
    (s : Session) (m : Bytes)
    → s.pending ≡ reading
    → s.has_read_callback ≡ true
    → step s (reads false m) ≡ record s {
      buffer = s.buffer ++ m;
      read_calls = s.read_calls ++ (s.buffer ++ m) ∷ [];
      pending = reading;
    }
unfolding step
step-reads s m p h = rw (p, h)

-- In a session that reads and has a read callback the buffer is never emptied: for each message that
-- is read the callback is called once, with that message behind all those before it.
pub steps-reads :
    (s : Session) (ms : List Bytes)
    → s.pending ≡ reading
    → s.has_read_callback ≡ true
    → (steps s (map (reads false) ms)).read_calls ≡ s.read_calls ++ received_so_far s.buffer ms
unfolding steps
steps-reads s [] p h = rw append-nil
steps-reads s (m ∷ ms) p h =
    let s' = record s {
      buffer = s.buffer ++ m;
      read_calls = s.read_calls ++ (s.buffer ++ m) ∷ [];
      pending = reading;
    } in
    ap (λ (t : Session). (steps t (map (reads false) ms)).read_calls) (step-reads s m p h)
    ∙ steps-reads s' ms refl h
    ∙ append_assoc s.read_calls ((s.buffer ++ m) ∷ []) _
