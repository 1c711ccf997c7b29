-- ===== src/WebSockets/Server/Stopping.antt =====
-- What stays of a server that is stopped.
use components_network.Prelude.{
  ℕ, number_key, ◌≡◌, ◌⊎◌, inl, refl, ap, ◌∙◌, true, false, List, [], ◌∷◌, arith, if◌then◌else◌,
}
use components_network.WebSockets.Server.{
  Server, contains, without, Handler, opens, closes, handle, handle_all, stop_listening, close_all,
  end_thread, Event, listens, stops, calls, on_open, on_close, listen, stop, step, steps,
}

-- The handles that are left of those that these handlers open, beginning with some.
abbrev pub left_open : List ℕ → List Handler → List ℕ
left_open hs [] = hs
left_open hs (opens h ∷ cs) = left_open (if contains hs h then hs else h ∷ hs) cs
left_open hs (closes h code ∷ cs) = left_open (without hs h) cs

handle_all-left_open :
    (d : Server) (cs : List Handler)
    → d.in_run ≡ true
    → ((handle_all d cs).connections ≡ left_open d.connections cs)
      × ((handle_all d cs).has_thread ≡ d.has_thread)
unfolding handle_all handle on_open on_close
handle_all-left_open d [] r = (refl, refl)
handle_all-left_open d (opens h ∷ cs) r =
    ground (arith, handle_all-left_open (handle d (opens h)) cs)
handle_all-left_open d (closes h code ∷ cs) r =
    ground (arith, handle_all-left_open (handle d (closes h code)) cs)

-- A thread that is not in `run` calls no handler.
handle-idle : (d : Server) (c : Handler) → d.in_run ≡ false → handle d c ≡ d
unfolding handle
handle-idle d (opens h) r = rw r
handle-idle d (closes h code) r = rw r

handle_all-idle : (d : Server) (cs : List Handler) → d.in_run ≡ false → handle_all d cs ≡ d
unfolding handle_all
handle_all-idle d [] r = refl
handle_all-idle d (c ∷ cs) r =
    ap (λ t. handle_all t cs) (handle-idle d c r) ∙ handle_all-idle d cs r

-- A server whose service was stopped, with these handles or none.
Ended : List ℕ → Server → Type 0
Ended hs d = (d.stopped ≡ true) × (d.in_run ≡ false) × ((d.connections ≡ hs) ⊎ (d.connections ≡ []))

stop-idle :
    (early late : List Handler) (d : Server)
    → d.in_run ≡ false
    → stop early late d ≡ end_thread (close_all (stop_listening d))
unfolding stop stop_listening close_all
stop-idle early late d r =
    ap (λ t. end_thread (handle_all (close_all t) late))
      (handle_all-idle (stop_listening d) early r)
    ∙ ap end_thread (handle_all-idle (close_all (stop_listening d)) late r)

step-Ended : (hs : List ℕ) (d : Server) (e : Event) → Ended hs d → Ended hs (step d e)
unfolding step Ended listen end_thread close_all stop_listening
step-Ended hs d (listens listen_fails accept_fails) v = ground arith
step-Ended hs d (stops early late) v = rw (stop-idle early late d v.1) (ground arith)
step-Ended hs d (calls c) v = rw (handle-idle d c v.1) v

steps-Ended : (hs : List ℕ) (d : Server) (es : List Event) → Ended hs d → Ended hs (steps d es)
unfolding steps
steps-Ended hs d [] v = v
steps-Ended hs d (e ∷ es) v = steps-Ended hs (step d e) es (step-Ended hs d e v)

handle_in_run : (d : Server) (c : Handler) → (handle d c).in_run ≡ d.in_run
unfolding handle on_open on_close
handle_in_run d (opens h) = ground arith
handle_in_run d (closes h code) = ground arith

handle_all_in_run : (d : Server) (cs : List Handler) → (handle_all d cs).in_run ≡ d.in_run
unfolding handle_all
handle_all_in_run d [] = refl
handle_all_in_run d (c ∷ cs) = handle_all_in_run (handle d c) cs ∙ handle_in_run d c

-- A server is stopped while its thread is in `run`. However the handlers of the thread fall between the
-- parts of `stop`, its connections behind it are those that they open, and do not close again,
-- between the clearing of the set and the end of the thread. Whatever happens to it after that, being
-- made to listen and being stopped again included, its connections are the same or none.
pub stop-steps_ws :
    (d : Server) (early late : List Handler) (es : List Event)
    → d.has_thread ≡ true
    → d.in_run ≡ true
    → ((stop early late d).connections ≡ left_open [] late)
      × (((steps (stop early late d) es).connections ≡ left_open [] late)
          ⊎ ((steps (stop early late d) es).connections ≡ []))
unfolding stop Ended close_all stop_listening end_thread
stop-steps_ws d early late es t r =
    let cleared = close_all (handle_all (stop_listening d) early) in
    let running : cleared.in_run ≡ true = handle_all_in_run (stop_listening d) early ∙ r in
    let left = handle_all-left_open cleared late running in
    let kept = handle_all-left_open (stop_listening d) early r in
    let threaded : (handle_all cleared late).has_thread ≡ true = left.1 ∙ kept.1 ∙ t in
    let ended : Ended (left_open [] late) (stop early late d) =
      rw threaded (refl, refl, inl left.0) in
    (rw threaded left.0, (steps-Ended (left_open [] late) (stop early late d) es ended).2)
