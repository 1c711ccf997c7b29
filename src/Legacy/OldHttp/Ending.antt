-- ===== src/Legacy/OldHttp/Ending.antt =====
-- How the old HTTP server ends, and what its sessions answer with.
use components_network.Prelude.{
  ℕ, zero, suc, ◌≡◌, refl, sym, ◌∙◌, ap, ◌≤◌, ◌+◌, ◌-◌, ltb, number_key, Bool, true, false, ◌&&◌,
  List, [], ◌∷◌, if◌then◌else◌, arith, if_cases, replicate, subst, All,
}
use components_network.Legacy.OldHttp.Answers.{Processors, get, post, put, delete, other, Response}
use components_network.Legacy.OldHttp.{
  Server, accept_connections, close_acceptor, stop, has_all, on_accept, on_accept_error,
  set_processor, Event, starts, stops, sets, accepts, fails_to_accept, reads, step, steps,
}

-- On a closed acceptor the handler of an accept that was called off makes the next one.
abort_lem : (d : Server) → d.acceptor_open ≡ false → step d (fails_to_accept true) ≡ d
unfolding step on_accept_error accept_connections
abort_lem d o =
    if_cases (λ s. s ≡ d) (d.in_run && ltb 0 d.aborted)
      (λ t.
        if_cases (λ s. s ≡ d) d.acceptor_open (λ t. absurd (ground arith))
          (λ closed.
            let same : d.aborted - 1 + 1 ≡ d.aborted = ground arith in
            λ i. record d { aborted = same i }))
      (λ f. refl)

aborts_lem :
    (n : ℕ) (d : Server)
    → d.acceptor_open ≡ false
    → steps d (replicate n (fails_to_accept true)) ≡ d
unfolding steps
aborts_lem zero d o = refl
aborts_lem (suc n) d o =
    ap (λ s. steps s (replicate n (fails_to_accept true))) (abort_lem d o) ∙ aborts_lem n d o

-- Where `stop` gets an exception from the `cancel` of the socket that waits for a connection, a server
-- that was in `run` with an accept outstanding stays in `run` for however many handlers of accepts
-- are called: there always is another one.
pub stop-aborts :
    (n : ℕ) (d : Server)
    → d.in_run ≡ true
    → 1 ≤ d.accepting
    → let d' = steps (stop false true d) (replicate n (fails_to_accept true)) in
      (d'.in_run ≡ true) × (d'.stopped ≡ d.stopped) × (1 ≤ d'.aborted)
unfolding stop close_acceptor
stop-aborts n d r a =
    let d' = close_acceptor d in
    subst (λ s. (s.in_run ≡ true) × (s.stopped ≡ d.stopped) × (1 ≤ s.aborted))
      (sym (aborts_lem n d' refl)) (r, refl, omega arith)

abbrev pub is_start : Event → Bool
is_start (starts opening port) = true
is_start _ = false

-- Out of `run`, with these sessions and these answers.
Rests : List (ℕ × Processors) → List (ℕ × Response) → Server → Type 0
Rests sessions written d = (d.in_run ≡ false) × (d.sessions ≡ sessions) × (d.written ≡ written)

step-Rests :
    (sessions : List (ℕ × Processors)) (written : List (ℕ × Response)) (d : Server) (e : Event)
    → is_start e ≡ false
    → Rests sessions written d
    → Rests sessions written (step d e)
unfolding Rests step stop close_acceptor set_processor
step-Rests sessions written d (starts opening port) h v = absurd (ground arith)
step-Rests sessions written d (stops acceptor_throws socket_throws) h v = ground arith
step-Rests sessions written d (sets get f) h v = v
step-Rests sessions written d (sets post f) h v = v
step-Rests sessions written d (sets put f) h v = v
step-Rests sessions written d (sets delete f) h v = v
step-Rests sessions written d (sets (other name) f) h v = v
step-Rests sessions written d accepts h v =
    if_cases (Rests sessions written) (d.in_run && ltb 0 d.accepting) (λ t. absurd (ground arith))
      (λ f. v)
step-Rests sessions written d (fails_to_accept called_off) h v =
    if_cases (Rests sessions written)
      (d.in_run && ltb 0 (if called_off then d.aborted else d.accepting))
      (λ t. absurd (ground arith)) (λ f. v)
step-Rests sessions written d (reads id input) h v =
    if_cases (Rests sessions written) d.in_run (λ t. absurd (ground arith)) (λ f. v)

steps-Rests :
    (sessions : List (ℕ × Processors)) (written : List (ℕ × Response)) (d : Server)
    (es : List Event)
    → All (λ e. is_start e ≡ false) es
    → Rests sessions written d
    → Rests sessions written (steps d es)
unfolding steps
steps-Rests sessions written d [] h v = v
steps-Rests sessions written d (e ∷ es) h v =
    steps-Rests sessions written (step d e) es h.1 (step-Rests sessions written d e h.0 v)

-- Where one of the four processors is missing, the first connection that is made ends `run`: until
-- `start` is called again, no session is added and none answered, whatever processors are set.
pub accepts-steps :
    (d : Server) (es : List Event)
    → d.in_run ≡ true
    → 1 ≤ d.accepting
    → has_all d.processors ≡ false
    → All (λ e. is_start e ≡ false) es
    → let d' = steps (step d accepts) es in
      (d'.in_run ≡ false) × (d'.sessions ≡ d.sessions) × (d'.written ≡ d.written)
unfolding Rests step on_accept
accepts-steps d es r a m h = steps-Rests d.sessions d.written (step d accepts) es h (
    if_cases (Rests d.sessions d.written) (d.in_run && ltb 0 d.accepting)
      (λ t. rw m (refl, refl, refl)) (λ f. absurd (ground arith)))
