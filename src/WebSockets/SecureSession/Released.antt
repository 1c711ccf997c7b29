-- ===== src/WebSockets/SecureSession/Released.antt =====
-- The handlers of a secure session that is released.
use components_network.Prelude.{
  ◌≡◌, refl, ◌∙◌, ap, Bytes, Bool, true, false, ◌&&◌, List, [], ◌∷◌, ◌++◌, map, if_cases,
  Bool-cases, inl, inr, arith, if◌then◌else◌,
}
use components_network.WebSockets.Session.{reading, is_reading}
use components_network.WebSockets.SecureSession.{
  SecureSession, Outcome, alive, terminated, undefined_behaviour, reads, releases, step, steps,
  on_read, close, destroy,
}

-- What the next completion of a read comes to once the session is released.
abbrev pub after_release : Bool → Bool → Outcome
after_release connected fails = if connected && fails then terminated else undefined_behaviour

-- A session that reads, and is connected or not.
abbrev pub Reads : Bool → Outcome → Type 0
Reads connected o =
    (s : SecureSession) × (o ≡ alive s) × (s.pending ≡ reading) × (s.connected ≡ connected)

reads-Reads :
    (s : SecureSession) (m : Bytes)
    → s.pending ≡ reading
    → Reads s.connected (step (alive s) (reads false m))
unfolding step on_read
reads-Reads s m p =
    if_cases (λ t. Reads s.connected (alive t)) (is_reading s.pending)
      (λ t.
        if_cases (λ u. Reads s.connected (alive u)) s.has_read_callback (λ y. (_, refl, refl, refl))
          (λ n. (_, refl, refl, refl)))
      (λ f. absurd (ground (arith, p)))

releases-reads :
    (s : SecureSession) (fails failed : Bool) (received : Bytes)
    → s.pending ≡ reading
    → steps (alive s) (releases fails ∷ reads failed received ∷ [])
      ≡ after_release s.connected fails
unfolding steps step destroy close
releases-reads s true failed received p = elim (Bool-cases s.connected) [
  | inl c ↦ rw c refl
  | inr c ↦ rw (c, p) refl
]
releases-reads s false failed received p = elim (Bool-cases s.connected) [
  | inl c ↦ rw (c, p) refl
  | inr c ↦ rw (c, p) refl
]

-- A secure session that reads, however often it has read before, has no good end by its release: the
-- program is terminated where it is connected and the stream fails to close, and else the behaviour
-- is undefined once the read that is outstanding completes or is cancelled.
pub steps-releases :
    (s : SecureSession) (ms : List Bytes) (fails failed : Bool) (received : Bytes)
    → s.pending ≡ reading
    → steps (alive s) (map (reads false) ms ++ releases fails ∷ reads failed received ∷ [])
      ≡ after_release s.connected fails
unfolding steps
steps-releases s [] fails failed received p = releases-reads s fails failed received p
steps-releases s (m ∷ ms) fails failed received p =
    let (s', next, p', same) = reads-Reads s m p in
    ap (λ o. steps o (map (reads false) ms ++ releases fails ∷ reads failed received ∷ [])) next
    ∙ steps-releases s' ms fails failed received p'
    ∙ ap (λ connected. after_release connected fails) same
