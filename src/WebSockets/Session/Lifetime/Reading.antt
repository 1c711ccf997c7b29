-- ===== src/WebSockets/Session/Lifetime/Reading.antt =====
-- A `Session` that its owner lets go while it reads.
use components_network.Prelude.{
  ◌≡◌, refl, ap, sym, ◌∙◌, Bytes, Bool, true, false, List, [], ◌∷◌, if◌then◌else◌, if_cases,
}
use components_network.WebSockets.Session
use components_network.WebSockets.Session.{
  Pending, idle, reading, Session, on_read, close, is_reading,
}
use components_network.WebSockets.Session.Lifetime.{
  lives, binds_self, destroy, settle, Event, reads, releases, step_alive, step, steps,
}

-- Messages that are read, and a read that fails.
abbrev pub messages : List Bytes → Bytes → Bool → List Event
messages [] last fails = reads true last fails ∷ []
messages (m ∷ ms) last fails = reads false m fails ∷ messages ms last fails

-- The same, for a session that lives all the time.
abbrev pub heard : List Bytes → Bytes → List Session.Event
heard [] last = Session.reads true last ∷ []
heard (m ∷ ms) last = Session.reads false m ∷ heard ms last

module _ (s : Session) (p : s.pending ≡ reading) where
  on_read-reading : (m : Bytes) → (on_read s false m).pending ≡ reading
  unfolding on_read
  on_read-reading m =
      if_cases (λ (t : Session). t.pending ≡ reading) s.has_read_callback (λ t. refl) (λ f. refl)

  on_read-idle : (m : Bytes) → (on_read s true m).pending ≡ idle
  unfolding on_read
  on_read-idle m =
      if_cases (λ (t : Session). t.pending ≡ idle) s.has_close_callback (λ t. refl) (λ f. refl)

  step-settle :
      (failed fails : Bool) (m : Bytes)
      → step (lives false s) (reads failed m fails) ≡ settle fails false (on_read s failed m)
  unfolding step step_alive
  step-settle failed fails m =
      ap (λ q. if is_reading q then settle fails false (on_read s failed m) else lives false s) p

  step-on_read :
      (failed : Bool) (m : Bytes) → Session.step s (Session.reads failed m) ≡ on_read s failed m
  unfolding Session.step
  step-on_read failed m = ap (λ q. if is_reading q then on_read s failed m else s) p

settle-outstanding :
    (fails : Bool) (s : Session) → s.pending ≡ reading → settle fails false s ≡ lives false s
unfolding settle binds_self
settle-outstanding fails s p = ap (λ q. if binds_self q then lives false s else destroy fails s) p

settle-idle :
    (fails : Bool) (s : Session) → s.pending ≡ idle → settle fails false s ≡ destroy fails s
unfolding settle binds_self
settle-idle fails s p = ap (λ q. if binds_self q then lives false s else destroy fails s) p

steps-messages :
    (s : Session) (ms : List Bytes) (last : Bytes) (fails : Bool)
    → s.pending ≡ reading
    → steps (lives false s) (messages ms last fails)
      ≡ destroy fails (Session.steps s (heard ms last))
unfolding steps Session.steps
steps-messages s [] last fails p =
    step-settle s p true fails last
    ∙ settle-idle fails (on_read s true last) (on_read-idle s p last)
    ∙ ap (destroy fails) (sym (step-on_read s p true last))
steps-messages s (m ∷ ms) last fails p =
    let s' = on_read s false m in
    let p' = on_read-reading s p m in
    ap (λ o. steps o (messages ms last fails))
      (step-settle s p false fails m ∙ settle-outstanding fails s' p')
    ∙ steps-messages s' ms last fails p'
    ∙ ap (λ t. destroy fails (Session.steps t (heard ms last))) (sym (step-on_read s p false m))

-- A session that its owner lets go while it reads goes on as if it were held, through all messages
-- with their callbacks, until a read fails. Behind that it is destroyed: the program is terminated if
-- the session was connected once and the stream fails to close.
pub releases-messages :
    (s : Session) (ms : List Bytes) (last : Bytes) (early fails : Bool)
    → s.pending ≡ reading
    → steps (lives true s) (releases early ∷ messages ms last fails)
      ≡ destroy fails (Session.steps s (heard ms last))
unfolding steps step step_alive
releases-messages s ms last early fails p =
    ap (λ o. steps o (messages ms last fails)) (settle-outstanding early s p)
    ∙ steps-messages s ms last fails p
