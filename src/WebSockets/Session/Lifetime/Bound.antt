-- ===== src/WebSockets/Session/Lifetime/Bound.antt =====
-- That the shared pointers bound to the handlers of a `Session` are enough.
use components_network.Prelude.{
  ◌≡◌, ◌≢◌, refl, ap, subst, ◌∙◌, Bool, true, false, not, ◌&&◌, ◌||◌, List, [], ◌∷◌, if◌then◌else◌,
  if_cases,
}
use components_network.WebSockets.Session.{
  Pending, idle, resolving, connecting, handshaking, reading, Session, on_resolve, on_connect,
  on_handshake, on_read, close, is_handshaking, is_reading,
}
use components_network.WebSockets.Session.Lifetime.{
  Outcome, lives, destroyed, terminated, undefined_behaviour, is_resolving, is_connecting,
  is_outstanding, binds_self, destroy, settle, Event, starts, resolves, connects, handshakes, reads,
  sends, sets_read_callback, sets_close_callback, closes, releases, by_owner, step_alive,
  step_destroyed, used_if, step, steps,
}

-- Nothing is used behind its end, and no handler is left that could be.
abbrev pub Safe : Outcome → Type 0
Safe (lives owned s) = Unit {0}
Safe (destroyed s) = is_outstanding s.pending ≡ false
Safe terminated = Unit {0}
Safe undefined_behaviour = ⊥

-- Each operation that is outstanding has the pointer bound to its handler.
unbound : (p : Pending) → binds_self p ≡ false → is_outstanding p ≡ false
unfolding binds_self
unbound idle e = refl
unbound resolving e = e
unbound connecting e = e
unbound handshaking e = e
unbound reading e = e

close-pending : (s : Session) → (close s).pending ≡ s.pending
unfolding close
close-pending s =
    if_cases (λ (t : Session). t.pending ≡ s.pending) (not s.connected) (λ t. refl) (λ f. refl)

destroy-Safe :
    (fails : Bool) (s : Session) → is_outstanding s.pending ≡ false → Safe (destroy fails s)
unfolding destroy
destroy-Safe fails s h =
    if_cases Safe (s.connected && fails) (λ t. tt) (λ f. ap is_outstanding (close-pending s) ∙ h)

or_right : (a b : Bool) → (a || b) ≡ false → b ≡ false
or_right true b e = cc
or_right false b e = e

settle-Safe : (fails owned : Bool) (s : Session) → Safe (settle fails owned s)
unfolding settle
settle-Safe fails owned s =
    if_cases Safe (owned || binds_self s.pending) (λ t. tt)
      (λ f. destroy-Safe fails s (unbound s.pending (or_right owned _ f)))

settles-Safe :
    (due fails owned : Bool) (s next : Session)
    → Safe (if due then settle fails owned next else lives owned s)
settles-Safe due fails owned s next =
    if_cases Safe due (λ t. settle-Safe fails owned next) (λ f. tt)

by_owner-Safe : (owned : Bool) (s next : Session) → Safe (by_owner owned s next)
by_owner-Safe true s next = tt
by_owner-Safe false s next = tt

step_alive-Safe : (owned : Bool) (s : Session) (e : Event) → Safe (step_alive owned s e)
unfolding step_alive
step_alive-Safe owned s (starts host) =
    if_cases Safe (is_outstanding s.pending) (λ t. tt) (λ f. by_owner-Safe owned s _)
step_alive-Safe owned s (resolves failed fails) =
    settles-Safe (is_resolving s.pending) fails owned s (on_resolve s failed)
step_alive-Safe owned s (connects failed port fails) =
    settles-Safe (is_connecting s.pending) fails owned s (on_connect s failed port)
step_alive-Safe owned s (handshakes failed fails) =
    settles-Safe (is_handshaking s.pending) fails owned s (on_handshake s failed)
step_alive-Safe owned s (reads failed received fails) =
    settles-Safe (is_reading s.pending) fails owned s (on_read s failed received)
step_alive-Safe owned s (sends n text) = by_owner-Safe owned s _
step_alive-Safe owned s (sets_read_callback given) = by_owner-Safe owned s _
step_alive-Safe owned s (sets_close_callback given) = by_owner-Safe owned s _
step_alive-Safe owned s closes = by_owner-Safe owned s _
step_alive-Safe owned s (releases fails) =
    if_cases Safe owned (λ t. settle-Safe fails false s) (λ f. tt)

-- The handlers that wait for one operation do not run where none is outstanding.
module _ (s : Session) where
  none_due :
      (p : Pending)
      → is_outstanding p ≡ false
      → (is_resolving p ≡ false)
        × (is_connecting p ≡ false)
        × (is_handshaking p ≡ false)
        × (is_reading p ≡ false)
  none_due idle h = (refl, refl, refl, refl)
  none_due resolving h = absurd (cc)
  none_due connecting h = absurd (cc)
  none_due handshaking h = absurd (cc)
  none_due reading h = absurd (cc)

  unused : (due : Bool) → is_outstanding s.pending ≡ false → due ≡ false → Safe (used_if due s)
  unused due h e = if_cases Safe due (λ t. absurd (cc)) (λ f. h)

  step_destroyed-Safe : (e : Event) → is_outstanding s.pending ≡ false → Safe (step_destroyed s e)
  step_destroyed-Safe (resolves failed fails) h = unused _ h (none_due s.pending h).0
  step_destroyed-Safe (connects failed port fails) h = unused _ h (none_due s.pending h).1
  step_destroyed-Safe (handshakes failed fails) h = unused _ h (none_due s.pending h).2
  step_destroyed-Safe (reads failed received fails) h = unused _ h (none_due s.pending h).3
  step_destroyed-Safe (starts host) h = h
  step_destroyed-Safe (sends n text) h = h
  step_destroyed-Safe (sets_read_callback given) h = h
  step_destroyed-Safe (sets_close_callback given) h = h
  step_destroyed-Safe closes h = h
  step_destroyed-Safe (releases fails) h = h

step-Safe : (o : Outcome) (e : Event) → Safe o → Safe (step o e)
unfolding step
step-Safe (lives owned s) e h = step_alive-Safe owned s e
step-Safe (destroyed s) e h = step_destroyed-Safe s e h
step-Safe terminated e h = h
step-Safe undefined_behaviour e h = h

steps-Safe : (o : Outcome) (es : List Event) → Safe o → Safe (steps o es)
unfolding steps
steps-Safe o [] h = h
steps-Safe o (e ∷ es) h = steps-Safe (step o e) es (step-Safe o e h)

-- A session that its owner holds, in whatever state it is: whatever happens to it, its release and its
-- destruction included, no handler of it ever runs on a session that is destroyed.
pub steps-lives : (s : Session) (es : List Event) → steps (lives true s) es ≢ undefined_behaviour
steps-lives s es e = subst Safe e (steps-Safe (lives true s) es tt)
