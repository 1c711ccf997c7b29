-- ===== src/Http/Client/Lifetime/Ending.antt =====
-- What the end of a client means for a request that is still outstanding.
use components_network.Prelude.{
  ◌≡◌, ◌≢◌, refl, subst, ◌∙◌, Bool, true, false, List, [], ◌∷◌, ◌++◌, Option, none, some, is_some,
  arith, if_cases,
}
use components_network.Http.Socket.{is_error}
use components_network.Http.Client.{Client, Outcome}
use components_network.Http.Client.Lifetime.{
  Life, default_ctx, Outstanding, Phase, writing, reading, Status, goes, undefined, cannot, Event,
  owned, handled, after, code, or_same, cancels, requests, wrote, read, interrupts, disconnects,
  releases, begin, begun, completes, step, run, on_write, on_read, release, begin_request,
  interrupt_request_processing,
}

-- Of a client with a context of its own, nothing is outstanding once it is released.
pub record IsOwn (r : Life) : Type 0 where
  pub own : r.context ≡ default_ctx
  pub settled : r.released ≡ true → r.outstanding ≡ none

-- A step of such a client is no use of a client that is gone, and leads to such a client.
abbrev Keeps : Status → Type 0
Keeps (goes r) = IsOwn r
Keeps undefined = ⊥
Keeps cannot = Unit {0}

alive-IsOwn : (r : Life) → r.context ≡ default_ctx → r.released ≡ false → IsOwn r
alive-IsOwn r c h = record { own = c; settled = λ e. absurd (ground (arith, e, h)) }

owned-Keeps : (r next : Life) → (r.released ≡ false → IsOwn next) → Keeps (owned r next)
owned-Keeps r next h = if_cases Keeps r.released (λ t. tt) h

begun-IsOwn :
    (r : Life) (x : Outcome (Option Outstanding) × Client)
    → r.context ≡ default_ctx
    → r.released ≡ false
    → IsOwn (begun r x)
begun-IsOwn r (none, d) c h = alive-IsOwn _ c h
begun-IsOwn r (some o, d) c h = alive-IsOwn _ c h

handled-Keeps :
    (r next : Life) (o : Outstanding)
    → IsOwn r
    → r.outstanding ≡ some o
    → (r.released ≡ false → IsOwn next)
    → Keeps (handled r next)
handled-Keeps r next o w s h = if_cases Keeps r.released (λ t. let e = w.settled t in cc) h

by_phase :
    (phase : Phase) (x y : Status)
    → Keeps x
    → Keeps y
    → Keeps (elim phase [ writing ↦ x | reading ↦ y ])
by_phase writing x y p q = p
by_phase reading x y p q = q

completes-Keeps :
    (r : Life) (o : Option Outstanding) (e : Event)
    → IsOwn r
    → r.outstanding ≡ o
    → Keeps (completes r o e)
unfolding completes on_write on_read
completes-Keeps r none e w s = tt
completes-Keeps r (some o) (wrote ec) w s =
    by_phase o.phase _ cannot
      (handled-Keeps r _ o w s (λ h.
        if_cases IsOwn (is_error (code o ec)) (λ t. alive-IsOwn _ w.own h)
          (λ f. alive-IsOwn _ w.own h)))
      tt
completes-Keeps r (some o) (read ec res) w s =
    by_phase o.phase cannot _ tt (handled-Keeps r _ o w s (λ h. alive-IsOwn _ w.own h))
completes-Keeps r (some o) (requests net method pkt has_callback) w s = tt
completes-Keeps r (some o) (interrupts pending) w s = tt
completes-Keeps r (some o) (disconnects net) w s = tt
completes-Keeps r (some o) releases w s = tt

step-IsOwn : (r : Life) (e : Event) → IsOwn r → Keeps (step r e)
unfolding step release interrupt_request_processing
step-IsOwn r (requests net method pkt has_callback) w =
    if_cases Keeps (is_some r.outstanding) (λ t. tt)
      (λ f.
        owned-Keeps r _
          (λ h. begun-IsOwn r (begin_request net r.client method pkt has_callback) w.own h))
step-IsOwn r (wrote ec) w = completes-Keeps r r.outstanding (wrote ec) w refl
step-IsOwn r (read ec res) w = completes-Keeps r r.outstanding (read ec res) w refl
step-IsOwn r (interrupts pending) w = owned-Keeps r _ (λ h.
    if_cases (λ x. IsOwn (or_same r x)) (cancels r.client.socket.kind r.client.socket.is_open)
      (λ t. alive-IsOwn _ w.own h) (λ f. w))
step-IsOwn r (disconnects net) w = owned-Keeps r _ (λ h. alive-IsOwn _ w.own h)
step-IsOwn r releases w =
    owned-Keeps r _ (λ h. record { own = w.own; settled = λ e. rw w.own refl })

after-Keeps :
    (next : Life → Status)
    → ((r : Life) → IsOwn r → Keeps (next r))
    → (s : Status) → Keeps s
    → Keeps (after next s)
after-Keeps next h (goes r) w = h r w
after-Keeps next h undefined w = w
after-Keeps next h cannot w = tt

run-IsOwn : (r : Life) (es : List Event) → IsOwn r → Keeps (run r es)
unfolding run
run-IsOwn r [] w = w
run-IsOwn r (e ∷ es) w =
    after-Keeps (λ r'. run r' es) (λ r' w'. run-IsOwn r' es w') (step r e) (step-IsOwn r e w)

after-run-append :
    (s : Status) (es fs : List Event)
    → ((r : Life) → run r (es ++ fs) ≡ after (λ r'. run r' fs) (run r es))
    → after (λ r'. run r' (es ++ fs)) s ≡ after (λ r'. run r' fs) (after (λ r'. run r' es) s)
after-run-append (goes r) es fs h = h r
after-run-append undefined es fs h = refl
after-run-append cannot es fs h = refl

run-append : (r : Life) (es fs : List Event) → run r (es ++ fs) ≡ after (λ r'. run r' fs) (run r es)
unfolding run
run-append r [] fs = refl
run-append r (e ∷ es) fs = after-run-append (step r e) es fs (λ r'. run-append r' es fs)

-- Nothing comes once a client is released and nothing is outstanding.
pub settled-step :
    (r : Life) (e : Event) → r.released ≡ true → r.outstanding ≡ none → step r e ≡ cannot
unfolding step completes
settled-step r (requests net method pkt has_callback) h s = rw (s, h) refl
settled-step r (wrote ec) h s = rw s refl
settled-step r (read ec res) h s = rw s refl
settled-step r (interrupts pending) h s = rw h refl
settled-step r (disconnects net) h s = rw h refl
settled-step r releases h s = rw h refl

pub run-releases :
    (r : Life) (e : Event) (es : List Event)
    → r.context ≡ default_ctx
    → run r (releases ∷ e ∷ es) ≡ cannot
unfolding run step release
run-releases r e es c =
    if_cases (λ s. after (λ r'. run r' (e ∷ es)) s ≡ cannot) r.released (λ t. refl)
      (λ f. rw (settled-step (release r) e refl (rw c refl)) refl)

after-releases :
    (s : Status) (e : Event) (es : List Event)
    → Keeps s
    → after (λ r'. run r' (releases ∷ e ∷ es)) s ≡ cannot
after-releases (goes r) e es w = run-releases r e es w.own
after-releases undefined e es w = absurd w
after-releases cannot e es w = refl

-- Whatever happens to a client with a context of its own, no handler uses it once it is gone, and
-- nothing can follow the end of its life: its thread is stopped, and an outstanding request is
-- dropped with its callback.
pub run-own :
    (is_secure verify : Bool) (before behind : List Event) (e : Event)
    → (run (begin default_ctx is_secure verify) before ≢ undefined)
      × (run (begin default_ctx is_secure verify) (before ++ releases ∷ e ∷ behind) ≡ cannot)
run-own is_secure verify before behind e =
    let start = begin default_ctx is_secure verify in
    let kept = run-IsOwn start before (alive-IsOwn start refl refl) in
    (
      λ u. subst Keeps u kept,
      run-append start before (releases ∷ e ∷ behind)
          ∙ after-releases (run start before) e behind kept,
    )
