-- ===== src/Http/Client/Lifetime/Dangling.antt =====
-- When a handler of a request can come to use a client that is gone.
use components_network.Prelude.{
  ◌≡◌, ◌≢◌, ◌⊎◌, ◌↔◌, refl, ap, sym, ◌∙◌, Bool, true, false, List, [], ◌∷◌, none, some, inl, inr,
  Option-cases, arith, if◌then◌else◌,
}
use components_network.Http.Socket.{ErrorCode, success}
use components_network.Http.Client.{Response}
use components_network.Http.Client.Lifetime.{
  Life, Context, default_ctx, given, Outstanding, goes, undefined, cannot, Event, releases,
  completes, after, step, run, release,
}
use components_network.Http.Client.Lifetime.Replies.{due}
use components_network.Http.Client.Lifetime.Ending.{settled-step}

Context-cases : (c : Context) → (c ≡ default_ctx) ⊎ (c ≡ given)
Context-cases default_ctx = inl refl
Context-cases given = inr refl

-- A sequence of events whose first cannot come, or that is empty, ends in no use of the client.
run-settled :
    (r : Life) (es : List Event) → r.released ≡ true → r.outstanding ≡ none → run r es ≢ undefined
unfolding run
run-settled r [] h s e = cc
run-settled r (x ∷ es) h s e =
    let stopped = ap (after (λ r'. run r' es)) (settled-step r x h s) in cc

run-releases_goes :
    (r : Life) (es : List Event) → r.released ≡ false → run r (releases ∷ es) ≡ run (release r) es
unfolding run step
run-releases_goes r es h =
    ap (λ (b : Bool). after (λ r'. run r' es) (if b then cannot else goes (release r))) h

completes-due :
    (r : Life) (o : Outstanding) (ec : ErrorCode) (res : Response)
    → r.released ≡ true
    → r.outstanding ≡ some o
    → run r (due o.phase ec res ∷ []) ≡ undefined
unfolding run step completes
completes-due r o ec res h s = ground arith

release-default_ctx : (r : Life) → r.context ≡ default_ctx → (release r).outstanding ≡ none
unfolding release
release-default_ctx r c = rw c refl

release-given : (r : Life) → r.context ≡ given → (release r).outstanding ≡ r.outstanding
unfolding release
release-given r c = rw c refl

abbrev nothing_read : Response
nothing_read = record { status = 0; content_type = none; body = "" }

-- Some handler can come to use a client behind its end exactly if the context was given to the client
-- and a request is outstanding when it is released.
pub run-releases_iff :
    (r : Life)
    → r.released ≡ false
    → ((es : List Event) × (run r (releases ∷ es) ≡ undefined))
      ↔ ((r.context ≡ given) × (r.outstanding ≢ none))
unfolding release
run-releases_iff r h = (
  λ u.
      let used = sym (run-releases_goes r u.0 h) ∙ u.1 in
      elim (Context-cases r.context) [
        | inl c ↦ absurd (run-settled (release r) u.0 refl (release-default_ctx r c) used)
        | inr c ↦ (c, λ s. run-settled (release r) u.0 refl (release-given r c ∙ s) used)
      ],
  λ k. elim (Option-cases r.outstanding) [
    | inl s ↦ absurd (k.1 s)
    | inr s ↦ (
      due s.0.phase success nothing_read ∷ [],
      run-releases_goes r (due s.0.phase success nothing_read ∷ []) h
          ∙ completes-due (release r) s.0 success nothing_read refl (release-given r k.0 ∙ s.1),
    )
  ],
)
