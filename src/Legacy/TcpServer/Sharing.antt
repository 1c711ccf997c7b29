-- ===== src/Legacy/TcpServer/Sharing.antt =====
-- The servers of a process as one manager.
use components_network.Prelude.{
  ℕ, ◌≡◌, refl, sym, ◌∙◌, ap, ◌≢◌, number_key, ◌==◌, Bool, true, List, [], ◌∷◌, ◌++◌, some,
  Option-cases, inl, inr, arith, subst, if_cases,
}
use components_network.Prelude.Assoc.{find, insert, find-insert, find-erase}
use mathlib.Core.Option.{some-injective}
use components_network.Legacy.Workers
use components_network.Legacy.Workers.Standing.{InOrder}
use components_network.Legacy.Workers.Lifetime.{steps-InOrder, new-Inv}
use components_network.Legacy.TcpServer.{
  new, new_server, Process, Outcome, done, searching, undefined_behaviour, Event, constructs,
  destroys, sets_info_processor, sets_action_processor, sets_error_processor, starts, comes, works,
  step, run, started, destroyed, construct, destroy, set_info_processor, set_action_processor,
  set_error_processor, incoming_connection, start,
}
use components_network.Legacy.TcpServer.Following.{
  call, calls, living, following, IsFit, AllFit, fate, Stands, Follows, manage-Follows, put-Stands,
  reached-Follows,
}

step-Follows :
    (owner next : ℕ) (live : ℕ → Bool) (e : Event) (d : Workers.Manager) (w : Process)
    → IsFit owner live e
    → Stands owner next live d w
    → Follows owner
        (following next e)
        (living next live e)
        (Workers.steps (Workers.done d) (call e))
        (step w e)
unfolding step Workers.steps construct destroy start set_info_processor set_action_processor
    set_error_processor incoming_connection
step-Follows owner next live (constructs ideal initer) d w h s = record {
  held = rw s.held refl;
  lives =
      λ j. ground (arith, find-insert w.next j (new_server initer) w.servers, s.lives j, s.unused);
  owned = ground (arith, s.owned);
  unused = ground (arith, s.unused);
}
step-Follows owner next live (destroys k) d w h s = elim (Option-cases (find k w.servers)) [
  | inl gone ↦ absurd (ground (arith, s.lives k, h.0))
  | inr (server, alive) ↦
      subst
        (λ o. Follows owner next (living next live (destroys k)) (Workers.done d) (destroyed k w o))
        (sym alive)
        (record {
          held = s.held;
          lives = λ j. ground (arith, find-erase k j w.servers, s.lives j);
          owned = ground (arith, s.owned, h.1);
          unused = s.unused;
        })
]
step-Follows owner next live (sets_info_processor f k) d w h s =
    reached-Follows owner next live k _ (Workers.sets_info_processor f) d w h s
step-Follows owner next live (sets_action_processor f k) d w h s =
    reached-Follows owner next live k _ (Workers.sets_action_processor f) d w h s
step-Follows owner next live (sets_error_processor f k) d w h s =
    reached-Follows owner next live k _ (Workers.sets_error_processor f) d w h s
step-Follows owner next live (starts listens k) d w h s = elim (Option-cases (find k w.servers)) [
  | inl gone ↦ absurd (ground (arith, s.lives k, h))
  | inr (server, alive) ↦
      subst (λ o. Follows owner next live (Workers.done d) (started listens k w o)) (sym alive)
        (if_cases (Stands owner next live d) listens
          (λ t. put-Stands owner next live k (record server { is_listening = true }) d w h s)
          (λ f. s))
]
step-Follows owner next live (comes ids handler k) d w h s =
    reached-Follows owner next live k (λ server. server) (Workers.creates ids handler) d w h s
step-Follows owner next live (works e) d w h s = manage-Follows owner next live e d w s

fate-Follows :
    (owner next : ℕ) (live : ℕ → Bool) (d : Workers.Manager) (w : Process)
    → Stands owner next live d w
    → fate (done w) ≡ some (Workers.done d)
fate-Follows owner next live d w s = rw s.held refl

steps-call :
    (d : Workers.Manager) (e : Event) (es : List Workers.Event)
    → Workers.steps (Workers.done d) (call e ++ es)
      ≡ Workers.steps (Workers.steps (Workers.done d) (call e)) es
unfolding Workers.steps
steps-call d (constructs ideal initer) es = refl
steps-call d (destroys k) es = refl
steps-call d (sets_info_processor f k) es = refl
steps-call d (sets_action_processor f k) es = refl
steps-call d (sets_error_processor f k) es = refl
steps-call d (starts listens k) es = refl
steps-call d (comes ids handler k) es = refl
steps-call d (works e) es = refl

steps-searching : (es : List Workers.Event) → Workers.steps Workers.searching es ≡ Workers.searching
unfolding Workers.steps
steps-searching [] = refl
steps-searching (e ∷ es) = refl

steps-undefined_behaviour :
    (es : List Workers.Event)
    → Workers.steps Workers.undefined_behaviour es ≡ Workers.undefined_behaviour
unfolding Workers.steps
steps-undefined_behaviour [] = refl
steps-undefined_behaviour (e ∷ es) = refl

run-Follows :
    (owner next : ℕ) (live : ℕ → Bool) (wo : Workers.Outcome) (o : Outcome) (es : List Event)
    → AllFit owner next live es
    → Follows owner next live wo o
    → fate (run o es) ≡ some (Workers.steps wo (calls es))
unfolding run Workers.steps
run-Follows owner next live (Workers.done d) searching es h s = elim s [ ]
run-Follows owner next live (Workers.done d) undefined_behaviour es h s = elim s [ ]
run-Follows owner next live Workers.searching (done w) es h s = elim s [ ]
run-Follows owner next live Workers.searching undefined_behaviour es h s = elim s [ ]
run-Follows owner next live Workers.undefined_behaviour (done w) es h s = elim s [ ]
run-Follows owner next live Workers.undefined_behaviour searching es h s = elim s [ ]
run-Follows owner next live Workers.searching searching [] h s = refl
run-Follows owner next live Workers.searching searching (e ∷ es) h s =
    ap some (sym (steps-searching (calls (e ∷ es))))
run-Follows owner next live Workers.undefined_behaviour undefined_behaviour [] h s = refl
run-Follows owner next live Workers.undefined_behaviour undefined_behaviour (e ∷ es) h s =
    ap some (sym (steps-undefined_behaviour (calls (e ∷ es))))
run-Follows owner next live (Workers.done d) (done w) [] h s = fate-Follows owner next live d w s
run-Follows owner next live (Workers.done d) (done w) (e ∷ es) h s =
    run-Follows owner (following next e) (living next live e)
      (Workers.steps (Workers.done d) (call e)) (step w e) es h.1
      (step-Follows owner next live e d w h.0 s)
    ∙ ap some (sym (steps-call d e (calls es)))

InOrder-fate :
    (wo : Workers.Outcome) (o : Outcome) → InOrder wo → fate o ≡ some wo → o ≢ undefined_behaviour
InOrder-fate wo o v e gone = subst InOrder (some-injective _ _ (sym e ∙ ap fate gone)) v

-- The servers of a process are one manager: as long as the server that was constructed first lives,
-- and none is used that does not live, the manager fares as one fares by itself, made when the first
-- of the servers was, that gets the connections of all of them and every processor that is set on
-- any of them, in their order; and no behaviour is undefined.
pub run-steps :
    (ideal : ℕ) (initer : Bool) (es : List Event)
    → AllFit 0 1 (λ j. 0 == j) es
    → (fate (run (done new) (constructs ideal initer ∷ es))
        ≡ some (Workers.steps (Workers.done (Workers.new ideal)) (calls es)))
      × (run (done new) (constructs ideal initer ∷ es) ≢ undefined_behaviour)
unfolding run step construct find insert
run-steps ideal initer es h =
    let w = construct ideal initer new in
    let s : Stands 0 1 (λ j. 0 == j) (Workers.new ideal) w = record {
      held = refl;
      lives = λ j. ground arith;
      owned = refl;
      unused = refl;
    } in
    let same = run-Follows 0 1 (λ j. 0 == j) (Workers.done (Workers.new ideal)) (done w) es h s in
    (
      same,
      InOrder-fate _ _ (steps-InOrder (Workers.done (Workers.new ideal)) (calls es) (new-Inv ideal))
          same,
    )
