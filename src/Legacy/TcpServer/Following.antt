-- ===== src/Legacy/TcpServer/Following.antt =====
-- The manager in the process that holds it, from one operation to the next.
use components_network.Prelude.{
  not, ◌&&◌, ℕ, ◌≡◌, refl, sym, ◌≢◌, ◌+◌, number_key, ◌==◌, Bool, true, false, List, [], ◌∷◌, ◌++◌,
  Option, none, some, is_some, if◌then◌else◌, Option-cases, inl, inr, arith, subst, if_cases,
}
use components_network.Prelude.Assoc.{find, insert, find-insert}
use components_network.Legacy.Workers
use components_network.Legacy.TcpServer.{
  Server, new, Process, Outcome, done, searching, undefined_behaviour, Event, constructs, destroys,
  sets_info_processor, sets_action_processor, sets_error_processor, starts, comes, works, manage,
  managed, starts_worker, reached,
}

-- What the manager is asked for.
abbrev pub call : Event → List Workers.Event
call (sets_info_processor f k) = Workers.sets_info_processor f ∷ []
call (sets_action_processor f k) = Workers.sets_action_processor f ∷ []
call (sets_error_processor f k) = Workers.sets_error_processor f ∷ []
call (comes ids handler k) = Workers.creates ids handler ∷ []
call (works e) = e ∷ []
call _ = []

abbrev pub calls : List Event → List Workers.Event
calls [] = []
calls (e ∷ es) = call e ++ calls es

-- The servers that live, after what happens.
abbrev pub living : ℕ → (ℕ → Bool) → Event → ℕ → Bool
living next live (constructs ideal initer) j = if next == j then true else live j
living next live (destroys k) j = if k == j then false else live j
living next live _ j = live j

abbrev pub following : ℕ → Event → ℕ
following next (constructs ideal initer) = next + 1
following next _ = next

-- What happens uses a server that lives, and the owner lives on.
abbrev pub IsFit : ℕ → (ℕ → Bool) → Event → Type 0
IsFit owner live (constructs ideal initer) = Unit {0}
IsFit owner live (destroys k) = (live k ≡ true) × (k ≢ owner)
IsFit owner live (sets_info_processor f k) = live k ≡ true
IsFit owner live (sets_action_processor f k) = live k ≡ true
IsFit owner live (sets_error_processor f k) = live k ≡ true
IsFit owner live (starts listens k) = live k ≡ true
IsFit owner live (comes ids handler k) = live k ≡ true
IsFit owner live (works e) = Unit {0}

abbrev pub AllFit : ℕ → ℕ → (ℕ → Bool) → List Event → Type 0
AllFit owner next live [] = Unit {0}
AllFit owner next live (e ∷ es) =
    IsFit owner live e × AllFit owner (following next e) (living next live e) es

-- How the manager fares.
abbrev pub fate : Outcome → Option Workers.Outcome
fate searching = some Workers.searching
fate undefined_behaviour = some Workers.undefined_behaviour
fate (done w) = elim w.manager [ none ↦ none | some (owner, d) ↦ some (Workers.done d) ]

-- The process is as told.
pub record Stands (owner next : ℕ) (live : ℕ → Bool) (d : Workers.Manager) (w : Process)
    : Type 0 where
  pub held : w.manager ≡ some (owner, d)
  pub lives : (j : ℕ) → is_some (find j w.servers) ≡ live j
  pub owned : live owner ≡ true
  pub unused : w.next ≡ next

-- An outcome is that of the manager, and the process stands as told.
abbrev pub Follows : ℕ → ℕ → (ℕ → Bool) → Workers.Outcome → Outcome → Type 0
Follows owner next live (Workers.done d) (done w) = Stands owner next live d w
Follows owner next live Workers.searching searching = Unit {0}
Follows owner next live Workers.undefined_behaviour undefined_behaviour = Unit {0}
Follows owner next live _ _ = ⊥

pub managed-Follows :
    (owner next : ℕ) (live : ℕ → Bool) (b : Bool) (d : Workers.Manager) (o : Workers.Outcome)
    (w : Process)
    → Stands owner next live d w
    → Follows owner next live o (managed b owner w o)
unfolding managed
managed-Follows owner next live b d (Workers.done d') w s =
    if_cases (Follows owner next live (Workers.done d')) (b && not (is_some (find owner w.servers)))
      (λ gone. absurd (ground (arith, s.lives owner, s.owned)))
      (λ alive. record { held = refl; lives = s.lives; owned = s.owned; unused = s.unused })
managed-Follows owner next live b d Workers.searching w s = tt
managed-Follows owner next live b d Workers.undefined_behaviour w s = tt

pub manage-Follows :
    (owner next : ℕ) (live : ℕ → Bool) (e : Workers.Event) (d : Workers.Manager) (w : Process)
    → Stands owner next live d w
    → Follows owner next live (Workers.step d e) (manage e w w.manager)
manage-Follows owner next live e d w s =
    subst (λ m. Follows owner next live (Workers.step d e) (manage e w m)) (sym s.held)
      (managed-Follows owner next live (starts_worker d e) d (Workers.step d e) w s)

-- A server that lives is changed.
pub put-Stands :
    (owner next : ℕ) (live : ℕ → Bool) (k : ℕ) (new : Server) (d : Workers.Manager) (w : Process)
    → live k ≡ true
    → Stands owner next live d w
    → Stands owner next live d (record w { servers = insert k new w.servers })
put-Stands owner next live k new d w h s = record {
  held = s.held;
  lives = λ j. ground (arith, find-insert k j new w.servers, s.lives j);
  owned = s.owned;
  unused = s.unused;
}

pub reached-Follows :
    (owner next : ℕ) (live : ℕ → Bool) (k : ℕ) (f : Server → Server) (e : Workers.Event)
    (d : Workers.Manager) (w : Process)
    → live k ≡ true
    → Stands owner next live d w
    → Follows owner next live (Workers.step d e) (reached k f e w (find k w.servers))
reached-Follows owner next live k f e d w h s = elim (Option-cases (find k w.servers)) [
  | inl gone ↦ absurd (ground (arith, s.lives k, h))
  | inr (server, alive) ↦
      subst (λ o. Follows owner next live (Workers.step d e) (reached k f e w o)) (sym alive)
        (manage-Follows owner next live e d (record w { servers = insert k (f server) w.servers })
          (put-Stands owner next live k (f server) d w h s))
]
