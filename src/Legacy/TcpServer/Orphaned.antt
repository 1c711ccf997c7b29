-- ===== src/Legacy/TcpServer/Orphaned.antt =====
-- The servers of a process after the first of them is gone.
use components_network.Prelude.{
  ℕ, ◌≡◌, refl, sym, ◌∙◌, ap, ◌<◌, number_key, Bool, true, false, not, ◌&&◌, List, [], ◌∷◌, Option,
  none, some, is_some, if◌then◌else◌, Bool-cases, inl, inr, arith, if_cases, length, leb, subst,
}
use components_network.Prelude.Assoc.{find, erase, insert, find-insert, find-erase}
use mathlib.Core.Option.{some-injective}
use components_network.Legacy.Workers
use components_network.Legacy.TcpServer.{
  Server, new_server, Process, Outcome, done, searching, undefined_behaviour, Event, constructs,
  destroys, sets_info_processor, sets_action_processor, sets_error_processor, starts, comes, works,
  step, run, manage, managed, starts_worker, reached, started, destroyed, construct, destroy,
  set_info_processor, set_action_processor, set_error_processor, incoming_connection, start,
}
use components_network.Legacy.TcpServer.Making.{MadeUpTo, step-MadeUpTo}

-- The manager refers to a server that is gone, and has made so many workers.
pub record Orphan (owner n : ℕ) (w : Process) : Type 0 where
  pub made : (d : Workers.Manager) × (w.manager ≡ some (owner, d)) × (d.next ≡ n)
  pub gone : find owner w.servers ≡ none
  pub past : owner < w.next

abbrev pub IsOrphaned : ℕ → ℕ → Outcome → Type 0
IsOrphaned owner n (done w) = Orphan owner n w
IsOrphaned owner n _ = Unit {0}

managed-IsOrphaned :
    (owner n : ℕ) (b : Bool) (o : Workers.Outcome) (w : Process)
    → (b ≡ false → MadeUpTo n o)
    → Orphan owner n w
    → IsOrphaned owner n (managed b owner w o)
unfolding managed
managed-IsOrphaned owner n b Workers.searching w h s = tt
managed-IsOrphaned owner n b Workers.undefined_behaviour w h s = tt
managed-IsOrphaned owner n b (Workers.done d) w h s =
    if_cases (IsOrphaned owner n) (b && not (is_some (find owner w.servers))) (λ t. tt)
      (λ f. record { made = (d, refl, h (ground (arith, s.gone))); gone = s.gone; past = s.past })

manage-IsOrphaned :
    (owner n : ℕ) (e : Workers.Event) (w : Process)
    → Orphan owner n w
    → IsOrphaned owner n (manage e w w.manager)
manage-IsOrphaned owner n e w s =
    let (d, held, as_many) = s.made in
    subst (λ m. IsOrphaned owner n (manage e w m)) (sym held)
      (managed-IsOrphaned owner n (starts_worker d e) (Workers.step d e) w
        (λ f. subst (λ m. MadeUpTo m (Workers.step d e)) as_many (step-MadeUpTo d e f)) s)

-- A server that lives is changed.
put-Orphan :
    (owner n k : ℕ) (old changed : Server) (w : Process)
    → find k w.servers ≡ some old
    → Orphan owner n w
    → Orphan owner n (record w { servers = insert k changed w.servers })
put-Orphan owner n k old changed w found s = record {
  made = s.made;
  gone = ground (arith, find-insert k owner changed w.servers, s.gone, found);
  past = s.past;
}

reached-IsOrphaned :
    (owner n k : ℕ) (f : Server → Server) (e : Workers.Event) (w : Process) (o : Option Server)
    → find k w.servers ≡ o
    → Orphan owner n w
    → IsOrphaned owner n (reached k f e w o)
reached-IsOrphaned owner n k f e w none found s = tt
reached-IsOrphaned owner n k f e w (some server) found s =
    manage-IsOrphaned owner n e (record w { servers = insert k (f server) w.servers })
      (put-Orphan owner n k server (f server) w found s)

started-IsOrphaned :
    (owner n k : ℕ) (listens : Bool) (w : Process) (o : Option Server)
    → find k w.servers ≡ o
    → Orphan owner n w
    → IsOrphaned owner n (started listens k w o)
started-IsOrphaned owner n k listens w none found s = tt
started-IsOrphaned owner n k listens w (some server) found s =
    if_cases (Orphan owner n) listens
      (λ t. put-Orphan owner n k server (record server { is_listening = true }) w found s) (λ f. s)

destroyed-IsOrphaned :
    (owner n k : ℕ) (w : Process) (o : Option Server)
    → Orphan owner n w
    → IsOrphaned owner n (destroyed k w o)
unfolding destroy
destroyed-IsOrphaned owner n k w none s = tt
destroyed-IsOrphaned owner n k w (some server) s = record {
  made = s.made;
  gone = ground (arith, find-erase k owner w.servers, s.gone);
  past = s.past;
}

step-IsOrphaned :
    (owner n : ℕ) (e : Event) (w : Process) → Orphan owner n w → IsOrphaned owner n (step w e)
unfolding step construct start set_info_processor set_action_processor set_error_processor
    incoming_connection
step-IsOrphaned owner n (constructs ideal initer) w s = record {
  made = (s.made.0, rw s.made.1 refl, s.made.2);
  gone = ground (arith, find-insert w.next owner (new_server initer) w.servers, s.gone, s.past);
  past = ground (arith, s.past);
}
step-IsOrphaned owner n (destroys k) w s = destroyed-IsOrphaned owner n k w (find k w.servers) s
step-IsOrphaned owner n (sets_info_processor f k) w s =
    reached-IsOrphaned owner n k _ (Workers.sets_info_processor f) w (find k w.servers) refl s
step-IsOrphaned owner n (sets_action_processor f k) w s =
    reached-IsOrphaned owner n k _ (Workers.sets_action_processor f) w (find k w.servers) refl s
step-IsOrphaned owner n (sets_error_processor f k) w s =
    reached-IsOrphaned owner n k _ (Workers.sets_error_processor f) w (find k w.servers) refl s
step-IsOrphaned owner n (starts listens k) w s =
    started-IsOrphaned owner n k listens w (find k w.servers) refl s
step-IsOrphaned owner n (comes ids handler k) w s =
    reached-IsOrphaned owner n k _ (Workers.creates ids handler) w (find k w.servers) refl s
step-IsOrphaned owner n (works e) w s = manage-IsOrphaned owner n e w s

run-IsOrphaned :
    (owner n : ℕ) (o : Outcome) (es : List Event)
    → IsOrphaned owner n o
    → IsOrphaned owner n (run o es)
unfolding run
run-IsOrphaned owner n o [] s = s
run-IsOrphaned owner n searching (e ∷ es) s = tt
run-IsOrphaned owner n undefined_behaviour (e ∷ es) s = tt
run-IsOrphaned owner n (done w) (e ∷ es) s =
    run-IsOrphaned owner n (step w e) es (step-IsOrphaned owner n e w s)

-- How the next connection ends.
abbrev pub NextConnection : List ℕ → ℕ → ℕ → Server → Workers.Manager → ℕ → Process → Type 0
NextConnection ids handler k server d owner w = step w (comes ids handler k) ≡ (
    if leb d.maximum_thread_count (length d.workers)
    then done (record w {
      manager = some (owner, Workers.reject_connection handler d);
      servers = insert k server w.servers;
    })
    else undefined_behaviour)

reached-reject :
    (k owner id : ℕ) (server : Server) (w : Process) (d : Workers.Manager) (ids : List ℕ)
    (handler : ℕ)
    → w.manager ≡ some (owner, d)
    → find owner w.servers ≡ none
    → find k w.servers ≡ some server
    → Workers.fresh_id d.workers ids ≡ some id
    → NextConnection ids handler k server d owner w
unfolding step incoming_connection managed Workers.step Workers.create_connection
reached-reject k owner id server w d ids handler held gone found free =
    let gone' : find owner (insert k server w.servers) ≡ none =
      ground (arith, find-insert k owner server w.servers, gone, found) in
    elim (Bool-cases (leb d.maximum_thread_count (length d.workers))) [
      | inl full ↦ rw (found, held, full) refl
      | inr room ↦ rw (found, held, room, free, gone') refl
    ]

-- Once the server that was constructed first is gone, no worker is made any more: after whatever
-- follows in order, even by other servers and new ones, the manager has made as many workers as
-- before, and the next connection of a server that lives is rejected if no thread is available,
-- while the behaviour is undefined if one is, for the constructor of the worker reads a function that
-- is gone with its server.
pub destroys-comes :
    (owner : ℕ) (first : Server) (d : Workers.Manager) (w : Process) (es : List Event) (owner' : ℕ)
    (d' : Workers.Manager) (w' : Process) (ids : List ℕ) (id handler k : ℕ) (server : Server)
    → w.manager ≡ some (owner, d)
    → find owner w.servers ≡ some first
    → owner < w.next
    → run (step w (destroys owner)) es ≡ done w'
    → w'.manager ≡ some (owner', d')
    → find k w'.servers ≡ some server
    → Workers.fresh_id d'.workers ids ≡ some id
    → (d'.next ≡ d.next) × NextConnection ids handler k server d' owner w'
unfolding step destroy
destroys-comes owner first d w es owner' d' w' ids id handler k server held lives past ran held'
      found free =
    let gone : find owner (erase owner w.servers) ≡ none =
      ground (arith, find-erase owner owner w.servers) in
    let orphan : Orphan owner d.next (destroy owner w) = record {
      made = (d, held, refl);
      gone = gone;
      past = past;
    } in
    let s : Orphan owner d.next w' = subst (IsOrphaned owner d.next) ran (
      run-IsOrphaned owner d.next _ es
        (subst (λ o. IsOrphaned owner d.next (destroyed owner w o)) (sym lives) orphan)) in
    let same : (owner, s.made.0) ≡ (owner', d') = some-injective _ _ (sym s.made.1 ∙ held') in
    (
      ap (λ h. h.1.next) (sym same) ∙ s.made.2,
      reached-reject k owner id server w' d' ids handler
          (held' ∙ ap (λ h. some (h.0, d')) (sym same)) s.gone found free,
    )
