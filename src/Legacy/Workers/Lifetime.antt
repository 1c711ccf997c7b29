-- ===== src/Legacy/Workers/Lifetime.antt =====
-- The workers of the manager from their creation to their removal.
use components_network.Prelude.{
  ℕ, ◌++◌, Bool-cases, Option-cases, Bool, ◌≡◌, refl, ◌∙◌, ap, ◌≤◌, ◌<◌, ◌⊎◌, inl, inr, number_key,
  ◌-◌, List, [], ◌∷◌, Option, none, some, arith, if_cases, length, leb, ltb, suc,
}
use components_network.Prelude.Assoc.{find}
use components_network.Legacy.Exchange.{Processors}
use components_network.Legacy.Workers.{
  Manager, Outcome, done, searching, undefined_behaviour, Event, creates, sets_thread_count,
  attaches, receives, disconnects, finishes, step, sets_info_processor, sets_action_processor,
  sets_error_processor, set_info_processor, set_action_processor, set_error_processor, steps,
  update, new, run_invoked, on_disconnect, on_message, create_connection, created, create_worker,
  reject_connection, fresh_id, on_finished, set_thread_count, available_threads, pos, negsuc,
}
use components_network.Legacy.Workers.Standing.{
  Inv, InOrder, run_invoked-Keeps, on_disconnect-Keeps, on_message-Keeps, updated-Inv,
  create_worker-Inv, finished_by-InOrder, length-insert, fresh_id-fresh,
}

rejected-Inv : (handler : ℕ) (d : Manager) → Inv d → Inv (reject_connection handler d)
unfolding reject_connection
rejected-Inv handler d v = record {
  known = v.known;
  settled = v.settled;
  paired = v.paired;
  unused = v.unused;
  bounded = v.bounded;
}

processors-Inv : (ps : Processors) (d : Manager) → Inv d → Inv (record d { processors = ps })
processors-Inv ps d v = record {
  known = v.known;
  settled = v.settled;
  paired = v.paired;
  unused = v.unused;
  bounded = v.bounded;
}

allowed-Inv :
    (n : ℕ) (d : Manager)
    → length d.workers ≤ n
    → Inv d
    → Inv (record d { maximum_thread_count = n })
allowed-Inv n d few v = record {
  known = v.known;
  settled = v.settled;
  paired = v.paired;
  unused = v.unused;
  bounded = few;
}

created-InOrder :
    (handler : ℕ) (d : Manager) (o : Option ℕ)
    → ((id : ℕ) → o ≡ some id → find id d.workers ≡ none)
    → length d.workers < d.maximum_thread_count
    → Inv d
    → InOrder (created handler d o)
created-InOrder handler d none unused room v = tt
created-InOrder handler d (some id) unused room v =
    create_worker-Inv id handler d (unused id refl) room v

step-InOrder : (d : Manager) (e : Event) → Inv d → InOrder (step d e)
unfolding step set_info_processor set_action_processor set_error_processor on_finished
    set_thread_count create_connection update
step-InOrder d (creates ids handler) v =
    if_cases InOrder (leb d.maximum_thread_count (length d.workers))
      (λ full. rejected-Inv handler d v)
      (λ room.
        created-InOrder handler d (fresh_id d.workers ids) (fresh_id-fresh d.workers ids)
          (ground arith) v)
step-InOrder d (sets_thread_count (negsuc n)) v = v
step-InOrder d (sets_thread_count (pos n)) v =
    if_cases {A = Manager × Bool} (λ r. Inv r.0) (ltb 0 (length d.workers)) (λ started. v)
      (λ idle. allowed-Inv n d (ground arith) v)
step-InOrder d (sets_info_processor f) v =
    processors-Inv (record d.processors { info_processor = f }) d v
step-InOrder d (sets_action_processor f) v =
    processors-Inv (record d.processors { action_processor = f }) d v
step-InOrder d (sets_error_processor f) v =
    processors-Inv (record d.processors { error_processor = f }) d v
step-InOrder d (attaches refused p) v =
    updated-Inv (run_invoked refused) p d (find p d.objects) (run_invoked-Keeps refused) refl v
step-InOrder d (receives c input p) v =
    updated-Inv (λ w. (on_message c d.processors input w).0) p d (find p d.objects)
      (on_message-Keeps c d.processors input) refl v
step-InOrder d (disconnects p) v =
    updated-Inv on_disconnect p d (find p d.objects) on_disconnect-Keeps refl v
step-InOrder d (finishes p) v = finished_by-InOrder p d (find p d.objects) refl v

-- Whatever happens to a manager in order, it never uses an iterator that points to no entry, and
-- what comes of it is in order again, unless an identifier is searched for ever: each worker that
-- lives stands in the map under its identifier, with its thread under the same one, and there are no
-- more of them than allowed.
pub steps-InOrder : (o : Outcome) (es : List Event) → InOrder o → InOrder (steps o es)
unfolding steps
steps-InOrder o [] v = v
steps-InOrder searching (e ∷ es) v = tt
steps-InOrder undefined_behaviour (e ∷ es) v = elim v [ ]
steps-InOrder (done d) (e ∷ es) v = steps-InOrder (step d e) es (step-InOrder d e v)

pub new-Inv : (ideal : ℕ) → Inv (new ideal)
unfolding find
new-Inv ideal = record {
  known = λ p w e. ground arith;
  settled = λ p w e. ground arith;
  paired = refl;
  unused = λ p e. refl;
  bounded = omega arith;
}

fresh_id-found :
    (m : List (ℕ × ℕ)) (taken : List ℕ) (id : ℕ) (rest : List ℕ)
    → find id m ≡ none
    → (k : ℕ) × (fresh_id m (taken ++ id ∷ rest) ≡ some k)
unfolding fresh_id
fresh_id-found m [] id rest e = (id, rw e refl)
fresh_id-found m (t ∷ taken) id rest e =
    let found = fresh_id-found m taken id rest e in
    elim (Option-cases (find t m)) [
      | inl none' ↦ (t, rw none' refl)
      | inr (p, held) ↦ (found.0, rw held found.1)
    ]

available_threads_lem :
    (d : Manager)
    → length d.workers ≤ d.maximum_thread_count
    → available_threads d ≡ pos (d.maximum_thread_count - length d.workers)
unfolding available_threads
available_threads_lem d h =
    if_cases (λ n. n ≡ pos (d.maximum_thread_count - length d.workers))
      (leb (length d.workers) d.maximum_thread_count) (λ in_bounds. refl)
      (λ over. absurd (ground arith))

available-create_worker :
    (d : Manager) (k handler : ℕ)
    → find k d.workers ≡ none
    → length d.workers < d.maximum_thread_count
    → available_threads (create_worker k handler d)
      ≡ pos (d.maximum_thread_count - length d.workers - 1)
unfolding create_worker
available-create_worker d k handler e h =
    let one_more = length-insert k d.next d.workers e in
    available_threads_lem (create_worker k handler d) (grind arith) ∙ ap pos (grind arith)

-- A connection is taken by a free worker, or rejected where none is available.
abbrev pub TakesOrRejects : List ℕ → ℕ → Manager → Type 0
TakesOrRejects ids handler d =
    ((available_threads d ≡ pos 0)
      × (create_connection ids handler d ≡ done (reject_connection handler d)))
    ⊎ ((n : ℕ) × (k : ℕ) × (available_threads d ≡ pos (suc n))
        × (find k d.workers ≡ none)
        × (create_connection ids handler d ≡ done (create_worker k handler d))
        × (available_threads (create_worker k handler d) ≡ pos n))

-- A connection for which a free identifier comes up is taken if a thread is available, and then
-- there is one less, and the new worker stands under an identifier that was free; if none is, the
-- connection is rejected, and nothing else changes.
pub create_connection_lem :
    (d : Manager) (handler : ℕ) (taken : List ℕ) (id : ℕ) (rest : List ℕ)
    → Inv d
    → find id d.workers ≡ none
    → TakesOrRejects (taken ++ id ∷ rest) handler d
unfolding create_connection
create_connection_lem d handler taken id rest v e =
    elim (Bool-cases (leb d.maximum_thread_count (length d.workers))) [
      | inl full ↦ inl (available_threads_lem d v.bounded ∙ ap pos (ground arith), rw full refl)
      | inr room ↦
          let (k, found) = fresh_id-found d.workers taken id rest e in
          let free = fresh_id-fresh d.workers (taken ++ id ∷ rest) k found in
          let few : length d.workers < d.maximum_thread_count = ground arith in
          inr (
            d.maximum_thread_count - length d.workers - 1,
            k,
            available_threads_lem d v.bounded ∙ ap pos (omega arith),
            free,
            rw (room, found) refl,
            available-create_worker d k handler free few,
          )
    ]
