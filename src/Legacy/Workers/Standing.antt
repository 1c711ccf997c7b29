-- ===== src/Legacy/Workers/Standing.antt =====
-- The invariant of the manager, and that each operation on its workers keeps it.
use components_network.Prelude.{
  ℕ, Bool, ◌≡◌, refl, sym, subst, ap, ◌≤◌, ◌<◌, ◌⊎◌, inl, inr, number_key, ◌%◌, ◌^◌, false, List,
  [], ◌∷◌, Option, none, some, arith, if_cases, length, suc,
}
use components_network.Prelude.Assoc.{
  find, erase, insert, find-erase, find-insert, insert_cases, erase_cases, length-erase,
}
use components_network.Legacy.Workers.{
  Worker, Manager, unconnected, Outcome, done, searching, undefined_behaviour, updated, run_invoked,
  run_call, on_disconnect, on_message, set_connection, create_worker, fresh_id, finished_by,
  remove_worker, new_worker,
}

abbrev pub key_of : ℕ → Option (ℕ × ℕ) → ℕ
key_of id none = id
key_of id (some (descriptor, key)) = key

-- The identifier that a worker has, or gets by the call that is queued for it.
abbrev pub identity : Worker → ℕ
identity w = key_of w.worker_id w.invoked

-- The signal of a worker is not sent before its call has run.
abbrev pub Settled : Worker → Type 0
Settled w = (w.invoked ≡ none) ⊎ ((w.socket ≡ unconnected) × (w.finished ≡ false))

-- A worker that lives stands under its identifier; each worker has its thread under the same one;
-- pointers from `next` on are free; and there are no more workers than allowed.
pub record Inv (d : Manager) : Type 0 where
  pub known :
      (p : ℕ) (w : Worker) → find p d.objects ≡ some w → find (identity w) d.workers ≡ some p
  pub settled : (p : ℕ) (w : Worker) → find p d.objects ≡ some w → Settled w
  pub paired : d.threads ≡ d.workers
  pub unused : (p : ℕ) → d.next ≤ p → find p d.objects ≡ none
  pub bounded : length d.workers ≤ d.maximum_thread_count

-- What may happen to a worker without the manager.
abbrev pub Keeps : (Worker → Worker) → Type 0
Keeps f = (w : Worker) → Settled w → Settled (f w) × (identity (f w) ≡ identity w)

run_call-Keeps :
    (refused : Bool) (w : Worker) (call : Option (ℕ × ℕ))
    → w.invoked ≡ call
    → Settled w
    → Settled (run_call refused w call) × (identity (run_call refused w call) ≡ identity w)
unfolding set_connection
run_call-Keeps refused w none e s = (s, refl)
run_call-Keeps refused w (some (descriptor, id)) e s = ground arith

pub run_invoked-Keeps : (refused : Bool) → Keeps (run_invoked refused)
unfolding run_invoked
run_invoked-Keeps refused w s = run_call-Keeps refused w w.invoked refl s

pub on_disconnect-Keeps : Keeps on_disconnect
unfolding on_disconnect
on_disconnect-Keeps w s = ground arith

pub on_message-Keeps : (c : _) (ps : _) (input : _) → Keeps (λ w. (on_message c ps input w).0)
unfolding on_message
on_message-Keeps c ps input w s = ground arith

pub updated-Inv :
    (f : Worker → Worker) (p : ℕ) (d : Manager) (o : Option Worker)
    → Keeps f
    → find p d.objects ≡ o
    → Inv d
    → Inv (updated f p d o)
updated-Inv f p d none k e v = v
updated-Inv f p d (some w) k e v = record {
  known = λ q w' h. elim (insert_cases p q (f w) w' d.objects h) [
    | inl (i, j) ↦ grind (arith, v.known p w e, k w (v.settled p w e))
    | inr old ↦ v.known q w' old
  ];
  settled = λ q w' h. elim (insert_cases p q (f w) w' d.objects h) [
    | inl (i, j) ↦ subst Settled j (k w (v.settled p w e)).0
    | inr old ↦ v.settled q w' old
  ];
  paired = v.paired;
  unused = λ q h. ground (arith, find-insert p q (f w) d.objects, v.unused q);
  bounded = v.bounded;
}

-- What an operation leaves behind is a manager in order, unless it searches for ever.
abbrev pub InOrder : Outcome → Type 0
InOrder (done d) = Inv d
InOrder searching = Unit {0}
InOrder undefined_behaviour = ⊥

pub length-insert :
    (k p : ℕ) (m : List (ℕ × ℕ)) → find k m ≡ none → length (insert k p m) ≡ suc (length m)
unfolding find insert
length-insert k p [] e = refl
length-insert k p ((held, kept) ∷ m) e = ground (arith, length-insert k p m)

pub fresh_id-fresh :
    (m : List (ℕ × ℕ)) (ids : List ℕ) (id : ℕ) → fresh_id m ids ≡ some id → find id m ≡ none
unfolding fresh_id
fresh_id-fresh m [] id e = ground arith
fresh_id-fresh m (k ∷ ids) id e = ground (arith, fresh_id-fresh m ids id)

pub create_worker-Inv :
    (id handler : ℕ) (d : Manager)
    → find id d.workers ≡ none
    → length d.workers < d.maximum_thread_count
    → Inv d
    → Inv (create_worker id handler d)
unfolding create_worker
create_worker-Inv id handler d e room v = record {
  known = λ q w h. elim (insert_cases d.next q (new_worker (handler % 2 ^ 32, id)) w d.objects h) [
    | inl (i, j) ↦
        subst (λ x. find (identity x) (insert id d.next d.workers) ≡ some q) j
          (ground (arith, find-insert id id d.next d.workers))
    | inr old ↦ ground (arith, find-insert id (identity w) d.next d.workers, v.known q w old)
  ];
  settled = λ q w h.
      elim (insert_cases d.next q (new_worker (handler % 2 ^ 32, id)) w d.objects h) [
        | inl (i, j) ↦ subst Settled j (inr (refl, refl))
        | inr old ↦ v.settled q w old
      ];
  paired = ap (insert id d.next) v.paired;
  unused = λ q h.
      ground
        (arith, find-insert d.next q (new_worker (handler % 2 ^ 32, id)) d.objects, v.unused q);
  bounded = grind (arith, length-insert id d.next d.workers e);
}

removed-Inv :
    (p id : ℕ) (d : Manager)
    → find id d.workers ≡ some p
    → Inv d
    → Inv (record d {
      threads = erase id d.threads;
      workers = erase id d.workers;
      objects = erase p d.objects;
    })
removed-Inv p id d e v = record {
  known = λ q w h.
      let (other, there) = erase_cases p q w d.objects h in
      let found = v.known q w there in ground (arith, find-erase id (identity w) d.workers);
  settled = λ q w h. v.settled q w (erase_cases p q w d.objects h).1;
  paired = ap (erase id) v.paired;
  unused = λ q h. ground (arith, find-erase p q d.objects, v.unused q);
  bounded = grind (arith, length-erase id d.workers, v.bounded);
}

remove_worker-InOrder :
    (p : ℕ) (w : Worker) (d : Manager)
    → find p d.objects ≡ some w
    → w.invoked ≡ none
    → Inv d
    → InOrder (remove_worker p w.worker_id d)
unfolding remove_worker
remove_worker-InOrder p w d e i v =
    let found = subst (λ o. find (key_of w.worker_id o) d.workers ≡ some p) i (v.known p w e) in
    let there = subst (λ m. find w.worker_id m ≡ some p) (sym v.paired) found in
    rw (there, found) (removed-Inv p w.worker_id d found v)

pub finished_by-InOrder :
    (p : ℕ) (d : Manager) (o : Option Worker)
    → find p d.objects ≡ o
    → Inv d
    → InOrder (finished_by p d o)
finished_by-InOrder p d none e v = v
finished_by-InOrder p d (some w) e v =
    if_cases InOrder w.finished
      (λ sent. remove_worker-InOrder p w d e (ground (arith, v.settled p w e)) v) (λ unsent. v)
