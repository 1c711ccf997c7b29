-- ===== src/Legacy/Workers/Search.antt =====
-- The search for an identifier in `ThreadManager::createConnection`.
use components_network.Prelude.{
  ℕ, ◌≡◌, refl, ◌<◌, number_key, true, List, [], ◌∷◌, none, is_some, Option-cases, if_cases, inl,
  inr, arith, All, length, leb,
}
use components_network.Prelude.Assoc.{find, DistinctKeys, held-le}
use components_network.Legacy.Workers.{
  Manager, done, fresh_id, create_connection, create_worker, reject_connection,
}

-- Where the search is not over, all the values that were drawn are taken.
fresh_id-All :
    (m : List (ℕ × ℕ)) (ids : List ℕ)
    → fresh_id m ids ≡ none
    → All (λ id. is_some (find id m) ≡ true) ids
unfolding fresh_id
fresh_id-All m [] e = tt
fresh_id-All m (id ∷ ids) e = elim (Option-cases (find id m)) [
  | inl absent ↦ absurd (ground arith)
  | inr (k, found) ↦ (rw found refl, fresh_id-All m ids (ground arith))
]

-- The loop ends: among any values that are distinct and more than the workers there is one that is
-- free, so that a connection for which they are drawn is taken, or rejected, by then.
pub create_connection-done :
    (d : Manager) (ids : List ℕ) (handler : ℕ)
    → DistinctKeys ids
    → length d.workers < length ids
    → (d' : Manager) × (create_connection ids handler d ≡ done d')
unfolding create_connection
create_connection-done d ids handler u many =
    if_cases (λ o. (d' : Manager) × (o ≡ done d')) (leb d.maximum_thread_count (length d.workers))
      (λ full. (reject_connection handler d, refl))
      (λ room. elim (Option-cases (fresh_id d.workers ids)) [
        | inl none' ↦
            absurd (omega (arith, held-le ids d.workers u (fresh_id-All d.workers ids none'), many))
        | inr (id, free) ↦ (create_worker id handler d, rw free refl)
      ])
