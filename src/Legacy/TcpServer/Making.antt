-- ===== src/Legacy/TcpServer/Making.antt =====
-- The operations of the manager that make no worker.
use components_network.Prelude.{
  ℕ, ◌≡◌, refl, number_key, Bool, false, ◌&&◌, Option, none, some, is_some, arith, if_cases, length,
  leb, ltb,
}
use components_network.Prelude.Assoc.{find}
use components_network.Legacy.Workers
use components_network.Legacy.TcpServer.{starts_worker}

-- No worker was made.
abbrev pub MadeUpTo : ℕ → Workers.Outcome → Type 0
MadeUpTo n (Workers.done d) = d.next ≡ n
MadeUpTo n Workers.searching = Unit {0}
MadeUpTo n Workers.undefined_behaviour = Unit {0}

finished_by-MadeUpTo :
    (p : ℕ) (d : Workers.Manager) (o : Option Workers.Worker)
    → MadeUpTo d.next (Workers.finished_by p d o)
unfolding Workers.remove_worker
finished_by-MadeUpTo p d none = refl
finished_by-MadeUpTo p d (some w) =
    if_cases (MadeUpTo d.next) w.finished
      (λ t.
        if_cases (MadeUpTo d.next)
          (is_some (find w.worker_id d.threads) && is_some (find w.worker_id d.workers))
          (λ both. refl) (λ lost. tt))
      (λ f. refl)

updated-next :
    (f : Workers.Worker → Workers.Worker) (p : ℕ) (d : Workers.Manager) (o : Option Workers.Worker)
    → (Workers.updated f p d o).next ≡ d.next
updated-next f p d none = refl
updated-next f p d (some w) = refl

pub step-MadeUpTo :
    (d : Workers.Manager) (e : Workers.Event)
    → starts_worker d e ≡ false
    → MadeUpTo d.next (Workers.step d e)
unfolding Workers.step Workers.create_connection Workers.set_info_processor
    Workers.set_action_processor Workers.set_error_processor Workers.set_thread_count Workers.update
    Workers.on_finished Workers.reject_connection
step-MadeUpTo d (Workers.creates ids handler) h =
    if_cases (MadeUpTo d.next) (leb d.maximum_thread_count (length d.workers)) (λ full. refl)
      (λ room. absurd (ground arith))
step-MadeUpTo d (Workers.sets_thread_count (Workers.negsuc n)) h = refl
step-MadeUpTo d (Workers.sets_thread_count (Workers.pos n)) h =
    if_cases {A = Workers.Manager × Bool} (λ r. r.0.next ≡ d.next) (ltb 0 (length d.workers))
      (λ t. refl) (λ f. refl)
step-MadeUpTo d (Workers.sets_info_processor f) h = refl
step-MadeUpTo d (Workers.sets_action_processor f) h = refl
step-MadeUpTo d (Workers.sets_error_processor f) h = refl
step-MadeUpTo d (Workers.attaches refused p) h = updated-next _ p d (find p d.objects)
step-MadeUpTo d (Workers.receives c input p) h = updated-next _ p d (find p d.objects)
step-MadeUpTo d (Workers.disconnects p) h = updated-next _ p d (find p d.objects)
step-MadeUpTo d (Workers.finishes p) h = finished_by-MadeUpTo p d (find p d.objects)
