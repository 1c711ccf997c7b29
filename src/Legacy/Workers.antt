-- ===== src/Legacy/Workers.antt =====
-- Legacy/threadmanager and Legacy/connectionworker: the workers that serve the connections of the
-- Qt server, each on a thread of its own, and the manager that keeps them. Pointers are numbers.
pub mod Standing
pub mod Lifetime
pub mod Search
use components_network.Prelude.{
  ℕ, ◌≡◌, ◌==◌, number_key, ◌+◌, ◌-◌, ◌*◌, ◌%◌, ◌^◌, Bool, true, false, not, ◌&&◌, ◌||◌, List, [],
  ◌∷◌, Option, none, some, is_some, if◌then◌else◌, Bytes, length, leb, ltb,
}
use components_network.Prelude.Assoc.{find, erase, insert}
use components_network.Legacy.Exchange.{
  Packet, Codec, Processors, fresh, from_bytes, to_bytes, process,
}

-- The socket of a worker, with its descriptor while it is connected.
pub data Socket : Type 0 where
  unconnected : Socket
  connected : ℕ → Socket
  disconnected : Socket

-- `ConnectionWorker`. `invoked` is the call of `setConnection` that was queued for it, descriptor and
-- identifier, and `finished` tells that the signal was emitted, which the manager gets through a queue.
pub record Worker : Type 0 where
  pub worker_id : ℕ
  pub socket : Socket
  pub invoked : Option (ℕ × ℕ)
  pub finished : Bool
  pub request : Packet
  pub response : Packet
  pub response_packet : Bytes

abbrev pub new_worker : ℕ × ℕ → Worker
new_worker call = record {
  worker_id = 0;
  socket = unconnected;
  invoked = some call;
  finished = false;
  request = fresh;
  response = fresh;
  response_packet = [];
}

abbrev pub is_connected : Socket → Bool
is_connected (connected _) = true
is_connected _ = false

-- `setConnection`. Does the socket refuse the descriptor? The answer is ignored.
unfoldable pub set_connection : Bool → ℕ → ℕ → Worker → Worker
set_connection refused descriptor id w =
    if is_connected w.socket
    then w
    else record w { worker_id = id; socket = if refused then w.socket else connected descriptor }

abbrev pub run_call : Bool → Worker → Option (ℕ × ℕ) → Worker
run_call refused w none = w
run_call refused w (some (descriptor, id)) =
    set_connection refused descriptor id (record w { invoked = none })

-- The event loop of a worker takes up the queued call.
unfoldable pub run_invoked : Bool → Worker → Worker
run_invoked refused w = run_call refused w w.invoked

-- `onDisconnect`, which a connected socket causes.
unfoldable pub on_disconnect : Worker → Worker
on_disconnect w =
    if is_connected w.socket then record w { socket = disconnected; finished = true } else w

-- `onMessage`: the worker, what it writes, and what went to the processor of errors.
unfoldable pub on_message : Codec → Processors → Bytes → Worker → Worker × List Bytes × List Packet
on_message c ps input w =
    let request = from_bytes c input in
    let response = (process ps request).0 in
    let errors = (process ps request).1 in
    let w1 = record w { request = request } in
    let w2 = record w1 { response = response } in
    let packet = to_bytes c response in
    if not (is_connected w.socket)
    then (w, [], [])
    else (if not request.is_valid
        then (w1, [], [])
        else (if not response.is_valid
            then (w2, [], errors)
            else (record w2 { response_packet = packet }, packet ∷ [], errors)))

-- `ThreadManager`, whose processors its workers share by reference, the workers that live, by their pointers, and the next free pointer. `rejected`
-- are the descriptors that were taken only to be closed.
pub record Manager : Type 0 where
  pub workers : List (ℕ × ℕ)
  pub threads : List (ℕ × ℕ)
  pub maximum_thread_count : ℕ
  pub processors : Processors
  pub objects : List (ℕ × Worker)
  pub next : ℕ
  pub rejected : List ℕ

-- A count of type `int`.
pub data ℤ : Type 0 where
  pos : ℕ → ℤ
  negsuc : ℕ → ℤ

-- `setThreadCount`: the manager, and what is returned.
unfoldable pub set_thread_count : ℤ → Manager → Manager × Bool
set_thread_count (negsuc n) d = (d, false)
set_thread_count (pos n) d =
    if ltb 0 (length d.workers) then (d, false) else (record d { maximum_thread_count = n }, true)

-- `availableThreads`.
unfoldable pub available_threads : Manager → ℤ
available_threads d =
    if leb (length d.workers) d.maximum_thread_count
    then pos (d.maximum_thread_count - length d.workers)
    else negsuc (length d.workers - d.maximum_thread_count - 1)

-- The constructor, for the ideal number of threads.
abbrev pub new : ℕ → Manager
new ideal = record {
  workers = [];
  threads = [];
  maximum_thread_count = ideal;
  processors = record { info_processor = none; action_processor = none; error_processor = false };
  objects = [];
  next = 0;
  rejected = [];
}

-- `setInfoProcessor`, `setActionProcessor` and `setErrorProcessor`.
unfoldable pub set_info_processor : Option (Packet → Packet → Packet) → Manager → Manager
set_info_processor f d = record d { processors = record d.processors { info_processor = f } }

unfoldable pub set_action_processor : Option (Packet → Packet → Packet) → Manager → Manager
set_action_processor f d = record d { processors = record d.processors { action_processor = f } }

unfoldable pub set_error_processor : Bool → Manager → Manager
set_error_processor f d = record d { processors = record d.processors { error_processor = f } }

-- `rejectConnection`.
unfoldable pub reject_connection : ℕ → Manager → Manager
reject_connection handler d = record d { rejected = handler ∷ d.rejected }

-- The search for an identifier among the values that `rand() * rand()` takes one after another;
-- `none` if all of them are taken.
unfoldable pub fresh_id : List (ℕ × ℕ) → List ℕ → Option ℕ
fresh_id workers [] = none
fresh_id workers (id ∷ ids) = if is_some (find id workers) then fresh_id workers ids else some id

-- The rest of `createConnection`. The descriptor is passed on as an `int`.
unfoldable pub create_worker : ℕ → ℕ → Manager → Manager
create_worker id handler d = record d {
  workers = insert id d.next d.workers;
  threads = insert id d.next d.threads;
  objects = insert d.next (new_worker (handler % 2 ^ 32, id)) d.objects;
  next = d.next + 1;
}

-- How an operation of the manager ends: it may search for ever, or go astray with an iterator.
pub data Outcome : Type 0 where
  done : Manager → Outcome
  searching : Outcome
  undefined_behaviour : Outcome

abbrev pub created : ℕ → Manager → Option ℕ → Outcome
created handler d none = searching
created handler d (some id) = done (create_worker id handler d)

-- `createConnection`.
unfoldable pub create_connection : List ℕ → ℕ → Manager → Outcome
create_connection ids handler d =
    if leb d.maximum_thread_count (length d.workers)
    then done (reject_connection handler d)
    else created handler d (fresh_id d.workers ids)

-- `onFinished` for a sender of this identifier: both iterators have to point to an entry.
unfoldable pub remove_worker : ℕ → ℕ → Manager → Outcome
remove_worker p id d =
    if is_some (find id d.threads) && is_some (find id d.workers)
    then done (record d {
      threads = erase id d.threads;
      workers = erase id d.workers;
      objects = erase p d.objects;
    })
    else undefined_behaviour

abbrev pub finished_by : ℕ → Manager → Option Worker → Outcome
finished_by p d none = done d
finished_by p d (some w) = if w.finished then remove_worker p w.worker_id d else done d

-- `onFinished`, for the worker that sent the signal, if it did.
unfoldable pub on_finished : ℕ → Manager → Outcome
on_finished p d = finished_by p d (find p d.objects)

-- The destructor. With an entry in the map it iterates over the map that it erases from.
unfoldable pub destroy : Manager → Outcome
destroy d = if length d.workers == 0 then done (record d { threads = [] }) else undefined_behaviour

abbrev pub updated : (Worker → Worker) → ℕ → Manager → Option Worker → Manager
updated f p d none = d
updated f p d (some w) = record d { objects = insert p (f w) d.objects }

-- What happens to a worker.
unfoldable pub update : (Worker → Worker) → ℕ → Manager → Manager
update f p d = updated f p d (find p d.objects)

pub data Event : Type 0 where
  creates : List ℕ → ℕ → Event
  sets_thread_count : ℤ → Event
  sets_info_processor : Option (Packet → Packet → Packet) → Event
  sets_action_processor : Option (Packet → Packet → Packet) → Event
  sets_error_processor : Bool → Event
  attaches : Bool → ℕ → Event
  receives : Codec → Bytes → ℕ → Event
  disconnects : ℕ → Event
  finishes : ℕ → Event

unfoldable pub step : Manager → Event → Outcome
step d (creates ids handler) = create_connection ids handler d
step d (sets_thread_count n) = done (set_thread_count n d).0
step d (sets_info_processor f) = done (set_info_processor f d)
step d (sets_action_processor f) = done (set_action_processor f d)
step d (sets_error_processor f) = done (set_error_processor f d)
step d (attaches refused p) = done (update (run_invoked refused) p d)
step d (receives c input p) = done (update (λ w. (on_message c d.processors input w).0) p d)
step d (disconnects p) = done (update on_disconnect p d)
step d (finishes p) = on_finished p d

unfoldable pub steps : Outcome → List Event → Outcome
steps o [] = o
steps searching (e ∷ es) = searching
steps undefined_behaviour (e ∷ es) = undefined_behaviour
steps (done d) (e ∷ es) = steps (step d e) es
