-- ===== src/Legacy/TcpServer.antt =====
-- Legacy/tcpserverinstance: the Qt servers of a process, which share one manager. The manager keeps
-- references to the functions of the server that was constructed first. Pointers are numbers.

pub mod Following
pub mod Sharing
pub mod Making
pub mod Orphaned
use components_network.Prelude.{
  ℕ, ◌+◌, ◌==◌, number_key, Bool, true, false, not, ◌&&◌, List, [], ◌∷◌, Option, none, some,
  is_some, if◌then◌else◌, length, leb,
}
use components_network.Prelude.Assoc.{find, erase, insert}
use components_network.Legacy.Exchange.{Packet, Processors}
use components_network.Legacy.Workers

-- `TcpServerInstanceQ`: whether it has a function for the constructors of workers, its copies of the
-- processors, and whether it listens.
pub record Server : Type 0 where
  pub initer : Bool
  pub processors : Processors
  pub is_listening : Bool

-- A process: the manager, if it is constructed, with the server whose functions it refers to; the
-- servers that live; the next free pointer; and the servers whose function was called for a worker.
pub record Process : Type 0 where
  pub manager : Option (ℕ × Workers.Manager)
  pub servers : List (ℕ × Server)
  pub next : ℕ
  pub initialised : List ℕ

abbrev pub new : Process
new = record { manager = none; servers = []; next = 0; initialised = [] }

pub data Outcome : Type 0 where
  done : Process → Outcome
  searching : Outcome
  undefined_behaviour : Outcome

-- `ThreadManager::getInstance`, for the server that is constructed and the ideal number of threads.
abbrev pub get_instance : ℕ → ℕ → Option (ℕ × Workers.Manager) → ℕ × Workers.Manager
get_instance ideal k none = (k, Workers.new ideal)
get_instance ideal k (some held) = held

abbrev pub new_server : Bool → Server
new_server initer = record {
  initer = initer;
  processors = record { info_processor = none; action_processor = none; error_processor = false };
  is_listening = false;
}

-- The constructor.
unfoldable pub construct : ℕ → Bool → Process → Process
construct ideal initer w = record w {
  manager = some (get_instance ideal w.next w.manager);
  servers = insert w.next (new_server initer) w.servers;
  next = w.next + 1;
}

-- The destructor.
unfoldable pub destroy : ℕ → Process → Process
destroy k w = record w { servers = erase k w.servers }

-- Does an operation of the manager construct a worker, unless it searches for ever?
abbrev pub starts_worker : Workers.Manager → Workers.Event → Bool
starts_worker d (Workers.creates ids handler) = not (leb d.maximum_thread_count (length d.workers))
starts_worker d _ = false

abbrev pub calls_initer : Option Server → Bool
calls_initer none = false
calls_initer (some server) = server.initer

-- What comes of an operation of the manager. The constructor of a worker reads `m_initer`, which is
-- gone with the server that owns it, and calls it where it is set.
unfoldable pub managed : Bool → ℕ → Process → Workers.Outcome → Outcome
managed starts owner w Workers.searching = searching
managed starts owner w Workers.undefined_behaviour = undefined_behaviour
managed starts owner w (Workers.done d) =
    if starts && not (is_some (find owner w.servers))
    then undefined_behaviour
    else done (record w {
      manager = some (owner, d);
      initialised =
          if starts && calls_initer (find owner w.servers)
          then owner ∷ w.initialised
          else w.initialised;
    })

abbrev pub manage : Workers.Event → Process → Option (ℕ × Workers.Manager) → Outcome
manage e w none = done w
manage e w (some (owner, d)) = managed (starts_worker d e) owner w (Workers.step d e)

-- A method of a server reaches the manager after it has changed the server.
abbrev pub reached : ℕ → (Server → Server) → Workers.Event → Process → Option Server → Outcome
reached k f e w none = undefined_behaviour
reached k f e w (some server) =
    manage e (record w { servers = insert k (f server) w.servers }) w.manager

-- `setInfoProcessor`, `setActionProcessor` and `setErrorProcessor`.
unfoldable pub set_info_processor : Option (Packet → Packet → Packet) → ℕ → Process → Outcome
set_info_processor f k w =
    reached k
      (λ (server : Server). record server {
        processors = record server.processors { info_processor = f };
      })
      (Workers.sets_info_processor f) w (find k w.servers)

unfoldable pub set_action_processor : Option (Packet → Packet → Packet) → ℕ → Process → Outcome
set_action_processor f k w =
    reached k
      (λ (server : Server). record server {
        processors = record server.processors { action_processor = f };
      })
      (Workers.sets_action_processor f) w (find k w.servers)

unfoldable pub set_error_processor : Bool → ℕ → Process → Outcome
set_error_processor f k w =
    reached k
      (λ (server : Server). record server {
        processors = record server.processors { error_processor = f };
      })
      (Workers.sets_error_processor f) w (find k w.servers)

-- `incomingConnection`, for the identifiers that are drawn.
unfoldable pub incoming_connection : List ℕ → ℕ → ℕ → Process → Outcome
incoming_connection ids handler k w =
    reached k (λ server. server) (Workers.creates ids handler) w (find k w.servers)

abbrev pub started : Bool → ℕ → Process → Option Server → Outcome
started listens k w none = undefined_behaviour
started listens k w (some server) = done (
    if listens
    then record w { servers = insert k (record server { is_listening = true }) w.servers }
    else w)

-- `start`. Does `listen` succeed?
unfoldable pub start : Bool → ℕ → Process → Outcome
start listens k w = started listens k w (find k w.servers)

abbrev pub destroyed : ℕ → Process → Option Server → Outcome
destroyed k w none = undefined_behaviour
destroyed k w (some server) = done (destroy k w)

-- `works` is an event of the manager and its workers.
pub data Event : Type 0 where
  constructs : ℕ → Bool → Event
  destroys : ℕ → Event
  sets_info_processor : Option (Packet → Packet → Packet) → ℕ → Event
  sets_action_processor : Option (Packet → Packet → Packet) → ℕ → Event
  sets_error_processor : Bool → ℕ → Event
  starts : Bool → ℕ → Event
  comes : List ℕ → ℕ → ℕ → Event
  works : Workers.Event → Event

unfoldable pub step : Process → Event → Outcome
step w (constructs ideal initer) = done (construct ideal initer w)
step w (destroys k) = destroyed k w (find k w.servers)
step w (sets_info_processor f k) = set_info_processor f k w
step w (sets_action_processor f k) = set_action_processor f k w
step w (sets_error_processor f k) = set_error_processor f k w
step w (starts listens k) = start listens k w
step w (comes ids handler k) = incoming_connection ids handler k w
step w (works e) = manage e w w.manager

unfoldable pub run : Outcome → List Event → Outcome
run o [] = o
run searching (e ∷ es) = searching
run undefined_behaviour (e ∷ es) = undefined_behaviour
run (done w) (e ∷ es) = run (step w e) es
