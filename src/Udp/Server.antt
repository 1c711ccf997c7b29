-- ===== src/Udp/Server.antt =====
-- src/UDP/server: a server that hands datagrams to a processor on a thread of its own.
pub mod Restart
use components_network.Prelude.{
  ℕ, Bytes, Bool, true, false, not, ◌&&◌, List, [], ◌∷◌, ◌++◌, Option, none, some, ltb, length,
  if◌then◌else◌,
}

-- `Impl`. The processor keeps what it was handed.
pub record Server : Type 0 where
  pub is_open : Bool
  pub bound : Option ℕ
  pub is_running : Bool
  pub has_processor : Bool
  -- Is an asynchronous receive outstanding?
  pub receiving : Bool
  -- `ioContext.stopped()`, and whether `ioThread` is joinable and inside `ioContext.run()`.
  pub stopped : Bool
  pub joinable : Bool
  pub in_run : Bool
  pub processed : List Bytes

abbrev pub new : Server
new = record {
  is_open = false;
  bound = none;
  is_running = false;
  has_processor = false;
  receiving = false;
  stopped = false;
  joinable = false;
  in_run = false;
  processed = [];
}

-- The operating system: may the socket be opened, which may depend on whether it is open already,
-- and may it be bound?
pub record Network : Type 0 where
  pub opens : Bool → Bool
  pub binds : ℕ → Bool

unfoldable pub start_receive : Server → Server
start_receive d = record d { receiving = true }

-- The handler in `startReceive`.
unfoldable pub on_receive : Server → Bool → Bytes → Server
unfolding start_receive
on_receive d error received =
    let d' = record d { receiving = false } in
    let taken =
      if not error && ltb 0 (length received) && d.has_processor
      then record d' { processed = d.processed ++ received ∷ [] }
      else d' in
    if d.is_running then start_receive taken else taken

-- The thread: `ioContext.run()` returns at once where the context is stopped.
unfoldable pub run : Server → Server
run d = record d { joinable = true; in_run = not d.stopped }

unfoldable pub start : Network → Server → ℕ → Server × Bool
unfolding start_receive run
start net d port =
    if d.is_running
    then (d, false)
    else (if not (net.opens d.is_open)
        then (d, false)
        else (if not (net.binds port) then (record d { is_open = true }, false) else (
          run (start_receive (record d { is_open = true; bound = some port; is_running = true })),
          true,
        )))

unfoldable pub is_working : Server → Bool
is_working d = d.is_running

-- `stop`: the thread is joined, and closing the socket ends the outstanding receive.
unfoldable pub stop : Server → Server
stop d = record d {
  is_running = false;
  stopped = true;
  joinable = false;
  in_run = false;
  is_open = false;
  bound = none;
  receiving = false;
}

unfoldable pub set_request_processor : Server → Bool → Server
set_request_processor d given = record d { has_processor = given }

-- What may happen to a server. A datagram, or an error of the receive, reaches the handler if a
-- receive is outstanding and the thread is inside `run`.
pub data Event : Type 0 where
  starts : Network → ℕ → Event
  stops : Event
  sets_processor : Bool → Event
  receives : Bool → Bytes → Event

unfoldable pub step : Server → Event → Server
unfolding start stop set_request_processor on_receive
step d (starts net port) = (start net d port).0
step d stops = stop d
step d (sets_processor given) = set_request_processor d given
step d (receives error received) =
    if d.receiving && d.in_run then on_receive d error received else d

unfoldable pub steps : Server → List Event → Server
steps d [] = d
steps d (e ∷ es) = steps (step d e) es
