-- ===== src/Legacy/UdpServer.antt =====
-- Legacy/udpserverinstance: a UDP server of Qt with slots for threads, one for each datagram.
pub mod Receiving
pub mod Remover
use components_network.Prelude.{
  ℕ, zero, suc, ltb, Bytes, Bool, true, false, not, ◌&&◌, List, [], ◌∷◌, ◌++◌, Option, none, some,
  get_elem?, set, length, replicate, if◌then◌else◌,
}
use components_network.Legacy.Exchange.{Packet, Codec, from_bytes}

-- What `QUdpSocket::state` gives.
pub data SocketState : Type 0 where
  unconnected_state bound_state listening_state : SocketState

-- `Impl`, with the queue of the socket, how often its signal is connected to `onMessage`, and the
-- packets that were emitted. A slot of `process_threads` is whether there is a thread.
pub record Server : Type 0 where
  pub thread_count : ℕ
  pub process_threads : List Bool
  pub thread_inputs : List Bytes
  pub threads_to_remove : List Bool
  pub results : List Packet
  pub thread_finished : Bool
  pub done : Bool
  pub socket : SocketState
  pub pending : List Bytes
  pub watched : ℕ
  pub emitted : List Packet

-- The constructor.
abbrev pub new : ℕ → Server
new count = record {
  thread_count = count;
  process_threads = replicate count false;
  thread_inputs = replicate count [];
  threads_to_remove = replicate count false;
  results = [];
  thread_finished = false;
  done = false;
  socket = unconnected_state;
  pending = [];
  watched = 0;
  emitted = [];
}

-- `getMessage`: there is no front to pop of an empty vector (`none`).
unfoldable pub get_message : Server → Option (Packet × Server)
get_message d = elim d.results [ [] ↦ none | p ∷ ps ↦ some (p, record d { results = ps }) ]

-- `threadFinishedSignal`; `none` is -1.
unfoldable pub thread_finished_signal : Option ℕ → Server → Server
thread_finished_signal none d = record d { thread_finished = true }
thread_finished_signal (some num) d =
    let d1 = record d { thread_finished = true } in
    if ltb num d.thread_count
    then record d1 { threads_to_remove = set d.threads_to_remove num true }
    else d1

abbrev pub emit_message : ℕ → Option (Packet × Server) → Option Server
emit_message num none = none
emit_message num (some (p, d)) =
    some (thread_finished_signal (some num) (record d { emitted = d.emitted ++ p ∷ [] }))

abbrev pub process_input : Codec → ℕ → Server → Option Bytes → Option Server
process_input c num d none = none
process_input c num d (some input) =
    emit_message num (get_message (record d { results = d.results ++ from_bytes c input ∷ [] }))

-- `processThreadLoop`, which is to run on the thread of a slot.
unfoldable pub process_thread_loop : Codec → ℕ → Server → Option Server
process_thread_loop c num d = process_input c num d (get_elem? d.thread_inputs num)

-- `start`: is the port bound?
unfoldable pub start : Bool → Server → Server × Bool
start binds d =
    (record d { watched = suc d.watched; socket = if binds then bound_state else d.socket }, binds)

abbrev pub is_listening : SocketState → Bool
is_listening listening_state = true
is_listening _ = false

-- `isRunning`.
unfoldable pub is_running : Server → Bool
is_running d = is_listening d.socket

-- `stop`: the socket is closed and deleted.
unfoldable pub stop : Server → Server
stop d = if d.done then d else record (thread_finished_signal none (record d { done = true })) {
  socket = unconnected_state;
  watched = 0;
  pending = [];
}

-- The destructor.
unfoldable pub destroy : Server → Server
unfolding stop
destroy d = stop d

-- The loop over the slots in `onMessage`: the first one without a thread.
abbrev pub next_slot : Option ℕ → Option ℕ
next_slot none = none
next_slot (some i) = some (suc i)

abbrev pub free_slot : List Bool → Option ℕ
free_slot [] = none
free_slot (true ∷ ts) = next_slot (free_slot ts)
free_slot (false ∷ ts) = some 0

-- The loop of `onMessage` over the datagrams that are pending. It only stores them.
unfoldable pub receive_all : List Bytes → Server → Server
receive_all [] d = record d { pending = [] }
receive_all (m ∷ ms) d = elim (free_slot d.process_threads) [
  | none ↦ record d { pending = ms }
  | some i ↦ receive_all ms (record d { thread_inputs = set d.thread_inputs i m })
]

-- `onMessage`.
unfoldable pub on_message : Server → Server
on_message d = receive_all d.pending d
