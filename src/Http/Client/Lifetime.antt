-- ===== src/Http/Client/Lifetime.antt =====
-- src/HTTP/client: asynchronous requests step by step, on a context that the client owns or was
-- given, with the interruption of a request and the end of the client's life.
pub mod Replies
pub mod Ending
pub mod Dangling
use components_network.Prelude.{
  Bool, true, false, not, ◌||◌, List, [], ◌∷◌, ◌++◌, Option, none, some, is_some, if◌then◌else◌,
}
use components_network.Http.Types.{MethodType, Packet}
use components_network.Http.Socket.{ErrorCode, operation_aborted, is_error, Kind, plain, secure}
use components_network.Http.Client.{
  Network, Client, Response, Outcome, new, verb_of, with_connection, sending, packet_request,
  answer_fresh, disconnect_from_host,
}

-- `defaultCtx` with its thread, or the `io_context` of the other constructor.
pub data Context : Type 0 where
  default_ctx given : Context

-- Which handler of a request is to come.
pub data Phase : Type 0 where
  writing reading : Phase

-- A request that was begun: what its handlers capture, and whether its operation was cancelled.
pub record Outstanding : Type 0 where
  pub pkt : Packet
  pub has_callback : Bool
  pub phase : Phase
  pub aborted : Bool

-- A client, with what the callbacks were called with, oldest first.
pub record Life : Type 0 where
  pub client : Client
  pub context : Context
  pub outstanding : Option Outstanding
  pub calls : List (Option Packet)
  pub released : Bool

-- The two constructors.
abbrev pub begin : Context → Bool → Bool → Life
begin context is_secure verify = record {
  client = new is_secure verify;
  context = context;
  outstanding = none;
  calls = [];
  released = false;
}

-- `requestAsync` up to its return: the operation that it leaves behind, if it comes to one.
unfoldable pub begin_request :
    Network → Client → MethodType → Packet → Bool → Outcome (Option Outstanding) × Client
unfolding verb_of with_connection packet_request
begin_request net d method pkt has_callback = elim (verb_of method) [
  | none ↦ (some none, d)
  | some v ↦ with_connection net d none λ s. (
    some (
        some (record { pkt = pkt; has_callback = has_callback; phase = writing; aborted = false })),
    sending d s (packet_request d v pkt),
  )
]

abbrev pub begun : Life → Outcome (Option Outstanding) × Client → Life
begun r (none, d) = record r { client = d }
begun r (some o, d) = record r { client = d; outstanding = o }

-- A call of the callback, if there is one.
abbrev pub call : Outstanding → Option Packet → List (Option Packet)
call o p = if o.has_callback then p ∷ [] else []

-- The code that a handler is given.
abbrev pub code : Outstanding → ErrorCode → ErrorCode
code o ec = if o.aborted then operation_aborted else ec

-- The handler of the write, and that of the read.
unfoldable pub on_write : Life → Outstanding → ErrorCode → Life
on_write r o ec =
    if is_error (code o ec)
    then record r { outstanding = none; calls = r.calls ++ call o none }
    else record r { outstanding = some (record o { phase = reading }) }

unfoldable pub on_read : Life → Outstanding → ErrorCode → Response → Life
unfolding answer_fresh
on_read r o ec res = record r {
  outstanding = none;
  calls =
      (if is_error (code o ec) then r.calls ++ call o none else r.calls)
      ++ call o (some (answer_fresh o.pkt res));
}

-- `interruptRequestProcessing`, for an operation that is still pending or has ended already: on a
-- TLS socket that is not open, `cancel` throws (`none`).
abbrev pub cancelled : Bool → Option Outstanding → Option Outstanding
cancelled pending none = none
cancelled pending (some o) = some (record o { aborted = o.aborted || pending })

abbrev pub cancels : Kind → Bool → Bool
cancels plain is_open = true
cancels secure is_open = is_open

unfoldable pub interrupt_request_processing : Life → Bool → Outcome Life
interrupt_request_processing r pending =
    if cancels r.client.socket.kind r.client.socket.is_open
    then some (record r { outstanding = cancelled pending r.outstanding })
    else none

abbrev pub disconnected : Network → Life → Life
disconnected net r = record r {
  client = record r.client { socket = (disconnect_from_host net r.client.socket).0 };
}

-- The destructor of `Impl`: the own context is stopped and its thread joined, and what is
-- outstanding on it is dropped. A context that was given keeps it.
unfoldable pub release : Life → Life
release r = record r {
  released = true;
  outstanding = elim r.context [ default_ctx ↦ none | given ↦ r.outstanding ];
}

-- What the owner and the context do. The destructor of `Client` is `disconnects`, whatever handlers
-- its thread runs meanwhile, and `releases`.
pub data Event : Type 0 where
  requests : Network → MethodType → Packet → Bool → Event
  wrote : ErrorCode → Event
  read : ErrorCode → Response → Event
  interrupts : Bool → Event
  disconnects : Network → Event
  releases : Event

-- A handler that runs once the client is gone uses it through `this` (`undefined`); `cannot` is an
-- event that does not come: a use of the client by an owner who has released it or lets requests
-- overlap, a handler of an operation that is not outstanding.
pub data Status : Type 0 where
  goes : Life → Status
  undefined cannot : Status

abbrev pub handled : Life → Life → Status
handled r next = if r.released then undefined else goes next

abbrev pub owned : Life → Life → Status
owned r next = if r.released then cannot else goes next

abbrev pub or_same : Life → Outcome Life → Life
or_same r none = r
or_same r (some r') = r'

unfoldable pub completes : Life → Option Outstanding → Event → Status
unfolding on_write on_read
completes r none e = cannot
completes r (some o) (wrote ec) = elim o.phase [
  | writing ↦ handled r (on_write r o ec)
  | reading ↦ cannot
]
completes r (some o) (read ec res) = elim o.phase [
  | writing ↦ cannot
  | reading ↦ handled r (on_read r o ec res)
]
completes r (some o) e = cannot

unfoldable pub step : Life → Event → Status
unfolding begin_request interrupt_request_processing disconnect_from_host release completes
step r (requests net method pkt has_callback) =
    if is_some r.outstanding
    then cannot
    else owned r (begun r (begin_request net r.client method pkt has_callback))
step r (wrote ec) = completes r r.outstanding (wrote ec)
step r (read ec res) = completes r r.outstanding (read ec res)
step r (interrupts pending) = owned r (or_same r (interrupt_request_processing r pending))
step r (disconnects net) = owned r (disconnected net r)
step r releases = owned r (release r)

abbrev pub after : (Life → Status) → Status → Status
after next (goes r) = next r
after next undefined = undefined
after next cannot = cannot

unfoldable pub run : Life → List Event → Status
unfolding step
run r [] = goes r
run r (e ∷ es) = after (λ r'. run r' es) (step r e)
