-- ===== src/Transport/Session.antt =====
-- Legacy/Transport/TransportServer/connectionsession: one client's connection on the server.
pub mod Collecting
pub mod Tokens
pub mod Buffer
use components_network.Prelude.{
  ℕ, zero, suc, ◌+◌, Bytes, ◌==◌, number_key, bytes_key, Bool, true, false, ◌||◌, List, [], ◌∷◌,
  ◌++◌, Option, none, some, ltb, length, drop, if◌then◌else◌,
}
use components_network.Prelude.Assoc.{find, insert, erase}
use components_network.Transport.Codec.{TransportPacket, fresh, Codec, Outcome, returns, throws}
use components_network.Transport.Packet.{
  must_be_separated, to_string, from_string, to_sub_packets, from_sub_packets,
}

-- The queue that each closure of `m_subPacketsMap` captured, by guid.
abbrev pub SubPacketsMap : Type 0
SubPacketsMap = List (Bytes × List TransportPacket)

pub record Session : Type 0 where
  pub buffer : Bytes  -- data_
  pub sub_packets_map : SubPacketsMap
  pub token_list : List Bytes
  -- Is an asynchronous read outstanding?
  pub reading : Bool
  -- How many jobs are posted and not yet run. A job holds a pointer to the buffer: its capture
  -- `tmpBuffer = data_` copies no character.
  pub posted : ℕ
  -- What `writeSocket` has written, oldest first.
  pub sent : List Bytes

-- `ProcessCallbackT`: the input packet and the output packet before, the result and the output
-- packet after.
abbrev pub ProcessCallback : Type 0
ProcessCallback = Bytes → Bytes → Bool × Bytes

-- A `char` array taken as a `std::string`: what stands before the first NUL.
unfoldable pub c_str : Bytes → Bytes
c_str [] = []
c_str (zero ∷ s) = []
c_str (suc n ∷ s) = suc n ∷ c_str s

-- A read stores what it received over the beginning of the buffer.
abbrev pub store : Bytes → Bytes → Bytes
store received buffer = received ++ drop (length received) buffer

-- The handler of `async_read_some` in `readSocket`; `ec` is 0 if there is no error.
unfoldable pub on_read : Session → ℕ → Bytes → Session
on_read s ec received =
    let buffer = store received s.buffer in
    if ec == 2
    then record s { buffer = buffer; reading = false }
    else record s { buffer = buffer; posted = s.posted + 1; reading = true }

-- The closure: its result, the packet and its queue afterwards. What `fromSubpackets` returns is
-- not looked at.
abbrev pub completed : Outcome Bool → Outcome Bool
completed (returns b) = returns true
completed (throws e) = throws e

unfoldable pub collect :
    Codec
    → List TransportPacket
    → TransportPacket
    → (Outcome Bool × TransportPacket) × List TransportPacket
unfolding from_sub_packets
collect c queue sp =
    let all = queue ++ sp ∷ [] in
    let ((result, sp'), sorted) = from_sub_packets c all sp in
    if ltb (length all) sp.sub_packet_total_count
    then ((returns false, sp), all)
    else ((completed result, sp'), sorted)

abbrev pub queue_of : Option (List TransportPacket) → List TransportPacket
queue_of none = []
queue_of (some q) = q

-- `processSubpacket(p)`: the result, the packet and the map afterwards.
unfoldable pub process_sub_packet :
    Codec → SubPacketsMap → TransportPacket → (Outcome Bool × TransportPacket) × SubPacketsMap
unfolding collect
process_sub_packet c m p =
    let (r, queue) = collect c (queue_of (find p.guid m)) p in (r, insert p.guid queue m)

abbrev pub contains : List Bytes → Bytes → Bool
contains [] t = false
contains (u ∷ us) t = u == t || contains us t

-- What is written for a response packet.
unfoldable pub written : Codec → TransportPacket → List Bytes
unfolding must_be_separated
written c p = if must_be_separated p then to_sub_packets c p else to_string c p ∷ []

-- The end of the job: the callback, and its answer.
unfoldable pub respond : Codec → ProcessCallback → Session → TransportPacket → Session
unfolding written
respond c callback s request =
    let (done, output) = callback request.payload [] in
    if done then record s { sent = s.sent ++ written c (record fresh { payload = output }) } else s

unfoldable pub serve_collected :
    Codec
    → ProcessCallback
    → Session
    → (Outcome Bool × TransportPacket) × SubPacketsMap
    → Outcome (Unit {0}) × Session
unfolding respond
serve_collected c callback s ((returns true, p), m) =
    (returns tt, respond c callback (record s { sub_packets_map = erase p.guid m }) p)
serve_collected c callback s ((returns false, p), m) =
    (returns tt, record s { sub_packets_map = m })
serve_collected c callback s ((throws e, p), m) = (throws e, record s { sub_packets_map = m })

-- A request that was parsed: the check of its token, its sub-packets, and the answer.
unfoldable pub serve :
    Codec → ProcessCallback → Session → TransportPacket → Outcome (Unit {0}) × Session
unfolding serve_collected process_sub_packet
serve c callback s request =
    if contains s.token_list request.token
    then (if ltb 0 request.sub_packet_total_count
        then serve_collected c callback s (process_sub_packet c s.sub_packets_map request)
        else (returns tt, respond c callback s request))
    else (
      returns tt,
      record s { sent = s.sent ++ to_string c (record request { token = [] }) ∷ [] },
    )

unfoldable pub serve_parsed :
    Codec
    → ProcessCallback
    → Session
    → Outcome Bool × TransportPacket
    → Outcome (Unit {0}) × Session
unfolding serve
serve_parsed c callback s (returns true, request) = serve c callback s request
serve_parsed c callback s (returns false, request) = (returns tt, s)
serve_parsed c callback s (throws e, request) = (throws e, s)

-- The posted job, for the text that the buffer holds when it is run. An exception leaves the job, and `io_context::run`.
unfoldable pub process : Codec → ProcessCallback → Session → Bytes → Outcome (Unit {0}) × Session
unfolding serve_parsed
process c callback s text = serve_parsed c callback s (from_string c text fresh)

-- The processing context takes the oldest job.
unfoldable pub run_posted : Codec → ProcessCallback → Session → Outcome (Unit {0}) × Session
unfolding process c_str
run_posted c callback s = elim s.posted [
  | zero ↦ (returns tt, s)
  | suc n ↦ process c callback (record s { posted = n }) (c_str s.buffer)
]
