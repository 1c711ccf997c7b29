-- ===== src/Transport/Client.antt =====
-- Legacy/Transport/TransportClient: the client of the transport.
pub mod Responses
use components_network.Prelude.{
  ℕ, ◌+◌, Bytes, ◌==◌, number_key, bytes_key, Bool, true, false, not, ◌||◌, ◌&&◌, List, [], ◌∷◌,
  ◌++◌, map, Option, none, some, is_some, ltb, length, if◌then◌else◌,
}
use components_network.Prelude.Assoc.{find, insert}
use components_network.Transport.Codec.{
  TransportPacket, fresh, Codec, Outcome, returns, throws, other_exception,
}
use components_network.Transport.Packet.{
  must_be_separated, to_string, from_string, to_sub_packets, from_sub_packets,
}
use components_network.Transport.Session.{ProcessCallback, SubPacketsMap, c_str, queue_of}

-- The messages that `error` reports.
pub data ErrorMessage : Type 0 where
  token_not_set port_not_set callback_not_set : ErrorMessage
  address_in_connected_state processor_in_connected_state : ErrorMessage
  connection_error failed_to_deserialize : ErrorMessage

-- `Impl`. The state of the socket is what `sock->state()` says; an address is a text.
pub record Client : Type 0 where
  pub connected : Bool
  pub token : Bytes
  pub server_address : Bytes
  pub server_port : ℕ  -- uint16_t
  pub sub_packet_vectors : SubPacketsMap
  pub processor_callback : Option ProcessCallback
  pub has_error_callback : Bool
  -- What was written to the socket, and what was reported, oldest first.
  pub sent : List Bytes
  pub reported : List ErrorMessage

unfoldable pub error : Client → ErrorMessage → Client
error d m = if d.has_error_callback then record d { reported = d.reported ++ m ∷ [] } else d

-- `sock->write`; a short write is only logged.
unfoldable pub send : Client → Bytes → Client
send d text = record d { sent = d.sent ++ text ∷ [] }

-- What the network makes of `connectToHost` and `waitForConnected`: the state afterwards.
abbrev pub Network : Type 0
Network = Client → Bool

unfoldable pub connect_to_host : Network → Client → Client × Bool
unfolding error
connect_to_host net d =
    if d.token == []
    then (error d token_not_set, false)
    else (if d.server_port == 0
        then (error d port_not_set, false)
        else (if not (is_some d.processor_callback)
            then (error d callback_not_set, false)
            else (record d { connected = net d }, net d)))

unfoldable pub disconnect_from_host : Network → Client → Client
disconnect_from_host net d = if d.connected then record d { connected = net d } else d

unfoldable pub set_token : Client → Bytes → Client
set_token d t = record d { token = t }

unfoldable pub set_address : Client → Bytes → ℕ → Client
unfolding error
set_address d hostname port =
    if d.connected
    then error d address_in_connected_state
    else record d { server_address = hostname; server_port = port }

unfoldable pub set_processor : Client → Option ProcessCallback → Client
unfolding error
set_processor d pc =
    if d.connected
    then error d processor_in_connected_state
    else record d { processor_callback = pc }

unfoldable pub set_error_callback : Client → Bool → Client
set_error_callback d given = record d { has_error_callback = given }

unfoldable pub send_all : Client → List Bytes → Client
unfolding send
send_all d [] = d
send_all d (t ∷ ts) = send_all (send d (c_str t)) ts

-- The texts of a request, `guid` being what `generateGuid` gave.
unfoldable pub request_texts : Codec → Bytes → Client → Bytes → List Bytes
request_texts c guid d request_data =
    let reqp = record fresh { token = d.token; guid = guid; payload = request_data } in
    if must_be_separated reqp then to_sub_packets c reqp else to_string c reqp ∷ []

unfoldable pub request : Codec → Network → Bytes → Client → Bytes → Client
unfolding connect_to_host send_all request_texts error
request c net guid d request_data =
    let (d', ok) = connect_to_host net d in
    if ok then send_all d' (request_texts c guid d' request_data) else error d' connection_error

-- `m_processorCallback(payload, output)`, with an empty output; an empty `std::function` throws.
unfoldable pub call_processor : Option ProcessCallback → Bytes → Outcome (Bool × Bytes)
call_processor none payload = throws other_exception
call_processor (some pc) payload = returns (pc payload [])

-- The answer of the callback, printed by `print` if there is one.
unfoldable pub answer :
    (Bytes → Bytes) → Client → Outcome (Bool × Bytes) → Outcome (Unit {0}) × Client
unfolding send
answer print d (throws e) = (throws e, d)
answer print d (returns (true, output)) = (returns tt, send d (c_str (print output)))
answer print d (returns (false, output)) = (returns tt, d)

unfoldable pub print_response : Codec → Bytes → Bytes
print_response c output = to_string c (record fresh { payload = output })

-- A full vector: what `fromSubpackets` returns is not looked at.
unfoldable pub process_joined :
    Codec → Client → Outcome Bool × TransportPacket → Outcome (Unit {0}) × Client
unfolding answer call_processor print_response
process_joined c d (throws e, subp) = (throws e, d)
process_joined c d (returns b, subp) =
    answer (print_response c) d (call_processor d.processor_callback subp.payload)

unfoldable pub process_sub_packet : Codec → Client → TransportPacket → Outcome (Unit {0}) × Client
unfolding process_joined from_sub_packets
process_sub_packet c d subp =
    let vector = queue_of (find subp.guid d.sub_packet_vectors) ++ subp ∷ [] in
    let (r, sorted) = from_sub_packets c vector subp in
    if length vector == subp.sub_packet_total_count
    then process_joined c
        (record d { sub_packet_vectors = insert subp.guid sorted d.sub_packet_vectors }) r
    else (
      returns tt,
      record d { sub_packet_vectors = insert subp.guid vector d.sub_packet_vectors },
    )

unfoldable pub receive :
    Codec → Client → Outcome Bool × TransportPacket → Outcome (Unit {0}) × Client
unfolding process_sub_packet answer call_processor error
receive c d (throws e, respp) = (throws e, d)
receive c d (returns false, respp) = (returns tt, error d failed_to_deserialize)
receive c d (returns true, respp) =
    if respp.sub_packet_total_count == 0
    then answer (λ output. output) d (call_processor d.processor_callback respp.payload)
    else process_sub_packet c d respp

-- `gotResponse`, for what `sock->readAll()` gives.
unfoldable pub got_response : Codec → Client → Bytes → Outcome (Unit {0}) × Client
unfolding receive
got_response c d response_data = receive c d (from_string c response_data fresh)
