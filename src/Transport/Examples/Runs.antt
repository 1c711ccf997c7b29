-- ===== src/Transport/Examples/Runs.antt =====
-- Runs of the packets, the sessions and the client.
use mathlib.Core.List.{Perm, Permᴰ}
use components_network.Prelude.{
  ◌%◌, ◌^◌, ◌<◌, ◌≡◌, ◌≢◌, refl, true, false, [], ◌∷◌, ◌++◌, some, length, arith, replicate, All,
}
use components_network.Prelude.Assoc.{find}
use components_network.Transport.Codec.{TransportPacket, returns, fresh}
use components_network.Transport.Packet.{to_string, sub_packets, from_sub_packets, piece_size}
use components_network.Transport.Packet.Pieces.{sub_packets-IsPiece, IsPiece}
use components_network.Transport.Packet.Reassembly.{from_sub_packets_recovers}
use components_network.Transport.Session.{Session, ProcessCallback, process, on_read, run_posted}
use components_network.Transport.Session.Collecting.{process_all, process_all_recovers}
use components_network.Transport.Session.Buffer.{on_read-run_posted}
use components_network.Transport.Client.{Client, request_texts}
use components_network.Transport.Client.Responses.{feed, feed_delivers, feed-Stale, vector, reply}
use components_network.Transport.Server.{initial, run, connection, loads_tokens, inits, accepts}
use components_network.Transport.Exchange.Bounce.{Bounces, request_packet, run-Bounces}
use components_network.Transport.Examples.{plain, plain-IsLossless, small, large}

-- The printed form of the large packet is cut into two.
large_fits : length (to_string plain large) < 2 ^ 63
unfolding to_string
large_fits = omega arith

large_uneven : length (to_string plain large) % 8000 ≢ 0
unfolding to_string
large_uneven = omega arith

abbrev first_part : TransportPacket
first_part = record fresh {
  guid = large.guid;
  type = large.type;
  sub_packet_no = 0;
  sub_packet_total_count = 2;
  payload = 1 ∷ 65 ∷ 2 ∷ 0 ∷ 0 ∷ replicate 7995 7;
}

abbrev second_part : TransportPacket
second_part = record first_part { sub_packet_no = 1; payload = replicate 105 7 }

large_parts : sub_packets plain large ≡ first_part ∷ second_part ∷ []
unfolding sub_packets piece_size
large_parts = refl

-- The parts arrive in the wrong order.
swapped : Perm (second_part ∷ first_part ∷ []) (sub_packets plain large)
swapped = rw large_parts (∣ Permᴰ.swap refl refl ∣₁)

from_sub_packets_recovers_example :
    (from_sub_packets plain (second_part ∷ first_part ∷ []) small).0
    ≡ (returns true, record large { token = small.token })
from_sub_packets_recovers_example =
    from_sub_packets_recovers plain large large_fits (second_part ∷ first_part ∷ []) small
      plain-IsLossless large_uneven swapped

sub_packets-IsPiece_example :
    All (IsPiece large (length (to_string plain large))) (sub_packets plain large)
sub_packets-IsPiece_example = sub_packets-IsPiece plain large large_fits

-- A callback that answers with what it was given, and a session on a small buffer of zeros.
abbrev echo : ProcessCallback
echo payload output = (true, payload)

abbrev session : Session
session = connection (replicate 6 0) ((5 ∷ []) ∷ [])

on_read-run_posted_example :
    let s = on_read (on_read session 0 (1 ∷ 2 ∷ 3 ∷ [])) 0 (7 ∷ []) in
    let first = run_posted plain echo s in
    (first ≡ process plain echo (record s { posted = 1 }) (7 ∷ 2 ∷ 3 ∷ []))
    × (run_posted plain echo first.1
        ≡ process plain echo (record first.1 { posted = 0 }) (7 ∷ 2 ∷ 3 ∷ []))
on_read-run_posted_example =
    on_read-run_posted plain echo session (1 ∷ 2 ∷ 3 ∷ []) (7 ∷ []) 6 refl refl
      (omega arith, (omega arith, (omega arith, tt))) (omega arith, tt)

process_all_recovers_example :
    (process_all plain [] (second_part ∷ first_part ∷ [])).0
    ≡ (returns false, second_part) ∷ (returns true, record large { token = [] }) ∷ []
unfolding find
process_all_recovers_example =
    process_all_recovers plain plain-IsLossless [] large (second_part ∷ []) first_part large_fits
      large_uneven refl swapped

abbrev listening : Client
listening = record {
  connected = true;
  token = 5 ∷ [];
  server_address = [];
  server_port = 9020;
  sub_packet_vectors = [];
  processor_callback = some echo;
  has_error_callback = false;
  sent = [];
  reported = [];
}

feed_delivers_example :
    (feed plain listening (second_part ∷ first_part ∷ [])).sent ≡ reply plain (true, large.payload)
unfolding find
feed_delivers_example =
    feed_delivers plain listening large echo (second_part ∷ []) first_part plain-IsLossless
      large_fits large_uneven refl refl swapped

-- A client that has taken one response of two parts.
abbrev served : Client
served = record listening { sub_packet_vectors = (large.guid, first_part ∷ second_part ∷ []) ∷ [] }

feed-Stale_example :
    ((feed plain served (first_part ∷ second_part ∷ [])).sent ≡ served.sent)
    × (vector (feed plain served (first_part ∷ second_part ∷ [])) large.guid
        ≡ vector served large.guid ++ first_part ∷ second_part ∷ [])
unfolding find
feed-Stale_example =
    feed-Stale plain served large.guid 2 (first_part ∷ second_part ∷ []) (omega arith)
      ((refl, omega arith), ((refl, omega arith), tt))

-- A client whose callback answers with what it was given, at an unseparated request.
run-Bounces_example :
    All
      (Bounces plain echo echo listening
        (request_packet listening (65 ∷ []) (1 ∷ 2 ∷ []))
        (request_texts plain (65 ∷ []) listening (1 ∷ 2 ∷ [])))
      (run initial (loads_tokens ∷ inits true ∷ accepts 0 (replicate 6 0) ∷ [])).sessions
unfolding find to_string
run-Bounces_example =
    run-Bounces plain echo echo (65 ∷ []) listening (1 ∷ 2 ∷ [])
      (loads_tokens ∷ inits true ∷ accepts 0 (replicate 6 0) ∷ []) plain-IsLossless (omega arith)
      (omega arith) refl refl
