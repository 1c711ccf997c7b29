-- ===== src/Transport/Packet.antt =====
-- Legacy/Transport/TransportPacket: printing and parsing a packet, cutting it into sub-packets and
-- putting those together again.
pub mod Pieces
pub mod Reassembly
pub mod Tags
use components_network.Prelude.{
  ℕ, zero, suc, ◌+◌, ◌*◌, ◌/◌, ◌%◌, Bytes, Bool, true, false, List, [], ◌∷◌, ◌++◌, map, ltb, u64,
  length, take, drop, if◌then◌else◌,
}
use components_network.Prelude.Sort.{sort}
use components_network.Transport.Codec.{
  TransportPacket, fresh, Codec, Outcome, returns, throws, Thrown, archive_exception, non_hex_input,
  other_exception, Archived, serialize, deserialize,
}

abbrev pub max_packet_size_b : ℕ
max_packet_size_b = 8000

unfoldable pub must_be_separated : TransportPacket → Bool
must_be_separated p = ltb max_packet_size_b (length p.payload)

unfoldable pub to_string : Codec → TransportPacket → Bytes
to_string c p = c.encode_hex (c.aes256encrypt (c.text_oarchive (serialize p)) c.encryption_key)

-- The two `catch` clauses of `fromString`; any other exception goes on to the caller.
abbrev pub caught : Thrown → Outcome Bool
caught archive_exception = returns false
caught non_hex_input = returns false
caught other_exception = throws other_exception

-- The end of the `try` block: what the input archive did to the members stays, also if it threw.
unfoldable pub finish_read :
    TransportPacket → Archived × Outcome (Unit {0}) → Outcome Bool × TransportPacket
finish_read p (a, returns u) = (returns true, deserialize a p)
finish_read p (a, throws e) = (caught e, deserialize a p)

unfoldable pub read_decrypted :
    Codec → TransportPacket → Outcome Bytes → Outcome Bool × TransportPacket
unfolding finish_read
read_decrypted c p (returns text) = finish_read p (c.text_iarchive text (serialize p))
read_decrypted c p (throws e) = (caught e, p)

unfoldable pub read_decoded :
    Codec → TransportPacket → Outcome Bytes → Outcome Bool × TransportPacket
unfolding read_decrypted
read_decoded c p (returns raw) = read_decrypted c p (c.aes256decrypt raw c.encryption_key)
read_decoded c p (throws e) = (caught e, p)

-- `p.fromString(input)`: the result, and the packet afterwards.
unfoldable pub from_string : Codec → Bytes → TransportPacket → Outcome Bool × TransportPacket
unfolding read_decoded
from_string c input p = read_decoded c p (c.decode_hex input)

-- `currentPacketSize` in round `i` for a text of `size` characters.
unfoldable pub piece_size : ℕ → ℕ → ℕ
piece_size i size =
    if ltb (u64 (u64 (i * max_packet_size_b) + max_packet_size_b)) size
    then max_packet_size_b
    else size % max_packet_size_b

-- The loop of `toSubpackets`, with `n` rounds left from `i` on and `rest` for the text from
-- `currentItPos` on. `i` stays below a count that fits 64 bits.
unfoldable pub cut : TransportPacket → ℕ → ℕ → ℕ → Bytes → List TransportPacket
cut sub size zero i rest = []
cut sub size (suc n) i rest =
    record sub { sub_packet_no = i; payload = take (piece_size i size) rest }
    ∷ cut sub size n (suc i) (drop (piece_size i size) rest)

abbrev pub piece_count : ℕ → ℕ
piece_count size = u64 (size / max_packet_size_b + 1)

-- `subPacket` before the loop, for a text of `size` characters.
abbrev pub sub_packet : TransportPacket → ℕ → TransportPacket
sub_packet p size = record fresh {
  guid = p.guid;
  type = p.type;
  sub_packet_total_count = piece_count size;
}

-- The packets of which `toSubpackets` pushes the printed form.
unfoldable pub sub_packets : Codec → TransportPacket → List TransportPacket
unfolding cut to_string
sub_packets c p =
    let text = to_string c p in
    cut (sub_packet p (length text)) (length text) (piece_count (length text)) 0 text

unfoldable pub to_sub_packets : Codec → TransportPacket → List Bytes
unfolding sub_packets
to_sub_packets c p = map (to_string c) (sub_packets c p)

abbrev pub number : TransportPacket → ℕ
number p = p.sub_packet_no

abbrev pub joined : List TransportPacket → Bytes
joined [] = []
joined (p ∷ ps) = p.payload ++ joined ps

-- `p.fromSubpackets(vect)`: the result, the packet afterwards, and the vector, which is sorted in
-- place.
unfoldable pub from_sub_packets :
    Codec
    → List TransportPacket
    → TransportPacket
    → (Outcome Bool × TransportPacket) × List TransportPacket
from_sub_packets c vect p =
    let sorted = sort number vect in (from_string c (joined sorted) p, sorted)
