-- ===== src/Transport/Codec.antt =====
-- What Legacy/Transport/TransportPacket/transportpacket.cpp takes from Components/Encryption and
-- from Boost: hexadecimal text, AES-256 and the text archive. None of it is in this repository.
use components_network.Prelude.{ℕ, ◌≡◌, [], Bytes}

pub data TPacketType : Type 0 where
  invalid to_client to_server error : TPacketType

-- `struct TransportPacket`, with the default member values in `fresh`.
pub record TransportPacket : Type 0 where
  pub token : Bytes
  pub guid : Bytes
  pub type : TPacketType
  pub sub_packet_no : ℕ  -- uint64_t
  pub sub_packet_total_count : ℕ  -- uint64_t
  pub payload : Bytes

-- A default-constructed packet.
abbrev pub fresh : TransportPacket
fresh = record {
  token = [];
  guid = [];
  type = invalid;
  sub_packet_no = 0;
  sub_packet_total_count = 0;
  payload = [];
}

-- What a call that may throw does. The handlers of the program tell these exceptions apart.
pub data Thrown : Type 0 where
  archive_exception non_hex_input other_exception : Thrown

pub data Outcome {ℓ} (A : Type ℓ) : Type ℓ where
  returns : A → Outcome A
  throws : Thrown → Outcome A

-- The five members that `serialize` hands to an archive, in its order. The token is not one.
pub record Archived : Type 0 where
  pub guid : Bytes
  pub type : TPacketType
  pub sub_packet_no : ℕ
  pub sub_packet_total_count : ℕ
  pub payload : Bytes

-- `serialize` reads the members of the packet on the way out, and assigns them on the way in.
abbrev pub serialize : TransportPacket → Archived
serialize p = record {
  guid = p.guid;
  type = p.type;
  sub_packet_no = p.sub_packet_no;
  sub_packet_total_count = p.sub_packet_total_count;
  payload = p.payload;
}

abbrev pub deserialize : Archived → TransportPacket → TransportPacket
deserialize a p = record {
  token = p.token;
  guid = a.guid;
  type = a.type;
  sub_packet_no = a.sub_packet_no;
  sub_packet_total_count = a.sub_packet_total_count;
  payload = a.payload;
}

-- The external operations. An input archive that throws may have assigned some members before.
pub record Codec : Type 0 where
  pub encode_hex : Bytes → Bytes
  pub decode_hex : Bytes → Outcome Bytes
  pub aes256encrypt : Bytes → Bytes → Bytes
  pub aes256decrypt : Bytes → Bytes → Outcome Bytes
  pub text_oarchive : Archived → Bytes
  pub text_iarchive : Bytes → Archived → Archived × Outcome (Unit {0})
  -- The string that `getEncryptionKey` refers to.
  pub encryption_key : Bytes

-- Each decoder undoes its encoder.
pub record IsLossless (c : Codec) : Type 0 where
  pub decode-encode : (s : Bytes) → c.decode_hex (c.encode_hex s) ≡ returns s
  pub decrypt-encrypt : (s k : Bytes) → c.aes256decrypt (c.aes256encrypt s k) k ≡ returns s
  pub iarchive-oarchive : (a b : Archived) → c.text_iarchive (c.text_oarchive a) b ≡ (a, returns tt)
