-- ===== src/Transport/Examples.antt =====
-- Concrete runs of the transport, on a codec that writes an archive as numbers and does not encrypt.
mod Runs
mod Servers
use components_network.Prelude.{
  ℕ, zero, suc, ◌≡◌, refl, ap, Bytes, [], ◌∷◌, ◌++◌, length, take, drop, replicate,
}
use components_network.Transport.Codec.{
  TPacketType, invalid, to_client, to_server, error, TransportPacket, fresh, Archived, Codec,
  IsLossless, Outcome, returns, throws, archive_exception,
}

abbrev code_of_type : TPacketType → ℕ
code_of_type invalid = 0
code_of_type to_client = 1
code_of_type to_server = 2
code_of_type error = 3

abbrev type_of_code : ℕ → TPacketType
type_of_code zero = invalid
type_of_code (suc zero) = to_client
type_of_code (suc (suc zero)) = to_server
type_of_code (suc (suc (suc n))) = error

type_of_code-code_of_type : (t : TPacketType) → type_of_code (code_of_type t) ≡ t
type_of_code-code_of_type invalid = refl
type_of_code-code_of_type to_client = refl
type_of_code-code_of_type to_server = refl
type_of_code-code_of_type error = refl

-- An archive: the length of the guid, the guid, the type, the two numbers and the payload.
abbrev write_archive : Archived → Bytes
write_archive a =
    length a.guid
    ∷ (a.guid ++ code_of_type a.type ∷ a.sub_packet_no ∷ a.sub_packet_total_count ∷ a.payload)

abbrev read_tail : Bytes → Bytes → Archived → Archived × Outcome (Unit {0})
read_tail guid (t ∷ n ∷ total ∷ payload) b = (
  record {
    guid = guid;
    type = type_of_code t;
    sub_packet_no = n;
    sub_packet_total_count = total;
    payload = payload;
  },
  returns tt,
)
read_tail guid s b = (b, throws archive_exception)

abbrev read_archive : Bytes → Archived → Archived × Outcome (Unit {0})
read_archive [] b = (b, throws archive_exception)
read_archive (n ∷ s) b = read_tail (take n s) (drop n s) b

take-length : (s t : Bytes) → take (length s) (s ++ t) ≡ s
take-length [] t = refl
take-length (x ∷ s) t = ap (◌∷◌ x) (take-length s t)

drop-length : (s t : Bytes) → drop (length s) (s ++ t) ≡ t
drop-length [] t = refl
drop-length (x ∷ s) t = drop-length s t

read_archive-write_archive : (a b : Archived) → read_archive (write_archive a) b ≡ (a, returns tt)
read_archive-write_archive a b =
    rw (take-length a.guid, drop-length a.guid, type_of_code-code_of_type a.type)

abbrev pub plain : Codec
plain = record {
  encode_hex = λ s. s;
  decode_hex = λ s. returns s;
  aes256encrypt = λ s k. s;
  aes256decrypt = λ s k. returns s;
  text_oarchive = write_archive;
  text_iarchive = read_archive;
  encryption_key = [];
}

pub plain-IsLossless : IsLossless plain
plain-IsLossless = record {
  decode-encode = λ s. refl;
  decrypt-encrypt = λ s k. refl;
  iarchive-oarchive = read_archive-write_archive;
}

-- A packet that is printed in one piece, and one that is printed in two.
abbrev pub small : TransportPacket
small = record fresh { guid = 65 ∷ 66 ∷ []; token = 84 ∷ []; payload = 1 ∷ 2 ∷ 3 ∷ [] }

abbrev pub large : TransportPacket
large = record fresh { guid = 65 ∷ []; type = to_server; payload = replicate 8100 7 }
