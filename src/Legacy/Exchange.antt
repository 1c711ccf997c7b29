-- ===== src/Legacy/Exchange.antt =====
-- Legacy/exchangepacket.h and Legacy/packetprocessor: the packets that the Qt clients and servers
-- exchange, and the processors that answer them.
pub mod Dispatch
use components_network.Prelude.{
  ℕ, ◌≡◌, ◌==◌, number_key, Bytes, Bool, true, false, not, ◌&&◌, List, [], ◌∷◌, Option, none, some,
  is_some, ◌≤◌, ◌*◌, length, if◌then◌else◌,
}

-- `Exchange::Packet`. The type is an `int`, told by its bit pattern.
pub record Packet : Type 0 where
  pub type : ℕ
  pub command : Bytes
  pub content : Bytes  -- data
  pub is_valid : Bool

abbrev pub fresh : Packet
fresh = record { type = 0; command = []; content = []; is_valid = false }

-- `PACKET_TYPES`.
abbrev pub action_packet_type : ℕ
action_packet_type = 0

abbrev pub info_packet_type : ℕ
info_packet_type = 1

abbrev pub error_packet_type : ℕ
error_packet_type = 2

-- The members that `serialize` hands to an archive: the mark of validity is not one.
pub record Archived : Type 0 where
  pub type : ℕ
  pub command : Bytes
  pub content : Bytes

abbrev pub serialize : Packet → Archived
serialize p = record { type = p.type; command = p.command; content = p.content }

-- The hexadecimal text of Components/Encryption and the text archives of Boost; `none` is an
-- exception.
pub record Codec : Type 0 where
  pub encode_hex : Bytes → Bytes
  pub decode_hex : Bytes → Option Bytes
  pub text_oarchive : Archived → Option Bytes
  pub text_iarchive : Bytes → Option Archived

-- Each decoder undoes its encoder, writing does not throw, an archive has a header, and a byte has
-- two hexadecimal digits.
pub record IsLossless (c : Codec) : Type 0 where
  pub decode-encode : (s : Bytes) → c.decode_hex (c.encode_hex s) ≡ some s
  pub write : Archived → Bytes
  pub writes : (a : Archived) → c.text_oarchive a ≡ some (write a)
  pub read-write : (a : Archived) → c.text_iarchive (write a) ≡ some a
  pub has_header : (a : Archived) → 1 ≤ length (write a)
  pub length-encode : (s : Bytes) → length (c.encode_hex s) ≡ 2 * length s

abbrev pub encoded : Codec → Option Bytes → Bytes
encoded c none = []
encoded c (some text) = c.encode_hex text

-- `PacketConverter::convert(const Packet&)`.
unfoldable pub to_bytes : Codec → Packet → Bytes
to_bytes c p = if not p.is_valid then [] else encoded c (c.text_oarchive (serialize p))

-- The end of the `try` block, and its handler.
abbrev pub converted : Option Archived → Packet
converted none = fresh
converted (some a) = record {
  type = a.type;
  command = a.command;
  content = a.content;
  is_valid = true;
}

abbrev pub read_archive : Codec → Option Bytes → Packet
read_archive c none = fresh
read_archive c (some text) = converted (c.text_iarchive text)

-- `PacketConverter::convert(const QByteArray&)`.
unfoldable pub from_bytes : Codec → Bytes → Packet
from_bytes c input = read_archive c (c.decode_hex input)

-- The processors: what they make of a request and of the response before. That for errors keeps the
-- packets that it is called with. `none` is an empty `std::function`.
pub record Processors : Type 0 where
  pub info_processor : Option (Packet → Packet → Packet)
  pub action_processor : Option (Packet → Packet → Packet)
  pub error_processor : Bool

abbrev pub apply : Option (Packet → Packet → Packet) → Packet → Packet → Packet
apply none p response = response
apply (some f) p response = f p response

-- `process`: the response, and the packets that went to the processor of errors.
unfoldable pub process : Processors → Packet → Packet × List Packet
process ps p =
    if p.type == info_packet_type && is_some ps.info_processor
    then (apply ps.info_processor p fresh, [])
    else (if p.type == action_packet_type && is_some ps.action_processor
        then (apply ps.action_processor p fresh, [])
        else (if p.type == error_packet_type && ps.error_processor
            then (fresh, p ∷ [])
            else (fresh, [])))
