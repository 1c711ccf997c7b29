-- ===== src/Legacy/UdpClient.antt =====
-- Legacy/udpclientinstance: a UDP client of Qt.
use components_network.Prelude.{
  ℕ, ◌≡◌, number_key, ◌==◌, Bytes, String, Bool, true, false, List, [], ◌∷◌, ◌++◌, length,
  if◌then◌else◌, arith,
}
use components_network.Legacy.Exchange.{Packet, Codec, IsLossless, to_bytes}
use components_network.Legacy.Exchange.Dispatch.{length-to_bytes}

-- `Impl`, and the datagrams that went out, with their destination.
pub record Client : Type 0 where
  pub error_text : String
  pub host_address : ℕ
  pub port : ℕ
  pub sent : List (ℕ × ℕ × Bytes)

-- The constructor, for the address of the local host.
abbrev pub new : ℕ → Client
new local_host = record { error_text = ""; host_address = local_host; port = 0; sent = [] }

-- `setup`.
unfoldable pub setup : ℕ → ℕ → Client → Client
setup host_address port d = record d { host_address = host_address; port = port }

-- What `writeDatagram` does: it fails, with -1, or the datagram goes out, and it gives its length.
-- Only 0 is false as a condition.
abbrev pub write_datagram : Bool → Bytes → Client → Client × Bool
write_datagram fails text d = if fails then (d, true) else (
  record d { sent = d.sent ++ (d.host_address, d.port, text) ∷ [] },
  (if length text == 0 then false else true),
)

-- `sendMessage`.
unfoldable pub send_message : Bool → Bytes → Client → Client × Bool
send_message fails text d =
    let (d1, wrote) = write_datagram fails text d in
    if wrote then (d1, true) else (record d1 { error_text = "Write error" }, false)

-- `sendPacket`.
unfoldable pub send_packet : Codec → Bool → Packet → Client → Client × Bool
unfolding send_message
send_packet c fails p d = send_message fails (to_bytes c p) d

-- With a lossless codec, a packet that is marked as valid is reported as sent whether its datagram
-- goes out or not.
pub send_packet_valid :
    (c : Codec) (fails : Bool) (p : Packet) (d : Client)
    → IsLossless c
    → p.is_valid ≡ true
    → (send_packet c fails p d).1 ≡ true
unfolding send_packet
send_packet_valid c fails p d l v = ground (arith, length-to_bytes c p l v)

-- A packet that is not marked as valid is reported as an error if its datagram, which is empty, goes
-- out, and as sent if it does not.
pub send_packet_invalid :
    (c : Codec) (fails : Bool) (p : Packet) (d : Client)
    → p.is_valid ≡ false
    → (send_packet c fails p d).1 ≡ fails
unfolding send_packet to_bytes
send_packet_invalid c fails p d v = ground arith
