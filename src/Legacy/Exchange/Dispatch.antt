-- ===== src/Legacy/Exchange/Dispatch.antt =====
-- Packets on the wire, and who answers them.
use components_network.Prelude.{◌≡◌, ◌≤◌, length, refl, number_key, true, arith}
use components_network.Legacy.Exchange.{Packet, Codec, IsLossless, to_bytes, from_bytes, serialize}

-- With a lossless codec, a valid packet is read back as it was written.
pub from_bytes-to_bytes :
    (c : Codec) (p : Packet) → IsLossless c → p.is_valid ≡ true → from_bytes c (to_bytes c p) ≡ p
unfolding from_bytes to_bytes
from_bytes-to_bytes c p l v = rw (v, l.writes, l.decode-encode, l.read-write) refl

-- It takes at least two bytes.
pub length-to_bytes :
    (c : Codec) (p : Packet) → IsLossless c → p.is_valid ≡ true → 2 ≤ length (to_bytes c p)
unfolding to_bytes
length-to_bytes c p l v =
    rw (v, l.writes, l.length-encode) (grind (arith, l.has_header (serialize p)))
