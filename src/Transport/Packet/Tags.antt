-- ===== src/Transport/Packet/Tags.antt =====
-- What the receivers read of a sub-packet before they have all: its guid, its count, its token.
use mathlib.Core.List.Perm
use components_network.Prelude.{
  ℕ, ◌+◌, ◌/◌, ◌^◌, ◌<◌, ◌≡◌, Bytes, List, [], ◌∷◌, Perm, arith, length, All,
}
use components_network.Prelude.Perms.{length-perm, All-perm}
use components_network.Transport.Codec.{TransportPacket, Codec}
use components_network.Transport.Packet.{to_string, sub_packets}
use components_network.Transport.Packet.Pieces.{IsPiece, sub_packets-IsPiece, length-sub_packets}

abbrev pub Tagged : Bytes → ℕ → TransportPacket → Type 0
Tagged g t x = (x.guid ≡ g) × (x.sub_packet_total_count ≡ t) × (x.token ≡ [])

Tagged-prop : (g : Bytes) (t : ℕ) (x : TransportPacket) → IsProp (Tagged g t x)
Tagged-prop g t x = hlevel

IsPiece-Tagged :
    (p : TransportPacket) (size : ℕ) (xs : List TransportPacket)
    → All (IsPiece p size) xs
    → All (Tagged p.guid (size / 8000 + 1)) xs
IsPiece-Tagged p size [] h = tt
IsPiece-Tagged p size (x ∷ xs) h =
    ((h.0.same_guid, h.0.count, h.0.no_token), IsPiece-Tagged p size xs h.1)

module _ (c : Codec) (p : TransportPacket) (h : length (to_string c p) < 2 ^ 63)
    (vect : List TransportPacket) (perm : Perm vect (sub_packets c p)) where
  pub perm-Tagged : All (Tagged p.guid (length (to_string c p) / 8000 + 1)) vect
  perm-Tagged =
      All-perm _ (Tagged-prop p.guid (length (to_string c p) / 8000 + 1)) (sub_packets c p) vect
        (Perm.symm perm) (IsPiece-Tagged p (length (to_string c p)) _ (sub_packets-IsPiece c p h))

  pub perm-length : length vect ≡ length (to_string c p) / 8000 + 1
  perm-length = omega (arith, length-perm vect (sub_packets c p) perm, length-sub_packets c p)
