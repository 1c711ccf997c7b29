-- ===== src/Transport/Packet/Reassembly.antt =====
-- `toSubpackets` against `fromSubpackets`, and `toString` against `fromString`.
use components_network.Prelude.{◌%◌, ◌^◌, ◌<◌, ◌≡◌, ◌≢◌, true, List, Perm, length, take, take_all}
use components_network.Prelude.Sort.{sort, sort-perm_Rises}
use components_network.Transport.Codec.{TransportPacket, Codec, IsLossless, returns}
use components_network.Transport.Packet.{
  to_string, from_string, sub_packets, from_sub_packets, number,
}
use components_network.Transport.Packet.Pieces.{
  kept, kept_all, joined-sub_packets, sub_packets-Rises,
}

TransportPacket-set : IsSet TransportPacket
TransportPacket-set = hlevel

module _ (c : Codec) (l : IsLossless c) where
  -- With a lossless codec, parsing a printed packet succeeds and gives every member but the token,
  -- which stays what the receiving packet had.
  pub from_string-to_string :
      (p q : TransportPacket)
      → from_string c (to_string c p) q ≡ (returns true, record p { token = q.token })
  unfolding from_string to_string
  from_string-to_string p q = rw (l.decode-encode, l.decrypt-encrypt, l.iarchive-oarchive)

module _ (c : Codec) (p : TransportPacket) (h : length (to_string c p) < 2 ^ 63) where
  -- In whatever order the sub-packets arrive, sorting restores the order of the pieces.
  pub sort-sub_packets :
      (vect : List TransportPacket)
      → Perm vect (sub_packets c p)
      → sort number vect ≡ sub_packets c p
  sort-sub_packets vect m =
      sort-perm_Rises number TransportPacket-set 0 (sub_packets c p) vect (sub_packets-Rises c p) m

  -- For any rearrangement of the sub-packets of a packet whose printed length is below 2^63,
  -- `fromSubpackets` parses the printed text less its last 8000 characters where its length is a
  -- multiple of 8000, else the whole text, and leaves the sub-packets in their order.
  pub from_sub_packets-sub_packets :
      (vect : List TransportPacket) (q : TransportPacket)
      → Perm vect (sub_packets c p)
      → from_sub_packets c vect q
        ≡ (from_string c (take (kept (length (to_string c p))) (to_string c p)) q, sub_packets c p)
  unfolding from_sub_packets
  from_sub_packets-sub_packets vect q m = rw (sort-sub_packets vect m, joined-sub_packets c p h)

  -- With a lossless codec, a packet whose printed length is below 2^63 and no multiple of 8000
  -- survives being cut, shuffled and put together: every member but the token is recovered.
  pub from_sub_packets_recovers :
      (vect : List TransportPacket) (q : TransportPacket)
      → IsLossless c
      → length (to_string c p) % 8000 ≢ 0
      → Perm vect (sub_packets c p)
      → (from_sub_packets c vect q).0 ≡ (returns true, record p { token = q.token })
  from_sub_packets_recovers vect q l odd m =
      rw
        (
          from_sub_packets-sub_packets vect q m,
          take_all (kept (length (to_string c p))) (to_string c p) (kept_all _ odd),
        )
        (from_string-to_string c l p q)
