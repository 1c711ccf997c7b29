-- ===== src/Transport/Session/Collecting.antt =====
-- `processSubpacket` over a sequence of sub-packets.
use components_network.Prelude.{
  ℕ, ◌+◌, ◌%◌, ◌/◌, ◌^◌, ◌≤◌, ◌<◌, ◌≡◌, ◌≢◌, refl, ap, ◌∙◌, Bytes, bytes_key, ==_refl, Bool, true,
  false, List, [], ◌∷◌, ◌++◌, map, append_assoc, append-nil, Perm, none, arith, length,
  length-append, All,
}
use components_network.Prelude.Assoc.{find, insert, find-insert}
use components_network.Prelude.Perms.{All-append}
use components_network.Transport.Codec.{TransportPacket, Codec, IsLossless, Outcome, returns}
use components_network.Transport.Packet.{to_string, sub_packets, from_sub_packets}
use components_network.Transport.Packet.Tags.{Tagged, perm-Tagged, perm-length}
use components_network.Transport.Packet.Reassembly.{from_sub_packets_recovers}
use components_network.Transport.Session.{SubPacketsMap, queue_of, completed, process_sub_packet}

abbrev pub Result : Type 0
Result = Outcome Bool × TransportPacket

-- The calls for a list of packets, in their order: the results, and the map afterwards.
pub process_all : Codec → SubPacketsMap → List TransportPacket → List Result × SubPacketsMap
process_all c m [] = ([], m)
process_all c m (p ∷ ps) =
    let (r, m') = process_sub_packet c m p in let (rs, m'') = process_all c m' ps in (r ∷ rs, m'')

abbrev pub waits : TransportPacket → Result
waits p = (returns false, p)

process_sub_packet_early :
    (c : Codec) (m : SubPacketsMap) (p : TransportPacket)
    → length (queue_of (find p.guid m)) + 1 < p.sub_packet_total_count
    → process_sub_packet c m p ≡ (waits p, insert p.guid (queue_of (find p.guid m) ++ p ∷ []) m)
unfolding process_sub_packet
process_sub_packet_early c m p h = ground (arith, length-append (queue_of (find p.guid m)) (p ∷ []))

process_sub_packet_last :
    (c : Codec) (m : SubPacketsMap) (p : TransportPacket)
    → p.sub_packet_total_count ≤ length (queue_of (find p.guid m)) + 1
    → let r = from_sub_packets c (queue_of (find p.guid m) ++ p ∷ []) p in
      process_sub_packet c m p ≡ ((completed r.0.0, r.0.1), insert p.guid r.1 m)
unfolding process_sub_packet
process_sub_packet_last c m p h = ground (arith, length-append (queue_of (find p.guid m)) (p ∷ []))

-- As long as packets are missing, each call says so and the packets gather under their guid.
process_all_early :
    (c : Codec) (g : Bytes) (t : ℕ) (ps q : List TransportPacket) (m : SubPacketsMap)
    → All (Tagged g t) ps
    → queue_of (find g m) ≡ q
    → length q + length ps < t
    → ((process_all c m ps).0 ≡ map waits ps) × (queue_of (find g (process_all c m ps).1) ≡ q ++ ps)
unfolding process_all
process_all_early c g t [] q m h e lt = (refl, rw append-nil e)
process_all_early c g t (p ∷ ps) q m h e lt =
    let e' : queue_of (find p.guid m) ≡ q = rw h.0.0 e in
    let step = process_sub_packet_early c m p (rw e' (omega arith)) in
    let m' = insert p.guid (queue_of (find p.guid m) ++ p ∷ []) m in
    let held : queue_of (find g m') ≡ q ++ p ∷ [] = rw (find-insert, h.0.0, ==_refl g, e) in
    let rest =
      process_all_early c g t ps (q ++ p ∷ []) m' h.1 held
        (omega (arith, length-append q (p ∷ []))) in
    rw step (ap (◌∷◌ (waits p)) rest.0, rest.1 ∙ append_assoc q (p ∷ []) ps)

process_all-append :
    (c : Codec) (ps : List TransportPacket) (x : TransportPacket) (m : SubPacketsMap)
    → (process_all c m (ps ++ x ∷ [])).0
      ≡ (process_all c m ps).0 ++ (process_sub_packet c (process_all c m ps).1 x).0 ∷ []
unfolding process_all
process_all-append c [] x m = refl
process_all-append c (p ∷ ps) x m =
    let r = process_sub_packet c m p in ap (◌∷◌ r.0) (process_all-append c ps x r.1)

module _ (c : Codec) (l : IsLossless c) (m : SubPacketsMap) (p : TransportPacket) where
  -- With a lossless codec the sub-packets of a packet may arrive in any order: every call but the
  -- last says that more are missing, and the last one gives the packet, its token apart. (Its guid
  -- is not in the map before, and its printed length is below 2^63 and no multiple of 8000.)
  pub process_all_recovers :
      (ws : List TransportPacket) (x : TransportPacket)
      → length (to_string c p) < 2 ^ 63
      → length (to_string c p) % 8000 ≢ 0
      → find p.guid m ≡ none
      → Perm (ws ++ x ∷ []) (sub_packets c p)
      → (process_all c m (ws ++ x ∷ [])).0
        ≡ map waits ws ++ (returns true, record p { token = [] }) ∷ []
  process_all_recovers ws x h odd absent perm =
      let size = length (to_string c p) in
      let tagged =
        All-append (Tagged p.guid (size / 8000 + 1)) ws (x ∷ []) (perm-Tagged c p h _ perm) in
      let fits : length ws + 1 ≡ size / 8000 + 1 =
        omega (arith, perm-length c p h _ perm, length-append ws (x ∷ [])) in
      let early =
        process_all_early c p.guid (size / 8000 + 1) ws [] m tagged.0 (rw absent)
          (omega (arith, fits)) in
      let m' = (process_all c m ws).1 in
      let held : queue_of (find x.guid m') ≡ ws = rw tagged.1.0.0 early.1 in
      let last = process_sub_packet_last c m' x (rw (held, tagged.1.0.1) (omega (arith, fits))) in
      process_all-append c ws x m
      ∙ rw (early.0, last, held)
          (ap (λ (r : Outcome Bool × TransportPacket). map waits ws ++ (completed r.0, r.1) ∷ [])
              (from_sub_packets_recovers c p h (ws ++ x ∷ []) x l odd perm)
            ∙ rw tagged.1.0.2)
