-- ===== src/Transport/Client/Responses.antt =====
-- Separated responses at the client: `processSubpacket` over a sequence of sub-packets.

use components_network.Prelude.{
  ℕ, ◌+◌, ◌%◌, ◌/◌, ◌^◌, ◌≤◌, ◌<◌, ◌≡◌, ◌≢◌, refl, ap, ◌∙◌, Bytes, bytes_key, ==_refl, Bool, true,
  false, List, [], ◌∷◌, ◌++◌, append_assoc, append-nil, Perm, none, some, arith, length,
  length-append, All,
}
use components_network.Prelude.Assoc.{find, insert, find-insert}
use components_network.Prelude.Perms.{All-append}
use components_network.Transport.Codec.{TransportPacket, Codec, IsLossless, Outcome, returns}
use components_network.Transport.Packet.{to_string, sub_packets, from_sub_packets}
use components_network.Transport.Packet.Reassembly.{from_sub_packets_recovers}
use components_network.Transport.Session.{ProcessCallback, queue_of, c_str}
use components_network.Transport.Packet.Tags.{Tagged, perm-Tagged, perm-length}
use components_network.Transport.Client.{
  Client, answer, call_processor, print_response, process_joined, process_sub_packet,
}

-- The state after sub-packets in their order.
unfoldable pub feed : Codec → Client → List TransportPacket → Client
feed c d [] = d
feed c d (p ∷ ps) = feed c (process_sub_packet c d p).1 ps

abbrev pub vector : Client → Bytes → List TransportPacket
vector d g = queue_of (find g d.sub_packet_vectors)

-- What the client writes back for what its callback makes of a payload.
abbrev pub reply : Codec → Bool × Bytes → List Bytes
reply c (true, output) = c_str (print_response c output) ∷ []
reply c (false, output) = []

-- A sub-packet that does not bring its vector to the count is stored, and nothing else changes.
process_sub_packet_stores :
    (c : Codec) (d : Client) (p : TransportPacket)
    → length (vector d p.guid) + 1 ≢ p.sub_packet_total_count
    → process_sub_packet c d p ≡ (
      returns tt,
      record d {
        sub_packet_vectors = insert p.guid (vector d p.guid ++ p ∷ []) d.sub_packet_vectors;
      },
    )
unfolding process_sub_packet
process_sub_packet_stores c d p h = ground (arith, length-append (vector d p.guid) (p ∷ []))

-- No packet of the list is the one that brings a vector of `n` packets to its count.
abbrev Stores : Bytes → ℕ → List TransportPacket → Type 0
Stores g n [] = Unit {0}
Stores g n (p ∷ ps) = (p.guid ≡ g) × (n + 1 ≢ p.sub_packet_total_count) × Stores g (n + 1) ps

feed-Stores :
    (c : Codec) (d : Client) (g : Bytes) (q ps : List TransportPacket)
    → vector d g ≡ q
    → Stores g (length q) ps
    → ((feed c d ps).sent ≡ d.sent)
      × ((feed c d ps).processor_callback ≡ d.processor_callback)
      × (vector (feed c d ps) g ≡ q ++ ps)
unfolding feed
feed-Stores c d g q [] e h = (refl, refl, rw append-nil e)
feed-Stores c d g q (p ∷ ps) e h =
    let e' : vector d p.guid ≡ q = rw h.0 e in
    let step = process_sub_packet_stores c d p (rw e' h.1) in
    let d' = record d {
      sub_packet_vectors = insert p.guid (vector d p.guid ++ p ∷ []) d.sub_packet_vectors;
    } in
    let held : vector d' g ≡ q ++ p ∷ [] = rw (find-insert, h.0, ==_refl g, e) in
    let rest = feed-Stores c d' g (q ++ p ∷ []) ps held (rw (length-append q (p ∷ [])) h.2) in
    let fed : feed c d (p ∷ ps) ≡ feed c d' ps =
      ap (λ (r : Outcome (Unit {0}) × Client). feed c r.1 ps) step in
    rw fed (rest.0, rest.1, rest.2 ∙ append_assoc q (p ∷ []) ps)

abbrev pub Stale : Bytes → ℕ → TransportPacket → Type 0
Stale g n x = (x.guid ≡ g) × (x.sub_packet_total_count ≤ n)

Stale-Stores :
    (g : Bytes) (n k : ℕ) (ps : List TransportPacket) → n ≤ k → All (Stale g n) ps → Stores g k ps
Stale-Stores g n k [] le h = tt
Stale-Stores g n k (p ∷ ps) le h =
    (h.0.0, omega (arith, h.0.1), Stale-Stores g n (k + 1) ps (omega arith) h.1)

-- The vector of a guid is never cleared: once it holds `n` sub-packets, no response of at most `n`
-- sub-packets under that guid reaches the callback, and nothing is written back.
pub feed-Stale :
    (c : Codec) (d : Client) (g : Bytes) (n : ℕ) (ps : List TransportPacket)
    → n ≤ length (vector d g)
    → All (Stale g n) ps
    → ((feed c d ps).sent ≡ d.sent) × (vector (feed c d ps) g ≡ vector d g ++ ps)
feed-Stale c d g n ps h t =
    let fed = feed-Stores c d g (vector d g) ps refl (Stale-Stores g n _ ps h t) in (fed.0, fed.2)

Tagged-Stores :
    (g : Bytes) (t k : ℕ) (ps : List TransportPacket)
    → k + length ps < t
    → All (Tagged g t) ps
    → Stores g k ps
Tagged-Stores g t k [] lt h = tt
Tagged-Stores g t k (p ∷ ps) lt h =
    (h.0.0, omega (arith, h.0.1), Tagged-Stores g t (k + 1) ps (omega arith) h.1)

process_sub_packet_completes :
    (c : Codec) (d : Client) (p : TransportPacket)
    → length (vector d p.guid) + 1 ≡ p.sub_packet_total_count
    → let r = from_sub_packets c (vector d p.guid ++ p ∷ []) p in
      process_sub_packet c d p
      ≡ process_joined c
          (record d { sub_packet_vectors = insert p.guid r.1 d.sub_packet_vectors })
          r.0
unfolding process_sub_packet
process_sub_packet_completes c d p h = ground (arith, length-append (vector d p.guid) (p ∷ []))

answer-sent :
    (c : Codec) (d : Client) (r : Bool × Bytes)
    → (answer (print_response c) d (returns r)).1.sent ≡ d.sent ++ reply c r
unfolding answer
answer-sent c d (true, output) = refl
answer-sent c d (false, output) = rw append-nil

feed-append :
    (c : Codec) (d : Client) (ps : List TransportPacket) (x : TransportPacket)
    → feed c d (ps ++ x ∷ []) ≡ (process_sub_packet c (feed c d ps) x).1
unfolding feed
feed-append c d [] x = refl
feed-append c d (p ∷ ps) x = feed-append c (process_sub_packet c d p).1 ps x

process_joined-returns :
    (c : Codec) (d : Client) (r : Outcome Bool × TransportPacket) (pc : ProcessCallback) (b : Bool)
    (p : TransportPacket)
    → r ≡ (returns b, p)
    → d.processor_callback ≡ some pc
    → (process_joined c d r).1.sent ≡ d.sent ++ reply c (pc p.payload [])
unfolding process_joined call_processor
process_joined-returns c d r pc b p e k =
    rw (e, process_joined) (simp k (answer-sent c d (pc p.payload [])))

-- With a lossless codec and a callback, the first separated response under a guid is delivered, in
-- whatever order its sub-packets come: what is written in all is the callback's reply to the
-- payload. (The printed length of the response is below 2^63 and no multiple of 8000.)
pub feed_delivers :
    (c : Codec) (d : Client) (p : TransportPacket) (pc : ProcessCallback)
    (ws : List TransportPacket) (x : TransportPacket)
    → IsLossless c
    → length (to_string c p) < 2 ^ 63
    → length (to_string c p) % 8000 ≢ 0
    → find p.guid d.sub_packet_vectors ≡ none
    → d.processor_callback ≡ some pc
    → Perm (ws ++ x ∷ []) (sub_packets c p)
    → (feed c d (ws ++ x ∷ [])).sent ≡ d.sent ++ reply c (pc p.payload [])
feed_delivers c d p pc ws x l h odd absent e perm =
    let size = length (to_string c p) in
    let tagged =
      All-append (Tagged p.guid (size / 8000 + 1)) ws (x ∷ []) (perm-Tagged c p h _ perm) in
    let fits : length ws + 1 ≡ size / 8000 + 1 =
      omega (arith, perm-length c p h _ perm, length-append ws (x ∷ [])) in
    let early =
      feed-Stores c d p.guid [] ws (rw absent)
        (Tagged-Stores p.guid (size / 8000 + 1) 0 ws (omega (arith, fits)) tagged.0) in
    let held : vector (feed c d ws) x.guid ≡ ws = rw tagged.1.0.0 early.2 in
    let last =
      process_sub_packet_completes c (feed c d ws) x
        (rw (held, tagged.1.0.1) (omega (arith, fits))) in
    let r = from_sub_packets c (ws ++ x ∷ []) x in
    let d' = record (feed c d ws) {
      sub_packet_vectors = insert x.guid r.1 (feed c d ws).sub_packet_vectors;
    } in
    let sent =
      process_joined-returns c d' r.0 pc true _
        (from_sub_packets_recovers c p h (ws ++ x ∷ []) x l odd perm) (early.1 ∙ e) in
    rw (feed-append c d ws x, last, held) (sent ∙ rw early.0)
