-- ===== src/Transport/Packet/Pieces.antt =====
-- The pieces that `toSubpackets` cuts.
use components_network.Prelude.{
  ℕ, zero, suc, ◌+◌, ◌-◌, ◌*◌, ◌/◌, ◌%◌, ◌^◌, ◌≤◌, ◌<◌, min, ◌≡◌, ◌≢◌, refl, ap, Bytes, [], ◌++◌,
  append_assoc, arith, nat_beq, length, take, drop, if◌then◌else◌, length-drop, length-take,
  take-add, drop-drop, append-nil, All,
}
use components_network.Prelude.Sort.{Rises}
use components_network.Transport.Codec.{TransportPacket, Codec}
use components_network.Transport.Packet.{
  to_string, piece_size, cut, piece_count, sub_packet, sub_packets, number, joined,
}

-- How much of a text of `size` characters the pieces hold.
abbrev pub kept : ℕ → ℕ
kept size = if nat_beq (size % 8000) 0 then size - 8000 else size

pub kept_all : (size : ℕ) → size % 8000 ≢ 0 → size ≤ kept size
kept_all size h = ground arith

-- Where the text of round `i` begins.
abbrev pub offset : ℕ → ℕ → ℕ
offset i size = min (8000 * i) (kept size)

offset-le : (i size : ℕ) → offset i size ≤ size
offset-le i size = ground arith

offset-suc :
    (i size : ℕ)
    → size < 2 ^ 63
    → i ≤ size / 8000
    → offset i size + piece_size i size ≡ offset (suc i) size
unfolding piece_size
offset-suc i size h k = ground arith

last_offset : (size i pos : ℕ) → i ≡ size / 8000 + 1 → pos ≡ offset i size → pos ≡ kept size
last_offset size i pos e o = ground arith

joined-cut :
    (sub : TransportPacket) (s : Bytes) (n i pos : ℕ)
    → length s < 2 ^ 63
    → i + n ≡ length s / 8000 + 1
    → pos ≡ offset i (length s)
    → take pos s ++ joined (cut sub (length s) n i (drop pos s)) ≡ take (kept (length s)) s
unfolding cut
joined-cut sub s zero i pos h e o =
    rw append-nil (ap (λ (k : ℕ). take k s) (last_offset (length s) i pos (omega arith) o))
joined-cut sub s (suc n) i pos h e o =
    let k = piece_size i (length s) in
    rw (← append_assoc, take-add, drop-drop)
      (joined-cut sub s n (suc i) (pos + k) h (omega arith)
        (omega (arith, offset-suc i (length s) h (omega arith))))

-- The pieces of a packet whose printed length is below 2^63 are together a prefix of the printed
-- packet: all of it, or all but the last 8000 characters where its length is a multiple of 8000.
pub joined-sub_packets :
    (c : Codec) (p : TransportPacket)
    → length (to_string c p) < 2 ^ 63
    → joined (sub_packets c p) ≡ take (kept (length (to_string c p))) (to_string c p)
unfolding sub_packets
joined-sub_packets c p h =
    joined-cut (sub_packet p (length (to_string c p))) (to_string c p)
      (piece_count (length (to_string c p))) 0 0 h (omega arith) (ground arith)

cut-Rises :
    (sub : TransportPacket) (size n i : ℕ) (rest : Bytes) → Rises number i (cut sub size n i rest)
unfolding cut
cut-Rises sub size zero i rest = tt
cut-Rises sub size (suc n) i rest = (omega arith, cut-Rises sub size n (suc i) _)

pub sub_packets-Rises : (c : Codec) (p : TransportPacket) → Rises number 0 (sub_packets c p)
unfolding sub_packets
sub_packets-Rises c p = cut-Rises (sub_packet p (length (to_string c p))) _ _ 0 _

-- What a sub-packet of a text of `size` characters looks like: its piece has the full length that
-- the loop computed, so the slice ended inside the text.
pub record IsPiece (p : TransportPacket) (size : ℕ) (x : TransportPacket) : Type 0 where
  pub same_guid : x.guid ≡ p.guid
  pub same_type : x.type ≡ p.type
  pub no_token : x.token ≡ []
  pub in_count : x.sub_packet_no < x.sub_packet_total_count
  pub count : x.sub_packet_total_count ≡ size / 8000 + 1
  pub whole : length x.payload ≡ piece_size x.sub_packet_no size
  pub small : length x.payload ≤ 8000

piece_size-le : (i size : ℕ) → piece_size i size ≤ 8000
unfolding piece_size
piece_size-le i size = ground arith

cut-IsPiece :
    (p : TransportPacket) (s : Bytes) (n i pos : ℕ)
    → length s < 2 ^ 63
    → i + n ≡ length s / 8000 + 1
    → pos ≡ offset i (length s)
    → All (IsPiece p (length s)) (cut (sub_packet p (length s)) (length s) n i (drop pos s))
unfolding cut
cut-IsPiece p s zero i pos h e o = tt
cut-IsPiece p s (suc n) i pos h e o =
    let step = offset-suc i (length s) h (omega arith) in
    let whole : length (take (piece_size i (length s)) (drop pos s)) ≡ piece_size i (length s) =
      omega (
        arith,
        step,
        offset-le (suc i) (length s),
        length-take (piece_size i (length s)) (drop pos s),
        length-drop pos s,
      ) in
    (
      record {
        same_guid = refl;
        same_type = refl;
        no_token = refl;
        in_count = omega arith;
        count = omega arith;
        whole = whole;
        small = omega (arith, whole, piece_size-le i (length s));
      },
      rw drop-drop (
          cut-IsPiece p s n (suc i) (pos + piece_size i (length s)) h (omega arith)
            (omega (arith, step))),
    )

-- Every slice that `toSubpackets` takes of a printed length below 2^63 lies inside the text and holds
-- at most 8000 characters, and its sub-packet carries the guid and the type of the packet, no token,
-- and a number below the count.
pub sub_packets-IsPiece :
    (c : Codec) (p : TransportPacket)
    → length (to_string c p) < 2 ^ 63
    → All (IsPiece p (length (to_string c p))) (sub_packets c p)
unfolding sub_packets
sub_packets-IsPiece c p h =
    cut-IsPiece p (to_string c p) (piece_count (length (to_string c p))) 0 0 h (omega arith)
      (ground arith)

length-cut :
    (sub : TransportPacket) (size n i : ℕ) (rest : Bytes) → length (cut sub size n i rest) ≡ n
unfolding cut
length-cut sub size zero i rest = refl
length-cut sub size (suc n) i rest = ap suc (length-cut sub size n (suc i) _)

pub length-sub_packets :
    (c : Codec) (p : TransportPacket)
    → length (sub_packets c p) ≡ piece_count (length (to_string c p))
unfolding sub_packets
length-sub_packets c p = length-cut (sub_packet p (length (to_string c p))) _ _ 0 _
