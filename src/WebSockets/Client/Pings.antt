-- ===== src/WebSockets/Client/Pings.antt =====
-- What becomes of the pings of src/WebSockets/client.cpp.
use native.Mathlib.Nat.{pow-suc}
use components_network.Prelude.{
  ℕ, zero, suc, ◌*◌, ◌/◌, ◌%◌, ◌^◌, ◌<◌, ◌≡◌, refl, Bytes, true, [], ◌∷◌, ◌++◌, none, some, arith,
  leb, number_key, ◌==◌, ==_refl, take, length, if◌then◌else◌,
}
use components_network.Prelude.Assoc.{find, erase, find-erase}
use components_network.WebSockets.Client.{
  Client, answered, settle, little_endian, on_pong, on_timeout,
}

-- The `k` lowest bytes of a number, the lowest first.
unfoldable pub bytes_of : ℕ → ℕ → Bytes
bytes_of zero n = []
bytes_of (suc k) n = n % 256 ∷ bytes_of k (n / 256)

little_endian-bytes_of : (k n : ℕ) → n < 256 ^ k → little_endian (bytes_of k n) ≡ n
unfolding bytes_of
little_endian-bytes_of zero n h = omega arith
little_endian-bytes_of (suc k) n h =
    let small : n < 256 ^ k * 256 = rw pow-suc at h in
    omega (arith, little_endian-bytes_of k (n / 256) (omega arith))

eight_bytes :
    (id : ℕ) (rest : Bytes)
    → (leb 8 (length (bytes_of 8 id ++ rest)) ≡ true)
      × (take 8 (bytes_of 8 id ++ rest) ≡ bytes_of 8 id)
unfolding bytes_of
eight_bytes id rest = (ground arith, refl)

on_pong-bytes_of :
    (d : Client) (id : ℕ) (rest : Bytes)
    → id < 2 ^ 64
    → on_pong d (bytes_of 8 id ++ rest) ≡ settle d id answered
unfolding on_pong
on_pong-bytes_of d id rest h =
    let (long, first) = eight_bytes id rest in
    rw (long, first, little_endian-bytes_of 8 id (omega arith))

-- A pong that begins with the eight bytes of the identifier of a pending ping settles the promise of
-- that ping with 1 and takes it out of the map, the others being left as they are; its timer finds
-- nothing after that.
pub on_pong-on_timeout :
    (d : Client) (id p : ℕ) (rest : Bytes)
    → id < 2 ^ 64
    → find id d.pending_pings ≡ some p
    → let d' = on_pong d (bytes_of 8 id ++ rest) in
      (d'.settled ≡ d.settled ++ (p, answered) ∷ [])
      × ((j : ℕ) → find j d'.pending_pings ≡ (if id == j then none else find j d.pending_pings))
      × (on_timeout d' id ≡ d')
unfolding on_timeout settle
on_pong-on_timeout d id p rest h e =
    let gone : find id (erase id d.pending_pings) ≡ none =
      rw (find-erase id id d.pending_pings, ==_refl id) in
    rw (on_pong-bytes_of d id rest h, e) (refl, λ j. find-erase id j d.pending_pings, rw gone)
