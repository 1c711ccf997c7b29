-- ===== src/Transport/Exchange/Bounce.antt =====
-- What Legacy/Transport/TransportClient makes of its own requests when they come back as responses.
use components_network.Prelude.{
  ℕ, ◌+◌, ◌/◌, ◌%◌, ◌^◌, ◌<◌, ◌≡◌, ◌≢◌, refl, bytes_key, ap, sym, subst, ◌∙◌, Bytes, Bool, true,
  false, List, [], ◌∷◌, ◌++◌, map, append-nil, Perm, Option, none, some, arith, length, All, inl,
  inr, Bool-cases, if◌then◌else◌,
}
use mathlib.Core.List.Perm
use components_network.Prelude.Assoc.{find}
use components_network.Transport.Codec.{TransportPacket, fresh, Codec, IsLossless, Outcome, returns}
use components_network.Transport.Packet.{to_string, sub_packets, to_sub_packets, must_be_separated}
use components_network.Transport.Packet.Reassembly.{from_string-to_string}
use components_network.Transport.Packet.Tags.{Tagged, perm-Tagged, perm-length}
use components_network.Transport.Session.{Session, ProcessCallback, c_str}
use components_network.Transport.Client.{
  Client, request_texts, receive, answer, call_processor, got_response, process_sub_packet,
}
use components_network.Transport.Client.Responses.{feed, feed_delivers, reply}
use components_network.Transport.Server.{Event, initial, run}
use components_network.Transport.Exchange.{process_each, run_rejects_requests}

-- The packet of a request.
abbrev pub request_packet : Client → Bytes → Bytes → TransportPacket
request_packet d guid request_data = record fresh {
  token = d.token;
  guid = guid;
  payload = request_data;
}

-- The client after responses that are each read on their own.
pub hear : Codec → Client → List Bytes → Client
hear c d [] = d
hear c d (t ∷ ts) = hear c (got_response c d t).1 ts

-- What the client writes for what its callback makes of an unseparated response.
abbrev pub raw_reply : Bool × Bytes → List Bytes
raw_reply (true, output) = c_str output ∷ []
raw_reply (false, output) = []

-- What a client with the callback `pc` writes when its own request comes back.
abbrev pub own_reply : Codec → ProcessCallback → TransportPacket → List Bytes
own_reply c pc reqp =
    if must_be_separated reqp then reply c (pc reqp.payload []) else raw_reply (pc reqp.payload [])

answer_raw :
    (d : Client) (r : Bool × Bytes)
    → (answer (λ output. output) d (returns r)).1.sent ≡ d.sent ++ raw_reply r
unfolding answer
answer_raw d (true, output) = refl
answer_raw d (false, output) = rw append-nil

module _ (c : Codec) (l : IsLossless c) where
  got_response-to_string :
      (d : Client) (p : TransportPacket)
      → got_response c d (to_string c p) ≡ receive c d (returns true, record p { token = [] })
  unfolding got_response
  got_response-to_string d p = ap (receive c d) (from_string-to_string c l p fresh)

  hear-map :
      (g : Bytes) (n : ℕ) (d : Client) (ps : List TransportPacket)
      → All (Tagged g (n + 1)) ps
      → hear c d (map (to_string c) ps) ≡ feed c d ps
  unfolding hear feed receive
  hear-map g n d [] h = refl
  hear-map g n d (p ∷ ps) h =
      let parsed : got_response c d (to_string c p) ≡ receive c d (returns true, p) =
        ground (arith, got_response-to_string d p, h.0.2) in
      let taken : receive c d (returns true, p) ≡ process_sub_packet c d p =
        ground (arith, h.0.1) in
      ap (λ (r : Outcome (Unit {0}) × Client). hear c r.1 (map (to_string c) ps)) (parsed ∙ taken)
      ∙ hear-map g n (process_sub_packet c d p).1 ps h.1

  hear-unseparated :
      (d : Client) (guid request_data : Bytes) (pc : ProcessCallback)
      → d.processor_callback ≡ some pc
      → (hear c d (to_string c (request_packet d guid request_data) ∷ [])).sent
        ≡ d.sent ++ raw_reply (pc request_data [])
  unfolding hear receive answer call_processor
  hear-unseparated d guid request_data pc e =
      ap (λ (r : Outcome (Unit {0}) × Client). r.1.sent)
        (got_response-to_string d (request_packet d guid request_data))
      ∙ ap
          (λ (o : Option ProcessCallback).
            (answer (λ output. output) d (call_processor o request_data)).1.sent)
          e
      ∙ answer_raw d (pc request_data [])

unsnoc {ℓ} : {A : Type ℓ} (x : A) (xs : List A) → (ws : List A) × (y : A) × (x ∷ xs ≡ ws ++ y ∷ [])
unsnoc x [] = ([], x, refl)
unsnoc x (y ∷ ys) = let (ws, z, e) = unsnoc y ys in (x ∷ ws, z, ap (◌∷◌ x) e)

nonempty-unsnoc {ℓ} :
    {A : Type ℓ} (xs : List A) → 0 < length xs → (ws : List A) × (y : A) × (xs ≡ ws ++ y ∷ [])
nonempty-unsnoc [] h = absurd (omega arith)
nonempty-unsnoc (x ∷ xs) h = unsnoc x xs

hear-sub_packets :
    (c : Codec) (d : Client) (p : TransportPacket) (pc : ProcessCallback)
    → IsLossless c
    → length (to_string c p) < 2 ^ 63
    → length (to_string c p) % 8000 ≢ 0
    → find p.guid d.sub_packet_vectors ≡ none
    → d.processor_callback ≡ some pc
    → (hear c d (to_sub_packets c p)).sent ≡ d.sent ++ reply c (pc p.payload [])
unfolding to_sub_packets
hear-sub_packets c d p pc l h odd absent e =
    let fed =
      hear-map c l p.guid (length (to_string c p) / 8000) d (sub_packets c p)
        (perm-Tagged c p h (sub_packets c p) (Perm.refl _)) in
    let (ws, x, split) =
      nonempty-unsnoc (sub_packets c p)
        (omega (arith, perm-length c p h (sub_packets c p) (Perm.refl _))) in
    let delivered =
      feed_delivers c d p pc ws x l h odd absent e
        (subst (λ xs. Perm xs (sub_packets c p)) split (Perm.refl _)) in
    rw fed
      (subst (λ xs. (feed c d xs).sent ≡ d.sent ++ reply c (pc p.payload [])) (sym split) delivered)

own_requests-sent :
    (c : Codec) (d : Client) (guid request_data : Bytes) (pc : ProcessCallback)
    → IsLossless c
    → length (to_string c (request_packet d guid request_data)) < 2 ^ 63
    → length (to_string c (request_packet d guid request_data)) % 8000 ≢ 0
    → find guid d.sub_packet_vectors ≡ none
    → d.processor_callback ≡ some pc
    → (hear c d (request_texts c guid d request_data)).sent
      ≡ d.sent ++ own_reply c pc (request_packet d guid request_data)
unfolding request_texts
own_requests-sent c d guid request_data pc l h odd absent e =
    let reqp = request_packet d guid request_data in
    elim (Bool-cases (must_be_separated reqp)) [
      | inl large ↦ rw large (hear-sub_packets c d reqp pc l h odd absent e)
      | inr small ↦ rw small (hear-unseparated c l d guid request_data pc e)
    ]

-- What a session of the server writes for texts that it processes one by one, and what the client,
-- reading each of those answers on its own, has written back in the end.
abbrev pub Bounces :
    Codec
    → ProcessCallback
    → ProcessCallback
    → Client
    → TransportPacket
    → List Bytes
    → Session
    → Type 0
Bounces c callback pc d reqp texts s =
    (answers : List Bytes) × ((process_each c callback s texts).sent ≡ s.sent ++ answers)
    × ((hear c d answers).sent ≡ d.sent ++ own_reply c pc reqp)

All-Bounces :
    (c : Codec) (callback pc : ProcessCallback) (d : Client) (reqp : TransportPacket)
    (texts : List Bytes) (ss : List Session)
    → (hear c d texts).sent ≡ d.sent ++ own_reply c pc reqp
    → All (λ s. process_each c callback s texts ≡ record s { sent = s.sent ++ texts }) ss
    → All (Bounces c callback pc d reqp texts) ss
All-Bounces c callback pc d reqp texts [] e h = tt
All-Bounces c callback pc d reqp texts (s ∷ ss) e h =
    ((texts, ap (λ (t : Session). t.sent) h.0, e), All-Bounces c callback pc d reqp texts ss e h.1)

-- With a lossless codec, and for a guid that the client has stored nothing for, a client takes its own
-- requests for responses: each session of a server, whatever was done to the server before, answers
-- the texts of a request, processed one by one, with texts which make a client with a callback,
-- reading each on its own, write its callback's reply to its own request data. The reply of the
-- callback is printed where the request was separated, and goes out raw where it was not. (The
-- printed length of the request is below 2^63 and no multiple of 8000.)
pub run-Bounces :
    (c : Codec) (callback pc : ProcessCallback) (guid : Bytes) (d : Client) (request_data : Bytes)
    (es : List Event)
    → IsLossless c
    → length (to_string c (request_packet d guid request_data)) < 2 ^ 63
    → length (to_string c (request_packet d guid request_data)) % 8000 ≢ 0
    → find guid d.sub_packet_vectors ≡ none
    → d.processor_callback ≡ some pc
    → All
        (Bounces c callback pc d
          (request_packet d guid request_data)
          (request_texts c guid d request_data))
        (run initial es).sessions
run-Bounces c callback pc guid d request_data es l h odd absent e =
    All-Bounces c callback pc d (request_packet d guid request_data)
      (request_texts c guid d request_data) (run initial es).sessions
      (own_requests-sent c d guid request_data pc l h odd absent e)
      (run_rejects_requests c callback guid d request_data es l)
