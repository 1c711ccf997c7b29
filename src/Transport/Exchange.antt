-- ===== src/Transport/Exchange.antt =====
-- Client and server of the transport together: what becomes of a request.
pub mod Bounce
use components_network.Prelude.{
  ◌≡◌, refl, Bytes, false, List, [], ◌∷◌, ◌++◌, ◌∙◌, map, append_assoc, append-nil, All, inl, inr,
  Bool-cases,
}
use components_network.Transport.Codec.{TransportPacket, fresh, Codec, IsLossless, returns}
use components_network.Transport.Packet.{to_string, sub_packets, to_sub_packets, must_be_separated}
use components_network.Transport.Session.{Session, ProcessCallback, contains, process}
use components_network.Transport.Session.Tokens.{process-to_string_rejected}
use components_network.Transport.Client.{Client, request_texts}
use components_network.Transport.Server.{Event, initial, run, run-IsGuarded, initial-IsGuarded}

abbrev Printed : Codec → Bytes → Type 0
Printed c text = (p : TransportPacket) × (text ≡ to_string c p)

map-Printed : (c : Codec) (ps : List TransportPacket) → All (Printed c) (map (to_string c) ps)
map-Printed c [] = tt
map-Printed c (p ∷ ps) = ((p, refl), map-Printed c ps)

request_texts-Printed :
    (c : Codec) (guid : Bytes) (d : Client) (request_data : Bytes)
    → All (Printed c) (request_texts c guid d request_data)
unfolding request_texts to_sub_packets
request_texts-Printed c guid d request_data =
    let reqp = record fresh { token = d.token; guid = guid; payload = request_data } in
    elim (Bool-cases (must_be_separated reqp)) [
      | inl e ↦ rw e (map-Printed c (sub_packets c reqp))
      | inr e ↦ rw e ((reqp, refl), tt)
    ]

-- The jobs for a sequence of texts, run in their order.
pub process_each : Codec → ProcessCallback → Session → List Bytes → Session
process_each c callback s [] = s
process_each c callback s (t ∷ ts) = process_each c callback (process c callback s t).1 ts

process_each-Printed :
    (c : Codec) (callback : ProcessCallback) (s : Session) (ts : List Bytes)
    → IsLossless c
    → contains s.token_list [] ≡ false
    → All (Printed c) ts
    → process_each c callback s ts ≡ record s { sent = s.sent ++ ts }
unfolding process_each
process_each-Printed c callback s [] l h ps = rw append-nil
process_each-Printed c callback s (t ∷ ts) l h ps =
    let echoed : process c callback s t ≡ (returns tt, record s { sent = s.sent ++ t ∷ [] }) =
      rw ps.0.1 (process-to_string_rejected c callback s ps.0.0 l h) in
    rw echoed (
      process_each-Printed c callback (record s { sent = s.sent ++ t ∷ [] }) ts l h ps.1
      ∙ rw (append_assoc s.sent (t ∷ []) ts))

All-reject :
    (c : Codec) (callback : ProcessCallback) (ts : List Bytes) (tokens : List Bytes)
    (ss : List Session)
    → IsLossless c
    → contains tokens [] ≡ false
    → All (Printed c) ts
    → All (λ s. s.token_list ≡ tokens) ss
    → All (λ s. process_each c callback s ts ≡ record s { sent = s.sent ++ ts }) ss
All-reject c callback ts tokens [] l h ps e = tt
All-reject c callback ts tokens (s ∷ ss) l h ps e = (
  process_each-Printed c callback s ts l (rw e.0 h) ps,
  All-reject c callback ts tokens ss l h ps e.1,
)

-- With a lossless codec, no session of a server, whatever was done to the server before, serves a
-- request of the transport's own client: when the texts of the request are processed one by one, each
-- is sent back as it came, and nothing else of the session changes.
pub run_rejects_requests :
    (c : Codec) (callback : ProcessCallback) (guid : Bytes) (d : Client) (request_data : Bytes)
    (es : List Event)
    → IsLossless c
    → All
        (λ s.
          process_each c callback s (request_texts c guid d request_data)
          ≡ record s { sent = s.sent ++ request_texts c guid d request_data })
        (run initial es).sessions
run_rejects_requests c callback guid d request_data es l =
    let g = run-IsGuarded initial es initial-IsGuarded in
    All-reject c callback (request_texts c guid d request_data) (run initial es).token_list
      (run initial es).sessions l g.no_empty_token (request_texts-Printed c guid d request_data)
      g.shared
