-- ===== src/Udp/Exchange.antt =====
-- Datagrams from src/UDP/client.cpp to src/UDP/server.cpp.
use components_network.Prelude.{
  ◌≡◌, ◌≢◌, refl, ap, ◌∙◌, Bytes, true, false, List, [], ◌∷◌, ◌++◌, map, append_assoc, append-nil,
  some, length, arith, ltb, if◌then◌else◌, Bool-cases, inl, inr,
}
use components_network.Udp.Client.{Client, Endpoint, send_data}
use components_network.Udp.Server
use components_network.Udp.Server.{Server, receives, step, steps}

-- The client sends these in turn, and each goes out in full.
abbrev pub send_all : Client → List Bytes → Client
send_all d [] = d
send_all d (x ∷ xs) = send_all (send_data (some (length x)) d x).0 xs

-- Those with something in them.
abbrev pub nonempty : List Bytes → List Bytes
nonempty [] = []
nonempty (x ∷ xs) = if ltb 0 (length x) then x ∷ nonempty xs else nonempty xs

-- A client that can send.
pub record Sends (d : Client) : Type 0 where
  pub opened : d.is_open ≡ true
  pub addressed : d.port ≢ 0

-- A server that waits for a datagram and has a processor for it.
pub record Waits (s : Server) : Type 0 where
  pub runs : s.is_running ≡ true
  pub inside : s.in_run ≡ true
  pub outstanding : s.receiving ≡ true
  pub given : s.has_processor ≡ true

send_data-Sends :
    (d : Client) (x : Bytes)
    → Sends d
    → let d' = (send_data (some (length x)) d x).0 in
      Sends d'
      × (d'.sent ≡ d.sent ++ (d.server_endpoint, x) ∷ [])
      × (d'.server_endpoint ≡ d.server_endpoint)
unfolding send_data
send_data-Sends d x s = ground (arith, s.opened, s.addressed)

send_all-sent :
    (d : Client) (xs : List Bytes)
    → Sends d
    → (send_all d xs).sent ≡ d.sent ++ map (λ x. (d.server_endpoint, x)) xs
send_all-sent d [] s = rw append-nil refl
send_all-sent d (x ∷ xs) s =
    let (still, sent, same) = send_data-Sends d x s in
    send_all-sent (send_data (some (length x)) d x).0 xs still
    ∙ rw (sent, same) (append_assoc d.sent ((d.server_endpoint, x) ∷ []) _)

receives-Waits :
    (s : Server) (x : Bytes)
    → Waits s
    → let s' = step s (receives false x) in
      Waits s' × (s'.processed ≡ (if ltb 0 (length x) then s.processed ++ x ∷ [] else s.processed))
unfolding step Server.on_receive Server.start_receive
receives-Waits s x w = ground (arith, w.runs, w.inside, w.outstanding, w.given)

steps-processed :
    (s : Server) (xs : List Bytes)
    → Waits s
    → (steps s (map (receives false) xs)).processed ≡ s.processed ++ nonempty xs
unfolding steps
steps-processed s [] w = rw append-nil refl
steps-processed s (x ∷ xs) w =
    let (still, taken) = receives-Waits s x w in
    steps-processed (step s (receives false x)) xs still ∙ (elim (Bool-cases (ltb 0 (length x))) [
      | inl e ↦ rw (taken, e) (append_assoc s.processed (x ∷ []) (nonempty xs))
      | inr e ↦ rw (taken, e) refl
    ])

payloads :
    (e : Endpoint) (xs : List Bytes)
    → map (λ (p : Endpoint × Bytes). p.1) (map (λ x. (e, x)) xs) ≡ xs
payloads e [] = refl
payloads e (x ∷ xs) = ap (◌∷◌ x) (payloads e xs)

-- An open client with a host sends each of its texts as one datagram, in their order, to the endpoint
-- that is set; whatever a network makes of them, in what order and how often they arrive, a server
-- that waits with a processor hands it the ones that arrive in their order, each once, but the empty
-- ones.
pub send_all-steps :
    (net : List Bytes → List Bytes) (d : Client) (s : Server) (xs : List Bytes)
    → Sends d
    → Waits s
    → d.sent ≡ []
    → let sent = (send_all d xs).sent in
      (sent ≡ map (λ x. (d.server_endpoint, x)) xs)
      × ((steps s (map (receives false) (net (map (λ (p : Endpoint × Bytes). p.1) sent)))).processed
          ≡ s.processed ++ nonempty (net xs))
send_all-steps net d s xs sends waits e =
    let sent : (send_all d xs).sent ≡ map (λ x. (d.server_endpoint, x)) xs =
      send_all-sent d xs sends
      ∙ ap (λ earlier. earlier ++ map (λ x. (d.server_endpoint, x)) xs) e in
    (
      sent,
      steps-processed s _ waits
          ∙ ap (λ ys. s.processed ++ nonempty (net ys))
              (ap (map (λ (p : Endpoint × Bytes). p.1)) sent ∙ payloads d.server_endpoint xs),
    )
