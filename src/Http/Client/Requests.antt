-- ===== src/Http/Client/Requests.antt =====
-- What the calls of src/HTTP/client.cpp return, and how often the asynchronous one calls back.
use components_network.Prelude.{
  ◌≡◌, ◌≢◌, ◌⊎◌, String, true, false, List, [], ◌∷◌, ◌++◌, Option, none, some, arith, ap, length,
  length-append,
}
use components_network.Http.Types.{MethodType, Packet, fresh}
use components_network.Http.Socket.{Socket, is_error}
use components_network.Http.Client.{
  Network, Client, verb_of, connect_to_host, answer_in_place, answer_fresh, request_moved,
  request_copied, request_async,
}

-- The two packets agree but for what the answer's header, if it has none, leaves of the type.
pub record Agrees (stated : Option String) (q r : Packet) : Type 0 where
  pub target : q.target ≡ r.target
  pub acceptable_type : q.acceptable_type ≡ r.acceptable_type
  pub status_code : q.status_code ≡ r.status_code
  pub body : q.body ≡ r.body
  pub body_type : (q.body_type ≡ r.body_type) ⊎ (stated ≡ none)

answers-Agree :
    (net : Network) (pkt : Packet)
    → Agrees net.response.content_type
        (answer_in_place pkt net.response)
        (answer_fresh pkt net.response)
unfolding answer_in_place answer_fresh
answers-Agree net pkt = ground arith

abbrev packet_or : Option Packet → Packet
packet_or none = fresh
packet_or (some q) = q

-- Where the copying overload of `request` returns a packet, the moving one returns one that agrees
-- with it, and both leave the same client behind.
pub request_moved-request_copied :
    (net : Network) (d : Client) (method : MethodType) (pkt r : Packet)
    → (request_copied net d method pkt).0 ≡ some r
    → (q : Packet) × ((request_moved net d method pkt).0 ≡ some q)
      × Agrees net.response.content_type q r
      × ((request_moved net d method pkt).1 ≡ (request_copied net d method pkt).1)
unfolding request_moved request_copied
request_moved-request_copied net d method pkt r h =
    (packet_or (request_moved net d method pkt).0, ground arith, ground arith, ground arith)

-- With a callback, a known method and a connection, the callback is called once, unless the request
-- was written and its answer could not be read: then it is called twice.
pub request_async_calls :
    (net : Network) (d : Client) (method : MethodType) (pkt : Packet) (s : Socket)
    (calls : List (Option Packet))
    → verb_of method ≢ none
    → connect_to_host net d.socket ≡ some (s, true)
    → (request_async net d method pkt true).0 ≡ some calls
    → ((length calls ≡ 1) × ((is_error net.write ≡ true) ⊎ (is_error net.read ≡ false)))
      ⊎ ((length calls ≡ 2) × (is_error net.write ≡ false) × (is_error net.read ≡ true))
unfolding request_async
request_async_calls net d method pkt s calls v e h = ground arith

append-ne {ℓ} : {A : Type ℓ} (xs : List A) (x : A) → xs ++ x ∷ [] ≢ xs
append-ne xs x e = omega (arith, ap length e, length-append xs (x ∷ []))

-- Where an asynchronous request returns without having sent anything, its callback is not called at
-- all.
pub request_async_silent :
    (net : Network) (d : Client) (method : MethodType) (pkt : Packet) (calls : List (Option Packet))
    → (request_async net d method pkt true).0 ≡ some calls
    → (request_async net d method pkt true).1.sent ≡ d.sent
    → calls ≡ []
unfolding request_async
request_async_silent net d method pkt calls h e = grind (arith, append-ne)
