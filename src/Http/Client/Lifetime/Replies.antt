-- ===== src/Http/Client/Lifetime/Replies.antt =====
-- The handlers of an asynchronous request, one after the other, against the calls of its callback.
use components_network.Prelude.{
  ◌≡◌, ◌⊎◌, ◌∙◌, ap, refl, Bool, true, false, List, [], ◌∷◌, ◌++◌, append-nil, append_assoc, Option,
  none, some, is_some, inl, inr, Bool-cases, Option-cases, arith, if◌then◌else◌,
}
use components_network.Http.Types.{MethodType, Packet}
use components_network.Http.Socket.{ErrorCode, is_error}
use components_network.Http.Client.{
  Network, Client, Response, Outcome, verb_of, connect_to_host, with_connection, answer_fresh,
  request_async, async_calls,
}
use components_network.Http.Client.Lifetime.{
  Life, Outstanding, Phase, writing, reading, goes, cannot, Event, requests, wrote, read,
  interrupts, begun, after, owned, call, cancels, begin_request, run,
}

-- The handlers that come to run for a request, by what the network answers.
abbrev pub handlers : Network → Outcome (Option Outstanding) → List Event
handlers net (some (some o)) =
    wrote net.write ∷ (if is_error net.write then [] else read net.read net.response ∷ [])
handlers net (some none) = []
handlers net none = []

abbrev pub calls_of : Outcome (List (Option Packet)) → List (Option Packet)
calls_of none = []
calls_of (some calls) = calls

abbrev opened : Outcome (Option Outstanding) → Option Outstanding
opened none = none
opened (some o) = o

abbrev begun_request : Packet → Bool → Outstanding
begun_request pkt has_callback = record {
  pkt = pkt;
  has_callback = has_callback;
  phase = writing;
  aborted = false;
}

-- The beginning of a request and the whole of it come to the same client, and either both end early
-- or there is an operation whose handlers call back as the whole does.
abbrev Begins :
    Network
    → Packet
    → Bool
    → Outcome (Option Outstanding) × Client
    → Outcome (List (Option Packet)) × Client
    → Type 0
Begins net pkt has_callback begun whole =
    (begun.1 ≡ whole.1)
    × (((handlers net begun.0 ≡ []) × (calls_of whole.0 ≡ []) × (opened begun.0 ≡ none))
        ⊎ ((begun.0 ≡ some (some (begun_request pkt has_callback)))
            × (calls_of whole.0 ≡ (if has_callback then async_calls net pkt else []))))

begins :
    (net : Network) (d : Client) (method : MethodType) (pkt : Packet) (has_callback : Bool)
    → Begins net pkt has_callback
        (begin_request net d method pkt has_callback)
        (request_async net d method pkt has_callback)
unfolding begin_request request_async async_calls
begins net d method pkt has_callback = elim (Option-cases (verb_of method)) [
  | inl e ↦ rw (e, begin_request, request_async) (refl, inl (refl, refl, refl))
  | inr v ↦
      rw (v.1, begin_request, request_async)
        (elim (Option-cases (connect_to_host net d.socket)) [
          | inl e ↦ rw (e, with_connection) (refl, inl (refl, refl, refl))
          | inr c ↦
              rw (c.1, with_connection)
                (elim (Bool-cases c.0.1) [
                  | inl e ↦ rw e (refl, inr (refl, refl))
                  | inr e ↦ rw e (refl, inl (refl, refl, refl))
                ])
        ])
]

handlers_lem :
    (net : Network) (r : Life) (pkt : Packet) (has_callback : Bool)
    → r.released ≡ false
    → run
        (record r { outstanding = some (begun_request pkt has_callback) })
        (handlers net (some (some (begun_request pkt has_callback))))
      ≡ goes (record r {
        outstanding = none;
        calls = r.calls ++ (if has_callback then async_calls net pkt else []);
      })
unfolding run async_calls
handlers_lem net r pkt has_callback h = ground (
  arith,
  append-nil r.calls,
  append_assoc r.calls (none ∷ []) (some (answer_fresh pkt net.response) ∷ []),
)

begun_lem :
    (r : Life) (x : Outcome (Option Outstanding) × Client)
    → r.outstanding ≡ none
    → begun r x ≡ record r { client = x.1; outstanding = opened x.0 }
begun_lem r (none, d) e = rw e refl
begun_lem r (some o, d) e = refl

run-requests :
    (net : Network) (r : Life) (method : MethodType) (pkt : Packet) (has_callback : Bool)
    (es : List Event)
    → r.released ≡ false
    → r.outstanding ≡ none
    → let x = begin_request net r.client method pkt has_callback in
      run r (requests net method pkt has_callback ∷ es)
      ≡ run (record r { client = x.1; outstanding = opened x.0 }) es
unfolding run
run-requests net r method pkt has_callback es h e =
    let x = begin_request net r.client method pkt has_callback in
    let idle : (if is_some r.outstanding then cannot else owned r (begun r x))
        ≡ owned r (begun r x) =
      rw e in
    let alive : owned r (begun r x) ≡ goes (begun r x) =
      ap (λ (b : Bool). if b then cannot else goes (begun r x)) h in
    ap (after (λ r'. run r' es)) (idle ∙ alive) ∙ ap (λ (r' : Life). run r' es) (begun_lem r x e)

run-Begins :
    (net : Network) (r : Life) (pkt : Packet) (has_callback : Bool)
    (begun : Outcome (Option Outstanding) × Client)
    (whole : Outcome (List (Option Packet)) × Client)
    → r.released ≡ false
    → r.outstanding ≡ none
    → Begins net pkt has_callback begun whole
    → run (record r { client = begun.1; outstanding = opened begun.0 }) (handlers net begun.0)
      ≡ goes (record r { client = whole.1; calls = r.calls ++ calls_of whole.0 })
unfolding run
run-Begins net r pkt has_callback (x, d) (y, d') h e (same, inl (none_come, no_calls, idle)) =
    rw (none_come, no_calls, idle, same) (ground (arith, append-nil r.calls))
run-Begins net r pkt has_callback (x, d) (y, d') h e (same, inr (one, calls)) =
    rw (one, calls, same) (simp e (handlers_lem net (record r { client = d' }) pkt has_callback h))

-- Where no request is outstanding, an asynchronous request and the handlers that the network lets
-- come, one after the other, lead to the client and to the calls of the callback that the request
-- is said to make in one piece: whichever method, connection, write and read, exceptions included.
pub run-request_async :
    (net : Network) (r : Life) (method : MethodType) (pkt : Packet) (has_callback : Bool)
    → r.released ≡ false
    → r.outstanding ≡ none
    → let begun = begin_request net r.client method pkt has_callback in
      let whole = request_async net r.client method pkt has_callback in
      run r (requests net method pkt has_callback ∷ handlers net begun.0)
      ≡ goes (record r { client = whole.1; calls = r.calls ++ calls_of whole.0 })
run-request_async net r method pkt has_callback h e =
    let begun = begin_request net r.client method pkt has_callback in
    let whole = request_async net r.client method pkt has_callback in
    run-requests net r method pkt has_callback (handlers net begun.0) h e
    ∙ run-Begins net r pkt has_callback begun whole h e
        (begins net r.client method pkt has_callback)

-- The handler that is due, whatever code and answer the network has for it.
abbrev pub due : Phase → ErrorCode → Response → Event
due writing ec res = wrote ec
due reading ec res = read ec res

abbrev pub interrupted_calls : Outstanding → Phase → Response → List (Option Packet)
interrupted_calls o writing res = call o none
interrupted_calls o reading res = call o none ++ call o (some (answer_fresh o.pkt res))

-- A request that is interrupted while its operation is pending ends with the handler that is due,
-- whatever code that would have had: the callback is called with nothing and, if the answer was being
-- read, once more, with what there is of an answer. Afterwards no request is outstanding. (A TLS
-- socket is open.)
pub interrupts-due :
    (r : Life) (o : Outstanding) (ec : ErrorCode) (res : Response)
    → r.released ≡ false
    → r.outstanding ≡ some o
    → cancels r.client.socket.kind r.client.socket.is_open ≡ true
    → run r (interrupts true ∷ due o.phase ec res ∷ [])
      ≡ goes (record r { outstanding = none; calls = r.calls ++ interrupted_calls o o.phase res })
unfolding run
interrupts-due r o ec res h e k =
    ground (arith, append_assoc r.calls (call o none) (call o (some (answer_fresh o.pkt res))))
