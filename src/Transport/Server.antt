-- ===== src/Transport/Server.antt =====
-- Legacy/Transport/TransportServer/transportserver: the server that accepts the connections.
pub mod Running
use components_network.Prelude.{
  All-snoc, ℕ, ◌≡◌, refl, Bytes, bytes_key, Bool, true, false, ◌||◌, List, [], ◌∷◌, ◌++◌, map,
  if◌then◌else◌, number_key, ◌==◌, Bool-cases, inl, inr, arith, All,
}
use Prim.Native.Char.{code}
use Prim.Native.String.{String}
use components_network.Transport.Session.{Session, contains}

abbrev pub codes : String → Bytes
codes String.[] = []
codes (String.◌∷◌ c s) = code c ∷ codes s

-- `Impl`. The sessions refer to the token list of the server: each of them holds what it holds.
pub record ServerInstance : Type 0 where
  pub port : ℕ  -- uint16_t
  pub has_callback : Bool
  pub token_list : List Bytes
  pub thread_count : ℕ  -- uint64_t
  pub accepting : Bool
  pub sessions : List Session

abbrev pub initial : ServerInstance
initial = record {
  port = 9020;
  has_callback = false;
  token_list = [];
  thread_count = 1;
  accepting = false;
  sessions = [];
}

unfoldable pub set_port : ServerInstance → ℕ → ServerInstance
set_port d port_no = record d { port = port_no }

unfoldable pub set_thread_count : ServerInstance → ℕ → ServerInstance
set_thread_count d n = record d { thread_count = n }

abbrev pub with_tokens : List Bytes → Session → Session
with_tokens tokens s = record s { token_list = tokens }

unfoldable pub load_tokens : ServerInstance → ServerInstance
load_tokens d =
    let tokens = d.token_list ++ codes "DEVELOP_TOKEN" ∷ [] in
    record d { token_list = tokens; sessions = map (with_tokens tokens) d.sessions }

-- A new session, on a buffer whose content is not determined, with a read outstanding.
abbrev pub connection : Bytes → List Bytes → Session
connection buffer tokens = record {
  buffer = buffer;
  sub_packets_map = [];
  token_list = tokens;
  reading = true;
  posted = 0;
  sent = [];
}

-- The handler of `async_accept` in `handleConnections`: `ec` is 0 if there is no error. Accepting
-- goes on in either case.
unfoldable pub handle_connection : ServerInstance → ℕ → Bytes → ServerInstance
handle_connection d ec buffer =
    if ec == 0
    then record d { sessions = d.sessions ++ connection buffer d.token_list ∷ []; accepting = true }
    else record d { accepting = true }

-- `init`: the callback is kept, and accepting begins if the port can be opened; otherwise the
-- constructor of the acceptor throws.
unfoldable pub init : ServerInstance → Bool → ServerInstance
init d opens = record d { has_callback = true; accepting = d.accepting || opens }

-- What the owner of a server may do, and what the network does to it.
pub data Event : Type 0 where
  sets_port sets_thread_count : ℕ → Event
  loads_tokens : Event
  inits : Bool → Event
  accepts : ℕ → Bytes → Event

unfoldable pub step : ServerInstance → Event → ServerInstance
unfolding set_port set_thread_count load_tokens init handle_connection
step d (sets_port n) = set_port d n
step d (sets_thread_count n) = set_thread_count d n
step d loads_tokens = load_tokens d
step d (inits opens) = init d opens
step d (accepts ec buffer) = handle_connection d ec buffer

unfoldable pub run : ServerInstance → List Event → ServerInstance
run d [] = d
run d (e ∷ es) = run (step d e) es

-- Whom a server lets in: no list of tokens holds the empty one, and the sessions hold the list.
pub record IsGuarded (d : ServerInstance) : Type 0 where
  pub no_empty_token : contains d.token_list [] ≡ false
  pub shared : All (λ s. s.token_list ≡ d.token_list) d.sessions

contains-append :
    (us : List Bytes) (t u : Bytes)
    → contains (us ++ t ∷ []) u ≡ contains us u || contains (t ∷ []) u
contains-append [] t u = refl
contains-append (v ∷ us) t u = ground (arith, contains-append us t u)

shared-map :
    (tokens : List Bytes) (ss : List Session)
    → All (λ s. s.token_list ≡ tokens) (map (with_tokens tokens) ss)
shared-map tokens [] = tt
shared-map tokens (s ∷ ss) = (refl, shared-map tokens ss)

pub step-IsGuarded : (d : ServerInstance) (e : Event) → IsGuarded d → IsGuarded (step d e)
unfolding step
step-IsGuarded d (sets_port n) g = ground (arith, g.no_empty_token, g.shared)
step-IsGuarded d (sets_thread_count n) g = ground (arith, g.no_empty_token, g.shared)
step-IsGuarded d loads_tokens g = record {
  no_empty_token = rw (contains-append d.token_list (codes "DEVELOP_TOKEN") [], g.no_empty_token);
  shared = shared-map _ d.sessions;
}
step-IsGuarded d (inits opens) g = ground (arith, g.no_empty_token, g.shared)
step-IsGuarded d (accepts ec buffer) g = elim (Bool-cases (ec == 0)) [
  | inl ok ↦ rw ok (record {
    no_empty_token = g.no_empty_token;
    shared =
        All-snoc (λ s. s.token_list ≡ d.token_list) d.sessions (connection buffer d.token_list)
          g.shared refl;
  })
  | inr failed ↦ rw failed (record { no_empty_token = g.no_empty_token; shared = g.shared })
]

-- Whatever is done to a server whose token list is shared by its sessions and does not hold the empty
-- token, that stays so.
pub run-IsGuarded : (d : ServerInstance) (es : List Event) → IsGuarded d → IsGuarded (run d es)
unfolding run
run-IsGuarded d [] g = g
run-IsGuarded d (e ∷ es) g = run-IsGuarded (step d e) es (step-IsGuarded d e g)

pub initial-IsGuarded : IsGuarded initial
initial-IsGuarded = record { no_empty_token = refl; shared = tt }
