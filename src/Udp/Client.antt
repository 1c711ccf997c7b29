-- ===== src/Udp/Client.antt =====
-- src/UDP/client: a client that sends datagrams to one host.
pub mod Sending
use components_network.Prelude.{
  ℕ, String, Bytes, number_key, ◌==◌, Bool, true, false, not, List, [], ◌∷◌, ◌++◌, Option, none,
  some, length, if◌then◌else◌,
}

-- src/UDP/common.hpp
pub data ErrorType : Type 0 where
  no_error connection_error send_error : ErrorType
  receive_error binding_error resolution_error : ErrorType

-- An endpoint is a number here; `none` is the default-constructed one.
abbrev pub Endpoint : Type 0
Endpoint = Option ℕ

-- `Impl`. The callback for errors keeps its calls; `none` is an empty `std::function`.
pub record Client : Type 0 where
  pub host : String
  pub port : ℕ  -- uint16_t
  pub is_open : Bool
  pub server_endpoint : Endpoint
  pub broadcast : Bool
  pub has_error_callback : Bool
  pub reported : List ErrorType
  -- What was sent, and where to, oldest first.
  pub sent : List (Endpoint × Bytes)

-- The constructors of `Impl` and of `Client`: the socket is open.
abbrev pub new : Client
new = record {
  host = "";
  port = 0;
  is_open = true;
  server_endpoint = none;
  broadcast = false;
  has_error_callback = true;
  reported = [];
  sent = [];
}

unfoldable pub handle_error : Client → ErrorType → Client
handle_error d e = if d.has_error_callback then record d { reported = d.reported ++ e ∷ [] } else d

-- `sendData`, for what `send_to` gives: the number of bytes, or `none` for an exception.
unfoldable pub send_data : Option ℕ → Client → Bytes → Client × Bool
unfolding handle_error
send_data bytes_sent d i_data =
    if not d.is_open
    then (handle_error d send_error, false)
    else (if d.port == 0 then (handle_error d send_error, false) else elim bytes_sent [
      | none ↦ (handle_error d send_error, false)
      | some n ↦
          (record d { sent = d.sent ++ (d.server_endpoint, i_data) ∷ [] }, n == length i_data)
    ])

-- What the resolver gives: `none` for an exception.
unfoldable pub set_host : Option (List ℕ) → Client → String → ℕ → Client × Bool
unfolding handle_error
set_host none d host port =
    (handle_error (record d { host = host; port = port }) resolution_error, false)
set_host (some []) d host port =
    (handle_error (record d { host = host; port = port }) resolution_error, false)
set_host (some (e ∷ es)) d host port =
    (record d { host = host; port = port; server_endpoint = some e }, true)

-- `accepted` tells whether `set_option` throws.
unfoldable pub enable_broadcast : Bool → Client → Bool → Client × Bool
unfolding handle_error
enable_broadcast accepted d enable =
    if accepted
    then (record d { broadcast = enable }, true)
    else (handle_error d connection_error, false)

-- The destructor.
unfoldable pub destroy : Client → Client
destroy d = if d.is_open then record d { is_open = false } else d

unfoldable pub set_error_callback : Client → Bool → Client
set_error_callback d given = record d { has_error_callback = given }
