-- ===== src/Http/Socket.antt =====
-- The socket that src/HTTP/client.cpp and src/HTTP/connectionsession.cpp both keep: a
-- `std::variant` of a plain and a TLS stream, and the way both close it.
use components_network.Prelude.{◌≡◌, ◌⊎◌, inl, inr, Bool, true, false, arith, if◌then◌else◌}

-- The error codes that the program tells apart. `value_1` is a code of value 1 of another category.
pub data ErrorCode : Type 0 where
  success not_connected eof stream_truncated operation_aborted : ErrorCode
  connection_reset would_block try_again value_1 other_error : ErrorCode

-- `if (ec)`.
abbrev pub is_error : ErrorCode → Bool
is_error success = false
is_error _ = true

pub data Kind : Type 0 where
  plain secure : Kind

pub record Socket : Type 0 where
  pub kind : Kind
  pub is_open : Bool

-- What the operating system and the TLS layer answer when a socket is shut down.
pub record Shutdown : Type 0 where
  pub tls : ErrorCode
  pub tcp : ErrorCode

-- `ec && ec != not_connected`.
abbrev pub is_fatal : ErrorCode → Bool
is_fatal success = false
is_fatal not_connected = false
is_fatal _ = true

-- The codes of a TLS shutdown that are cleared.
abbrev pub cleared : ErrorCode → ErrorCode
cleared eof = success
cleared stream_truncated = success
cleared operation_aborted = success
cleared ec = ec

abbrev pub closed : Socket → Socket
closed s = record s { is_open = false }

unfoldable pub close_plain : ErrorCode → Socket → Socket × Bool
close_plain ec s = if is_fatal ec then (s, false) else (closed s, true)

unfoldable pub close_by_kind : Kind → Shutdown → Socket → Socket × Bool
unfolding close_plain
close_by_kind plain codes s = close_plain codes.tcp s
close_by_kind secure codes s =
    if is_fatal (cleared codes.tls) then (s, false) else close_plain codes.tcp s

-- The body that `disconnectFromHost` and `closeConnection` share behind their test of the
-- connection: the socket afterwards, and whether the end was reached.
unfoldable pub close_socket : Shutdown → Socket → Socket × Bool
unfolding close_by_kind
close_socket codes s = close_by_kind s.kind codes s

-- The codes that a plain socket and a TLS socket are closed under.
abbrev pub Closes : Kind → Shutdown → Type 0
Closes plain codes = is_fatal codes.tcp ≡ false
Closes secure codes = (is_fatal (cleared codes.tls) ≡ false) × (is_fatal codes.tcp ≡ false)

-- The socket is closed exactly if the codes allow it, and is left as it was if they do not.
pub close_socket_lem :
    (codes : Shutdown) (s : Socket)
    → (Closes s.kind codes × (close_socket codes s ≡ (closed s, true)))
      ⊎ ((¬ Closes s.kind codes) × (close_socket codes s ≡ (s, false)))
unfolding close_socket
close_socket_lem codes s = by_kind s.kind
  where
    by_kind :
        (k : Kind)
        → (Closes k codes × (close_by_kind k codes s ≡ (closed s, true)))
          ⊎ ((¬ Closes k codes) × (close_by_kind k codes s ≡ (s, false)))
    by_kind plain = ground arith
    by_kind secure = ground arith

pub close_socket-Closes :
    (codes : Shutdown) (s : Socket) → Closes s.kind codes → (close_socket codes s).0.is_open ≡ false
close_socket-Closes codes s c = elim (close_socket_lem codes s) [
  | inl e ↦ rw e.1
  | inr e ↦ absurd (e.0 c)
]
