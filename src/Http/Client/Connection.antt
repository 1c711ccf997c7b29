-- ===== src/Http/Client/Connection.antt =====
-- `connectToHost`, `isConnected` and `disconnectFromHost` of src/HTTP/client.cpp.
use components_network.Prelude.{◌≡◌, ◌⊎◌, inl, inr, refl, true, false, some, arith, Bool-cases}
use components_network.Http.Socket.{Kind, plain, secure, Socket, is_error}
use components_network.Http.Client.{
  Network, is_connected, connect_by_kind, connect_to_host, disconnect_from_host,
}

-- Why a call of `connectToHost` may say that it is connected.
pub data Connects (net : Network) (s : Socket) : Type 0 where
  already : is_connected net s ≡ true → Connects net s
  by_tcp : s.kind ≡ plain → is_error net.connect ≡ false → Connects net s
  by_tls :
      s.kind ≡ secure
      → net.accepts_host_name ≡ true
      → is_error net.handshake ≡ false
      → Connects net s
  without_attempt : s.kind ≡ secure → net.accepts_host_name ≡ false → Connects net s

by_kind :
    (net : Network) (s : Socket) (k : Kind)
    → s.kind ≡ k
    → is_error (connect_by_kind net k s).1 ≡ false
    → Connects net s
unfolding connect_by_kind
by_kind net s plain e h = by_tcp e h
by_kind net s secure e h = elim (Bool-cases net.accepts_host_name) [
  | inl a ↦ by_tls e a (ground arith)
  | inr r ↦ without_attempt e r
]

-- Where `connectToHost` says that it is connected, it was so before, or the TCP connection was made
-- (plain), or the TLS handshake succeeded (secure), or the host name was refused by the TLS layer, so
-- that nothing was tried.
pub connect_to_host-Connects :
    (net : Network) (s s' : Socket) → connect_to_host net s ≡ some (s', true) → Connects net s
unfolding connect_to_host
connect_to_host-Connects net s s' h = elim (Bool-cases (is_connected net s)) [
  | inl c ↦ already c
  | inr c ↦ by_kind net s s.kind refl (ground arith)
]

-- A TLS client whose host resolves and whose host name is refused says that it is connected, over an
-- unchanged socket.
pub connect_to_host_refused :
    (net : Network) (s : Socket)
    → s.kind ≡ secure
    → net.resolves ≡ true
    → net.accepts_host_name ≡ false
    → connect_to_host net s ≡ some (s, true)
unfolding connect_to_host
connect_to_host_refused net s k r a = ground arith

-- Either a disconnection reports success and the client is not connected, or it reports failure and
-- the socket is as it was.
pub disconnect_from_host_lem :
    (net : Network) (s : Socket)
    → let (s', ok) = disconnect_from_host net s in
      ((ok ≡ true) × (is_connected net s' ≡ false)) ⊎ ((ok ≡ false) × (s' ≡ s))
unfolding disconnect_from_host
disconnect_from_host_lem net s = ground arith
