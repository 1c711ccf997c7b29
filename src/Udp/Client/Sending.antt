-- ===== src/Udp/Client/Sending.antt =====
-- When a datagram is sent, and where to.
use components_network.Prelude.{
  ℕ, ◌≡◌, ◌≢◌, ◌⊎◌, ◌↔◌, String, Bytes, true, false, List, [], ◌∷◌, ◌++◌, Option, none, some,
  length, arith, if◌then◌else◌,
}
use components_network.Udp.Client.{Client, send_data, set_host, send_error}

-- Either one datagram goes to the endpoint that is set, nothing is reported, and the result is
-- whether all of it was sent; or nothing goes out, the result is `false`, and with a callback a
-- `SendError` is reported.
pub send_data_lem :
    (bytes_sent : Option ℕ) (d : Client) (i_data : Bytes)
    → let (d', ok) = send_data bytes_sent d i_data in
      ((d'.sent ≡ d.sent ++ (d.server_endpoint, i_data) ∷ [])
        × (d'.reported ≡ d.reported)
        × ((ok ≡ true) ↔ (bytes_sent ≡ some (length i_data)))
        × (d.is_open ≡ true)
        × (d.port ≢ 0))
      ⊎ ((d'.sent ≡ d.sent)
          × (ok ≡ false)
          × (d'.reported
              ≡ (if d.has_error_callback then d.reported ++ send_error ∷ [] else d.reported)))
unfolding send_data
send_data_lem bytes_sent d i_data = ground arith

-- A host with a port other than 0 that could not be resolved is kept all the same: what an open
-- client sends next in full goes to the endpoint of the host before it, and is reported as sent.
pub set_host-send_data :
    (resolved : Option (List ℕ)) (d : Client) (host : String) (port : ℕ) (i_data : Bytes)
    → (set_host resolved d host port).1 ≡ false
    → d.is_open ≡ true
    → port ≢ 0
    → let (d', ok) = send_data (some (length i_data)) (set_host resolved d host port).0 i_data in
      (d'.sent ≡ d.sent ++ (d.server_endpoint, i_data) ∷ []) × (ok ≡ true) × (d'.host ≡ host)
unfolding set_host send_data
set_host-send_data none d host port i_data h o p = ground arith
set_host-send_data (some []) d host port i_data h o p = ground arith
set_host-send_data (some (e ∷ es)) d host port i_data h o p = ground arith
