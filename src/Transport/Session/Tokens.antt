-- ===== src/Transport/Session/Tokens.antt =====
-- The check of the token, which no printed packet carries.
use components_network.Prelude.{◌≡◌, false, Bytes, [], ◌∷◌, ◌++◌, refl}
use components_network.Transport.Codec.{TransportPacket, fresh, Codec, IsLossless, returns}
use components_network.Transport.Packet.{to_string}
use components_network.Transport.Packet.Reassembly.{from_string-to_string}
use components_network.Transport.Session.{Session, ProcessCallback, contains, process}

to_string-token :
    (c : Codec) (p : TransportPacket) (t : Bytes)
    → to_string c (record p { token = t }) ≡ to_string c p
unfolding to_string
to_string-token c p t = refl

-- With a lossless codec and unless the empty token is registered, whatever packet a client prints, with whatever token, is
-- sent back unprocessed: the callback is not asked and nothing else of the session changes.
pub process-to_string_rejected :
    (c : Codec) (callback : ProcessCallback) (s : Session) (p : TransportPacket)
    → IsLossless c
    → contains s.token_list [] ≡ false
    → process c callback s (to_string c p)
      ≡ (returns tt, record s { sent = s.sent ++ to_string c p ∷ [] })
unfolding process
process-to_string_rejected c callback s p l h =
    rw (from_string-to_string c l p fresh, h, to_string-token c p [])
