-- ===== src/Transport/Examples/Servers.antt =====
-- Runs of a server of the transport, up to the end of its program.
use components_network.Prelude.{
  ◌+◌, ◌≡◌, refl, Bytes, true, false, List, [], ◌∷◌, ◌++◌, replicate, length, arith,
}
use components_network.Transport.Codec.{TransportPacket, fresh, to_client}
use components_network.Transport.Packet.{to_string}
use components_network.Transport.Session.{Session, ProcessCallback, c_str}
use components_network.Transport.Server.{
  ServerInstance, Event, initial, run, codes, connection, loads_tokens, inits, step,
}
use components_network.Transport.Server.Running.{
  serving, terminated, start, Work, accepted, received, job, works,
}
use components_network.Transport.Server.Running.Serving.{Serves, accepts_in, has_job, start-Serves}
use components_network.Transport.Server.Running.Rejecting.{works-terminated}
use components_network.Transport.Examples.{plain, plain-IsLossless}

abbrev answering : ProcessCallback
answering payload output = (true, payload)

abbrev opened : List Event
opened = loads_tokens ∷ inits true ∷ []

abbrev ready : ServerInstance
ready = record initial {
  has_callback = true;
  token_list = codes "DEVELOP_TOKEN" ∷ [];
  accepting = true;
}

-- Two connections, one of them in error, and a job on the first.
abbrev visits : List Work
visits = accepted 0 (replicate 8 0) ∷ accepted 1 [] ∷ received 0 0 (7 ∷ []) ∷ job 0 true ∷ []

start-Serves_example :
    Serves
      (length ready.sessions + accepts_in visits)
      (has_job visits)
      (works plain answering (start ready) visits)
start-Serves_example = start-Serves plain answering ready visits (omega arith) refl

-- A packet that prints without a NUL, and the session that has read it.
abbrev single : TransportPacket
single = record fresh {
  guid = 65 ∷ [];
  type = to_client;
  sub_packet_no = 1;
  sub_packet_total_count = 1;
  payload = 7 ∷ [];
}

abbrev printed : Bytes
printed = 1 ∷ 65 ∷ 1 ∷ 1 ∷ 1 ∷ 7 ∷ []

abbrev told : Session
told = record (connection (printed ++ 0 ∷ 0 ∷ []) ready.token_list) { posted = 1 }

abbrev hit : ServerInstance
hit = record ready { sessions = told ∷ [] }

works-terminated_example : works plain answering (serving hit) (job 0 false ∷ []) ≡ terminated
unfolding works start run step to_string c_str
works-terminated_example =
    works-terminated plain answering opened (accepted 0 (replicate 8 0) ∷ received 0 0 printed ∷ [])
      [] hit told 0 0 single plain-IsLossless refl refl refl refl
