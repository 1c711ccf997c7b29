-- ===== src/Http/Examples/Writing.antt =====
-- A processor that replies twice to one request.
use components_network.Prelude.{◌+◌, ◌≤◌, ◌≡◌, ◌↔◌, false, [], ◌∷◌}
use components_network.Prelude.Assoc.{find}
use components_network.Http.Types.{get, method_key, fresh}
use components_network.Http.Socket.{success}
use components_network.Http.Session.{Session, response, replies_to, packet_of}
use components_network.Http.Session
use components_network.Http.Session.Deadline.{reads}
use components_network.Http.Session.Writing.{undefined, happens, handle, handle-reads_iff}
use components_network.Http.Examples.{around, open_socket, asks}

abbrev insisting : Session
insisting = record (Session.new "test" open_socket 7) {
  processors = (get, λ pkt. response fresh ∷ response fresh ∷ []) ∷ [];
}

handle-reads_iff_example :
    (handle (happens (reads around success asks)) false insisting ≡ undefined) ↔ (2 ≤ 2 + 0)
unfolding Session.new replies_to find
handle-reads_iff_example = handle-reads_iff around asks false insisting
