-- ===== src/Legacy/Examples/Threads.antt =====
-- A run of the remover of the UDP server of Qt.
use components_network.Prelude.{◌≡◌, [], ◌∷◌, none, replicate, arith}
use components_network.Legacy.UdpServer
use components_network.Legacy.UdpServer.Remover.{
  asleep, ended, Removal, removes, signals, sets_done, steps,
}
use components_network.Legacy.UdpServer.Remover.Stopping.{stop-ended}

abbrev two_slots : UdpServer.Server
two_slots = UdpServer.new 2

abbrev sleeping : Removal
sleeping = record { server = two_slots; point = asleep }

stop-ended_example :
    (steps sleeping (sets_done ∷ removes ∷ signals none ∷ replicate 5 removes)).point ≡ ended
stop-ended_example = stop-ended sleeping (removes ∷ []) (replicate 5 removes) (omega arith)
