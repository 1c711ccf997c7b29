-- ===== src/Legacy/Examples/Servers.antt =====
-- Runs of the Qt servers of a process, and of the search for an identifier.
use components_network.Prelude.{
  ◌≡◌, ◌≢◌, refl, number_key, true, false, List, [], ◌∷◌, none, some, arith,
}
use components_network.Prelude.Assoc.{find, insert, erase}
use components_network.Legacy.Workers
use components_network.Legacy.Workers.Search.{create_connection-done}
use components_network.Legacy.TcpServer
use components_network.Legacy.TcpServer.Sharing.{run-steps}
use components_network.Legacy.TcpServer.Following.{fate, calls}
use components_network.Legacy.TcpServer.Orphaned.{destroys-comes, NextConnection}

-- One worker, for which 5 was drawn; 5 is drawn again, then 6.
abbrev one_worker : Workers.Manager
one_worker = record (Workers.new 2) { workers = (5, 0) ∷ []; threads = (5, 0) ∷ []; next = 1 }

create_connection-done_example :
    (d : Workers.Manager) × (Workers.create_connection (5 ∷ 6 ∷ []) 41 one_worker ≡ Workers.done d)
create_connection-done_example =
    create_connection-done one_worker (5 ∷ 6 ∷ []) 41 ((refl, tt), (tt, tt)) (omega arith)

-- Two servers: the connections of both go to the threads of the first, with the processors that were
-- set on the second.
abbrev two_servers : List TcpServer.Event
two_servers =
    TcpServer.constructs 8 false
    ∷ TcpServer.sets_info_processor (some (λ p response. p)) 0
    ∷ TcpServer.sets_info_processor none 1
    ∷ TcpServer.starts true 1
    ∷ TcpServer.comes (5 ∷ []) 40 0
    ∷ TcpServer.comes (6 ∷ []) 41 1
    ∷ TcpServer.works (Workers.attaches false 0)
    ∷ TcpServer.destroys 1
    ∷ []

run-steps_example :
    (fate (TcpServer.run (TcpServer.done TcpServer.new) (TcpServer.constructs 1 true ∷ two_servers))
      ≡ some (Workers.steps (Workers.done (Workers.new 1)) (calls two_servers)))
    × (TcpServer.run (TcpServer.done TcpServer.new) (TcpServer.constructs 1 true ∷ two_servers)
        ≢ TcpServer.undefined_behaviour)
run-steps_example =
    run-steps 1 true two_servers
      (tt, (refl, (refl, (refl, (refl, (refl, (tt, ((refl, λ e. omega (arith, e)), tt))))))))

-- The second server goes on without the first.
abbrev process : TcpServer.Process
process = record TcpServer.new {
  manager = some (0, Workers.new 2);
  servers = (0, TcpServer.new_server true) ∷ (1, TcpServer.new_server true) ∷ [];
  next = 2;
}

abbrev deaf : TcpServer.Server
deaf = TcpServer.new_server true

abbrev serving : TcpServer.Server
serving = record deaf { processors = record deaf.processors { error_processor = true } }

abbrev manager : Workers.Manager
manager = Workers.new 2

abbrev manager_after : Workers.Manager
manager_after = record manager { processors = record manager.processors { error_processor = true } }

abbrev left : TcpServer.Process
left = record process { manager = some (0, manager_after); servers = (1, serving) ∷ [] }

destroys-comes_example :
    (manager_after.next ≡ manager.next) × NextConnection (5 ∷ []) 40 1 serving manager_after 0 left
unfolding find insert erase TcpServer.run TcpServer.step TcpServer.destroy
    TcpServer.set_error_processor TcpServer.managed Workers.step Workers.set_error_processor
    Workers.fresh_id
destroys-comes_example =
    destroys-comes 0 deaf manager process (TcpServer.sets_error_processor true 1 ∷ []) 0
      manager_after left (5 ∷ []) 5 40 1 serving refl refl (omega arith) refl refl refl refl
