-- ===== src/Http/Server/Running.antt =====
-- src/HTTP/server and src/HTTP/connectionsession together: a server with its connections over what
-- happens to them. The handlers of the connections refer to the map of the server.
pub mod Answering
use components_network.Prelude.{ℕ, zero, suc, List, [], ◌∷◌, map, Option, none, some, if◌then◌else◌}
use components_network.Http.Socket.{ErrorCode}
use components_network.Http.Session.{Session, Message, Surroundings, on_read, tick}
use components_network.Http.Server.{
  Processors, Impl, Server, method_processors, set_handler, on_accept,
}
use components_network.Http.Server.Registration.{Registration}

-- A connection whose four processors look into this map.
abbrev pub refer : Processors → Session → Session
refer ps s = record s { processors = method_processors ps }

abbrev pub refer_all : Processors → Option Impl → Option Impl
refer_all ps none = none
refer_all ps (some i) = some (record i { connections = map (refer ps) i.connections })

-- One of the setters: all connections see what the map holds now.
unfoldable pub register : Registration → Server → Server
register r d =
    let ps = set_handler r.method d.processors r.target r.process in
    record d { processors = ps; impl = refer_all ps d.impl }

abbrev pub accepted : Server → ErrorCode → ErrorCode → ℕ → Option Impl → Option Impl
accepted d ec handshake now none = none
accepted d ec handshake now (some i) = some (on_accept d i ec handshake now)

-- The connection of this number is changed.
unfoldable pub change : ℕ → (Session → Session) → List Session → List Session
change k f [] = []
change zero f (s ∷ ss) = f s ∷ ss
change (suc k) f (s ∷ ss) = s ∷ change k f ss

abbrev pub changed : ℕ → (Session → Session) → Option Impl → Option Impl
changed k f none = none
changed k f (some i) = some (record i { connections = change k f i.connections })

-- The handler of a read, where a read is outstanding.
abbrev pub read : Surroundings → ErrorCode → Message → Session → Session
read w ec m s = if s.reading then on_read w s ec m else s

-- What may happen; connections are numbered in the order in which they were accepted.
pub data Event : Type 0 where
  registers : Registration → Event
  accepts : ErrorCode → ErrorCode → ℕ → Event
  reads : ℕ → Surroundings → ErrorCode → Message → Event
  ticks : ℕ → Surroundings → ℕ → Event

unfoldable pub step : Server → Event → Server
step d (registers r) = register r d
step d (accepts ec handshake now) = record d { impl = accepted d ec handshake now d.impl }
step d (reads k w ec m) = record d { impl = changed k (read w ec m) d.impl }
step d (ticks k w now) = record d { impl = changed k (tick w.files w.reason w.shutdown now) d.impl }

unfoldable pub steps : Server → List Event → Server
steps d [] = d
steps d (e ∷ es) = steps (step d e) es
