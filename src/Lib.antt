-- ===== src/Lib.antt =====
-- Verification of the network components: what the clients, servers and sessions of this repository
-- do, as functions on their states, and the theorems about them. Paths are from the repository's root.
--
-- The program is a set of separate components, each a class with an `Impl` around the sockets of
-- Boost.Asio, Boost.Beast, websocketpp or Qt. A server accepts connections and gives each one a
-- session; a session reads, calls a processor that the user registered, and writes what it answers; a
-- client connects, sends requests and reads the answers. Nothing is shared between the components but
-- the packets of the transport and of the Qt part, and the manager of the Qt servers.
--
-- Parts, by module:
-- - Prelude: lists, Boolean tests, keys, association lists, sorting and permutations.
-- - Transport (Legacy/Transport): a packet is printed, encrypted and, above 8000 characters of
--   payload, cut into sub-packets that may arrive in any order. Codec is the packet and the external
--   operations on it, Packet is transportpacket.cpp (`toString`, `fromString`, `toSubpackets`,
--   `fromSubpackets`), Session is connectionsession.cpp, Server is transportserver.cpp (its child
--   Running is `start`, with what its threads run), Client is transportclient.cpp, Guid its
--   `generateGuid`, and Exchange lets a client speak with a session and, in Bounce, hear its answers.
-- - Http (src/HTTP): Types is httptypes, Socket is `closeSocket` and the codes of errors, Client
--   is client.cpp (requests, downloads and uploads; its child Lifetime takes the asynchronous
--   requests handler by handler, with their interruption and the end of the client on either
--   kind of context), Session is connectionsession.cpp (the handler of the read, the answers,
--   the deadline; in its child Writing, writes that take time), Server is server.cpp
--   (registration and dispatch; its children Registration and Routes are about the history of
--   registrations and the routes up to what they answer, and Running is a server with its
--   connections over what happens to them), and Exchange lets a client speak with a connection
--   of a server, its child Transfers for files, Async for asynchronous requests, and Waiting for
--   a request that no processor replies to.
-- - Udp (src/UDP): Client is client.cpp, Server is server.cpp, and Exchange sends from the one to the
--   other.
-- - WebSockets (src/WebSockets): Session and SecureSession are the two classes of
--   websocketsession.cpp, with how long they live (Session.Lifetime for the first), Server is
--   server.cpp, Client is client.cpp with its pings.
-- - BasicSocket (src/BasicSocket): socketsession.cpp.
-- - Legacy: Exchange is Legacy/exchangepacket.h and Legacy/packetprocessor.cpp, Workers is
--   Legacy/threadmanager.cpp and Legacy/connectionworker.cpp, TcpServer is
--   Legacy/tcpserverinstance.cpp, all servers of a process with the one manager they share, TcpClient
--   is Legacy/tcpclientinstance.cpp, UdpServer is Legacy/udpserverinstance.cpp (its child Remover is
--   the thread that removes others, step by step), UdpClient is Legacy/udpclientinstance.cpp,
--   OldHttp is Legacy/Implementation/HTTP.
-- The file of a component holds its state and operations under the names of the source, in snake
-- case; its children hold the theorems; a module Examples holds runs on concrete inputs.
--
-- How state and time are modelled: the members of a class and of its `Impl` are the fields of a
-- record, an operation is a function from the record to the record and its result. What
-- callbacks, sockets and files get is kept in a list of the record. Where handlers are called by
-- an event loop, an Event type names each call that may happen, in any order; `step` makes the
-- call if the state allows it (a read that is outstanding, a thread inside `run`), and `steps`,
-- `run` or `works` makes any sequence of them. Exceptions, uses of objects that are
-- gone, and calls that do not return, are results (`none`, `throws`, `terminated`, `undefined`,
-- `undefined_behaviour`, `searching`). A program of several threads is a schedule: each step
-- names the thread that makes its next statement. All loops are structural recursions:
-- `toSubpackets` on its number of rounds, of which there are as many as the code counts; the
-- search for a free identifier in Legacy.Workers on the list of the random numbers that are
-- drawn. Integers are natural numbers, with `% 2 ^ 64` or `% 2 ^ 32` where the code computes in
-- these widths and may overflow. Texts that are taken apart are lists of character codes, other
-- texts are strings.
--
-- What the code calls and this repository does not hold is a parameter: the hexadecimal text and the
-- encryption of Components/Encryption, the archives of Boost (`Codec`, with `IsLossless` or the like for
-- a decoder that undoes its encoder), what a resolver, a socket, a TLS layer or a file answers
-- (`Network`, `Files`, Boolean arguments), and what the user's processors do, which are functions and
-- do not throw.
--
-- Assumptions: handlers of one context are not interleaved, though they may come in any order;
-- the remover of Legacy/udpserverinstance.cpp and those that signal it are interleaved; the handlers
-- of the WebSocket server come between the parts of its `stop`; a client has one asynchronous HTTP
-- request outstanding at a time, as Beast wants it; a write is done at once, except in
-- Http.Session.Writing, and puts out the whole text or, in Transport.Server.Running, throws, except
-- in BasicSocket; statuses that a processor sets are below 1000; in Legacy.Exchange and Legacy.TcpClient a read gives one message whole, as the
-- code takes it to; a packet type is told by its bit pattern.
--
-- Not modelled: logging; the contents of certificates; the time that `isConnected` of the HTTP client
-- waits in its peek, for whose answer it is taken; how Beast reads into an `m_request`
-- that holds the request before, as each handler is given what was left there; the exception
-- of the shutdown behind a failed TLS handshake; the writes of a WebSocket ping outside of its
-- identifier, which end as `undefined_behaviour`; the handlers of WebSocket messages, which only log;
-- threads of datagrams of the Qt UDP server next to each other, as the line that starts them is
-- commented out; the deletion of Qt workers, whose threads have ended by then;
-- Legacy/databasehandler, which is calls of SQLite and names variables that are not declared.
pub mod Prelude
pub mod Transport
pub mod Http
pub mod Udp
pub mod BasicSocket
pub mod WebSockets
pub mod Legacy
