-- ===== src/Transport/Server/Running.antt =====
-- Legacy/Transport/TransportServer/transportserver: `start`, whose threads run the handlers of the
-- accept, of the reads and of the posted jobs.
pub mod Serving
pub mod Rejecting
use components_network.Prelude.{
  ℕ, zero, suc, ◌+◌, ◌≡◌, ◌≢◌, refl, ap, ◌∙◌, Bytes, bytes_key, number_key, ◌==◌, Bool, true, false,
  ◌||◌, List, [], ◌∷◌, ◌++◌, Option, none, some, if◌then◌else◌, if_cases, get_elem?, set, length,
  length-set, length-append, arith, All, All-get_elem?,
}
use components_network.Transport.Codec.{
  TransportPacket, Codec, IsLossless, Outcome, returns, throws,
}
use components_network.Transport.Packet.{to_string}
use components_network.Transport.Session.{
  Session, ProcessCallback, c_str, on_read, run_posted, process, contains,
}
use components_network.Transport.Session.Tokens.{process-to_string_rejected}
use components_network.Transport.Server.{
  ServerInstance, handle_connection, Event, initial, run, run-IsGuarded, initial-IsGuarded,
}

-- What becomes of a call of `start`: its threads serve, or it has returned 0, or an exception has
-- left a handler and so its thread, which terminates the program.
pub data Status : Type 0 where
  serving exited : ServerInstance → Status
  terminated : Status

-- What keeps `ioContext.run` from returning.
abbrev pub is_busy : Session → Bool
is_busy s = s.reading || (if s.posted == 0 then false else true)

abbrev pub any_busy : List Session → Bool
any_busy [] = false
any_busy (s ∷ ss) = is_busy s || any_busy ss

abbrev pub has_work : ServerInstance → Bool
has_work d = d.accepting || any_busy d.sessions

abbrev pub resume : ServerInstance → Status
resume d = if has_work d then serving d else exited d

-- `start`, up to the first handler.
unfoldable pub start : ServerInstance → Status
start d = if d.thread_count == 0 then exited d else resume d

-- What the threads run: the handler of the accept, that of the read of a session, the oldest job of
-- a session. What a job writes goes to a socket that can be written or not; `write_some` throws.
pub data Work : Type 0 where
  accepted : ℕ → Bytes → Work
  received : ℕ → ℕ → Bytes → Work
  job : ℕ → Bool → Work

abbrev pub with_session : ServerInstance → ℕ → Session → ServerInstance
with_session d i s = record d { sessions = set d.sessions i s }

abbrev pub job_done : ServerInstance → ℕ → Session → Bool → Outcome (Unit {0}) × Session → Status
job_done d i s writable (throws e, s') = terminated
job_done d i s writable (returns u, s') =
    if writable || (length s'.sent == length s.sent)
    then resume (with_session d i s')
    else terminated

-- The read of a session that is not outstanding does not come.
abbrev pub read_done : ServerInstance → ℕ → ℕ → Bytes → Option Session → Status
read_done d i ec bytes none = serving d
read_done d i ec bytes (some s) =
    if s.reading then resume (with_session d i (on_read s ec bytes)) else serving d

abbrev pub job_run : Codec → ProcessCallback → ServerInstance → ℕ → Bool → Option Session → Status
job_run c callback d i writable none = serving d
job_run c callback d i writable (some s) = job_done d i s writable (run_posted c callback s)

unfoldable pub handle : Codec → ProcessCallback → ServerInstance → Work → Status
unfolding handle_connection on_read run_posted
handle c callback d (accepted ec buffer) =
    if d.accepting then resume (handle_connection d ec buffer) else serving d
handle c callback d (received i ec bytes) = read_done d i ec bytes (get_elem? d.sessions i)
handle c callback d (job i writable) = job_run c callback d i writable (get_elem? d.sessions i)

unfoldable pub works : Codec → ProcessCallback → Status → List Work → Status
unfolding handle
works c callback s [] = s
works c callback (serving d) (w ∷ ws) = works c callback (handle c callback d w) ws
works c callback (exited d) (w ∷ ws) = exited d
works c callback terminated (w ∷ ws) = terminated
