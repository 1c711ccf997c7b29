-- ===== src/WebSockets/SecureSession/Plain.antt =====
-- A secure session beside a plain one.
use components_network.Prelude.{◌≡◌, Bytes, Bool, [], Option, none, some}
use components_network.WebSockets.Session
use components_network.WebSockets.SecureSession.{
  SecureSession, Outcome, alive, Event, handshakes, reads, sends, sets_read_callback,
  sets_close_callback, closes,
}

-- The same fields in the plain session.
abbrev pub plain : SecureSession → Session.Session
plain s = record {
  host = s.host;
  connected = s.connected;
  pending = s.pending;
  buffer = s.buffer;
  has_read_callback = s.has_read_callback;
  has_close_callback = s.has_close_callback;
  read_calls = s.read_calls;
  close_calls = s.close_calls;
  sent = s.sent;
  closings = s.closings;
}

abbrev pub named : Bytes → Session.Session → Session.Session
named host s = record s { host = host }

-- What is to be seen of a session that is alive, whatever its host is called.
abbrev pub seen : Outcome → Option Session.Session
seen (alive s) = some (named [] (plain s))
seen _ = none

-- The same event of a secure session, for whether its stream fails to close.
abbrev pub secure : Bool → Session.Event → Event
secure fails (Session.handshakes failed) = handshakes failed
secure fails (Session.reads failed received) = reads failed received
secure fails (Session.sends n text) = sends n text
secure fails (Session.sets_read_callback given) = sets_read_callback given
secure fails (Session.sets_close_callback given) = sets_close_callback given
secure fails Session.closes = closes fails

-- One event leads to the plain session that it leads to there.
abbrev pub Matches : Session.Session → Outcome → Type 0
Matches t o = (s : SecureSession) × (o ≡ alive s) × (plain s ≡ t)
