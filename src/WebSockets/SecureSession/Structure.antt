-- ===== src/WebSockets/SecureSession/Structure.antt =====
-- The two classes of sessions as one structure.
use std.Path.{PathP}
use std.Equiv.{◌≃◌, iso_to_equiv}
use std.Univalence.{ua}
use components_network.Prelude.{ℕ, ◌≡◌, refl, Bytes, Bool, false, List, Option, none, some, arith}
use components_network.WebSockets.Session
use components_network.WebSockets.SecureSession.{
  SecureSession, on_handshake, on_read, send, close, set_read_callback, set_close_callback,
}
use components_network.WebSockets.SecureSession.Plain.{plain}

-- The operations of a class of sessions, and what is to be seen of a session.
abbrev pub Operations : Type 0 → Type 0
Operations S =
    (S → Bool → S)
    × (S → Bool × Bytes → S)
    × (S → Option ℕ × Bytes → S)
    × (S → Bool → S)
    × (S → Bool → S)
    × (S → Unit {0} → S)
    × (S → Bool)
    × (S → List Bytes)
    × (S → ℕ)
    × (S → List Bytes)

abbrev pub secure_operations : Operations SecureSession
secure_operations = (
  on_handshake,
  λ s m. on_read s m.0 m.1,
  λ s m. (send m.0 s m.1).1,
  set_read_callback,
  set_close_callback,
  λ s u. (close false s).0,
  λ s. s.connected,
  λ s. s.read_calls,
  λ s. s.close_calls,
  λ s. s.sent,
)

abbrev pub plain_operations : Operations Session.Session
plain_operations = (
  Session.on_handshake,
  λ s m. Session.on_read s m.0 m.1,
  λ s m. (Session.send m.0 s m.1).1,
  Session.set_read_callback,
  Session.set_close_callback,
  λ s u. Session.close s,
  λ s. s.connected,
  λ s. s.read_calls,
  λ s. s.close_calls,
  λ s. s.sent,
)

-- A class of sessions with its operations.
abbrev pub Class : Type 1
Class = (S : Type 0) × Operations S

abbrev pub secure_class : Class
secure_class = (SecureSession, secure_operations)

abbrev pub plain_class : Class
plain_class = (Session.Session, plain_operations)

abbrev secure_of : Session.Session → SecureSession
secure_of s = record {
  host = s.host;
  connected = s.connected;
  pending = s.pending;
  buffer = s.buffer;
  has_read_callback = s.has_read_callback;
  has_close_callback = s.has_close_callback;
  read_calls = s.read_calls;
  close_calls = s.close_calls;
  sent = s.sent;
  closings = s.closings;
}

abbrev same_fields : SecureSession ≃ Session.Session
same_fields =
    iso_to_equiv (record { fun = plain; inv = secure_of; rinv = λ s. refl; linv = λ s. refl })

-- An operation, and an observation, over the path of an equivalence that they agree along.
operation_over :
    {A B X : Type 0} (e : A ≃ B) (f : A → X → A) (g : B → X → B)
    → ((a : A) (x : X) → e.0 (f a x) ≡ g (e.0 a) x)
    → PathP (λ i. ua e i → X → ua e i) f g
operation_over e f g h =
    λ i a x. vin i (f a x) (hcom 1 0 (g (vproj i a e) x) [ i = 0 ↦ j. h a x j | i = 1 ↦ _. g a x ])

observation_over :
    {A B X : Type 0} (e : A ≃ B) (f : A → X) (g : B → X)
    → ((a : A) → f a ≡ g (e.0 a))
    → PathP (λ i. ua e i → X) f g
observation_over e f g h = λ i a. hcom 1 0 (g (vproj i a e)) [ i = 0 ↦ j. h a j | i = 1 ↦ _. g a ]

on_handshake-plain :
    (s : SecureSession) (failed : Bool)
    → plain (on_handshake s failed) ≡ Session.on_handshake (plain s) failed
unfolding on_handshake Session.on_handshake
on_handshake-plain s failed = ground arith

on_read-plain :
    (s : SecureSession) (m : Bool × Bytes)
    → plain (on_read s m.0 m.1) ≡ Session.on_read (plain s) m.0 m.1
unfolding on_read Session.on_read
on_read-plain s m = ground arith

send-plain :
    (s : SecureSession) (m : Option ℕ × Bytes)
    → plain (send m.0 s m.1).1 ≡ (Session.send m.0 (plain s) m.1).1
unfolding send Session.send
send-plain s (none, text) = refl
send-plain s (some n, text) = refl

close-plain : (s : SecureSession) → plain (close false s).0 ≡ Session.close (plain s)
unfolding close Session.close
close-plain s = ground arith

-- The class of secure sessions and that of plain ones are the same structure, their handlers of the
-- handshake and of a read, `send`, the setters of the callbacks, and `close` of a stream that does not
-- fail to close, with what is seen of a session (whether it is connected, what its callbacks were
-- called with, and what it wrote): there is a path between the two.
pub same_class : secure_class ≡ plain_class
unfolding set_read_callback set_close_callback Session.set_read_callback Session.set_close_callback
same_class = λ i. (
  ua same_fields i,
  (
    operation_over same_fields on_handshake Session.on_handshake on_handshake-plain i,
    operation_over same_fields _ (λ s m. Session.on_read s m.0 m.1) on_read-plain i,
    operation_over same_fields _ (λ s m. (Session.send m.0 s m.1).1) send-plain i,
    operation_over same_fields set_read_callback Session.set_read_callback (λ s given. refl) i,
    operation_over same_fields set_close_callback Session.set_close_callback (λ s given. refl) i,
    operation_over same_fields _ (λ s u. Session.close s) (λ s u. close-plain s) i,
    observation_over same_fields _ (λ (s : Session.Session). s.connected) (λ s. refl) i,
    observation_over same_fields _ (λ (s : Session.Session). s.read_calls) (λ s. refl) i,
    observation_over same_fields _ (λ (s : Session.Session). s.close_calls) (λ s. refl) i,
    observation_over same_fields _ (λ (s : Session.Session). s.sent) (λ s. refl) i,
  ),
)
