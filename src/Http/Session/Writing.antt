-- ===== src/Http/Session/Writing.antt =====
-- src/HTTP/connectionsession: the one `m_response` of a connection, which `sendResponse` replaces and
-- an asynchronous write reads until it is done.
use components_network.Prelude.{
  ℕ, ◌+◌, ◌≤◌, ◌≡◌, ◌↔◌, refl, ap, subst, Bool, true, false, ◌&&◌, List, [], ◌∷◌, length, arith,
  leb, if_cases, Bool-cases, inl, inr, if◌then◌else◌,
}
use native.Mathlib.Decide.{dec_lt}
use components_network.Http.Types.{Reasons}
use components_network.Http.Socket.{ErrorCode, success, is_error}
use components_network.Http.Session.{
  Session, Message, Reply, response, error_response, Surroundings, Files, send_response,
  send_error_response, close_connection, perform, handle_requests, on_read, on_deadline, tick,
  replies_to, method_of, packet_of, is_silent,
}
use components_network.Http.Session.Deadline
use components_network.Http.Session.Deadline.{serves, begins, reads, ticks}

-- A session with whether a write of its response is outstanding; or a response was replaced while
-- a write was reading it.
pub data Outcome : Type 0 where
  goes : Bool → Session → Outcome
  undefined : Outcome

-- `sendResponse`, which leads to this session.
abbrev pub sends : Bool → Session → Outcome
sends writing s = if writing then undefined else goes true s

abbrev pub and_then : (Bool → Session → Outcome) → Outcome → Outcome
and_then next (goes writing s) = next writing s
and_then next undefined = undefined

-- The replies of a processor.
unfoldable pub write_all : Files → Reasons → List Reply → Bool → Session → Outcome
write_all files reason [] writing s = goes writing s
write_all files reason (response pkt ∷ rs) writing s =
    and_then (write_all files reason rs) (sends writing (send_response files reason s pkt))
write_all files reason (error_response status ∷ rs) writing s =
    and_then (write_all files reason rs) (sends writing (send_error_response reason s status))

-- The handler of the read.
unfoldable pub handle_read : Surroundings → ErrorCode → Message → Bool → Session → Outcome
unfolding write_all
handle_read w ec m writing s =
    if is_silent ec
    then goes writing (record s { reading = false; request = m })
    else (if is_error ec
        then goes writing (close_connection w.shutdown (record s { reading = false; request = m }))
        else and_then (λ b t. goes b (handle_requests w.handshake t))
            (write_all w.files w.reason
              (replies_to s.processors (method_of w.indeterminate m.verb) (packet_of m)) writing
              (record s { reading = false; request = m })))

-- The timer.
unfoldable pub handle_tick : Surroundings → ℕ → Bool → Session → Outcome
handle_tick w now writing s =
    if s.waiting && leb s.deadline now
    then sends writing (on_deadline w.files w.reason w.shutdown s)
    else goes writing s

-- What happens to a connection, and the end of its write.
pub data Event : Type 0 where
  happens : Deadline.Event → Event
  written : Event

unfoldable pub handle : Event → Bool → Session → Outcome
unfolding handle_read handle_tick
handle (happens (serves ps)) writing s = goes writing (record s { processors = ps })
handle (happens (begins w)) writing s = goes writing (handle_requests w.handshake s)
handle (happens (reads w ec m)) writing s = handle_read w ec m writing s
handle (happens (ticks w now)) writing s = handle_tick w now writing s
handle written writing s = goes false s

unfoldable pub steps : Outcome → List Event → Outcome
unfolding handle
steps o [] = o
steps o (e ∷ es) = steps (and_then (handle e) o) es

-- The same with the writes left out.
abbrev pub happenings : List Event → List Deadline.Event
happenings [] = []
happenings (happens e ∷ es) = e ∷ happenings es
happenings (written ∷ es) = happenings es

-- The session, if the outcome has one, is this one.
abbrev pub Agrees : Session → Outcome → Type 0
Agrees t (goes writing s) = s ≡ t
Agrees t undefined = Unit {0}

sends-Agrees : (writing : Bool) (s : Session) → Agrees s (sends writing s)
sends-Agrees writing s = if_cases (Agrees s) writing (λ t. tt) (λ f. refl)

module _ (files : Files) (reason : Reasons) where
  write_all-Agrees :
      (rs : List Reply) (writing : Bool) (s : Session)
      → Agrees (perform files reason s rs) (write_all files reason rs writing s)
  unfolding write_all
  write_all-Agrees [] writing s = refl
  write_all-Agrees (response pkt ∷ rs) true s = tt
  write_all-Agrees (response pkt ∷ rs) false s =
      write_all-Agrees rs true (send_response files reason s pkt)
  write_all-Agrees (error_response status ∷ rs) true s = tt
  write_all-Agrees (error_response status ∷ rs) false s =
      write_all-Agrees rs true (send_error_response reason s status)

and_then-Agrees :
    (f : Session → Session) (t : Session) (o : Outcome)
    → Agrees t o
    → Agrees (f t) (and_then (λ b s. goes b (f s)) o)
and_then-Agrees f t (goes writing s) h = ap f h
and_then-Agrees f t undefined h = tt

handle-Agrees :
    (e : Deadline.Event) (writing : Bool) (s : Session)
    → Agrees (Deadline.step s e) (handle (happens e) writing s)
unfolding handle handle_read handle_tick Deadline.step on_read tick
handle-Agrees (serves ps) writing s = refl
handle-Agrees (begins w) writing s = refl
handle-Agrees (reads w ec m) writing s = elim (Bool-cases (is_silent ec)) [
  | inl e ↦ rw e refl
  | inr e ↦ elim (Bool-cases (is_error ec)) [
    | inl f ↦ rw (e, f) refl
    | inr f ↦
        rw (e, f)
          (and_then-Agrees (handle_requests w.handshake) _ _ (
            write_all-Agrees w.files w.reason
              (replies_to s.processors (method_of w.indeterminate m.verb) (packet_of m)) writing
              (record s { reading = false; request = m })))
  ]
]
handle-Agrees (ticks w now) writing s = elim (Bool-cases (s.waiting && leb s.deadline now)) [
  | inl e ↦ rw e (sends-Agrees writing (on_deadline w.files w.reason w.shutdown s))
  | inr e ↦ rw e refl
]

-- As long as no response is replaced while it is written, the session is what the same events make of it
-- where writes take no time.
pub steps-Agrees :
    (t : Session) (o : Outcome) (es : List Event)
    → Agrees t o
    → Agrees (Deadline.run t (happenings es)) (steps o es)
unfolding steps handle Deadline.run
steps-Agrees t o [] h = h
steps-Agrees t (goes writing s) (happens e ∷ es) h =
    steps-Agrees (Deadline.step t e) (handle (happens e) writing s) es (
      subst (λ u. Agrees (Deadline.step u e) (handle (happens e) writing s)) h
        (handle-Agrees e writing s))
steps-Agrees t (goes writing s) (written ∷ es) h = steps-Agrees t (goes false s) es h
steps-Agrees t undefined (happens e ∷ es) h = steps-Agrees (Deadline.step t e) undefined es tt
steps-Agrees t undefined (written ∷ es) h = steps-Agrees t undefined es tt

module _ (files : Files) (reason : Reasons) where
  write_all-undefined :
      (rs : List Reply) (writing : Bool) (s : Session)
      → 2 ≤ length rs + (if writing then 1 else 0)
      → write_all files reason rs writing s ≡ undefined
  unfolding write_all
  write_all-undefined [] true s h = absurd (omega arith)
  write_all-undefined [] false s h = absurd (omega arith)
  write_all-undefined (response pkt ∷ rs) true s h = refl
  write_all-undefined (error_response status ∷ rs) true s h = refl
  write_all-undefined (response pkt ∷ rs) false s h =
      write_all-undefined rs true (send_response files reason s pkt) (omega arith)
  write_all-undefined (error_response status ∷ rs) false s h =
      write_all-undefined rs true (send_error_response reason s status) (omega arith)

  write_all-goes :
      (rs : List Reply) (writing : Bool) (s : Session)
      → length rs + (if writing then 1 else 0) ≤ 1
      → (b : Bool) × (t : Session) × (write_all files reason rs writing s ≡ goes b t)
  unfolding write_all
  write_all-goes [] writing s h = (writing, s, refl)
  write_all-goes (response pkt ∷ []) true s h = absurd (omega arith)
  write_all-goes (error_response status ∷ []) true s h = absurd (omega arith)
  write_all-goes (response pkt ∷ []) false s h = (true, send_response files reason s pkt, refl)
  write_all-goes (error_response status ∷ []) false s h =
      (true, send_error_response reason s status, refl)
  write_all-goes (r ∷ r' ∷ rs) true s h = absurd (omega arith)
  write_all-goes (r ∷ r' ∷ rs) false s h = absurd (omega arith)

-- A request that is read makes a connection replace a response while a write reads it, exactly if
-- the replies to it, with the one before if that is still being written, are more than one.
pub handle-reads_iff :
    (w : Surroundings) (m : Message) (writing : Bool) (s : Session)
    → let replies = replies_to s.processors (method_of w.indeterminate m.verb) (packet_of m) in
      (handle (happens (reads w success m)) writing s ≡ undefined)
      ↔ (2 ≤ length replies + (if writing then 1 else 0))
unfolding handle handle_read
handle-reads_iff w m writing s =
    let replies = replies_to s.processors (method_of w.indeterminate m.verb) (packet_of m) in
    let s' = record s { reading = false; request = m } in
    (
      λ u. elim (dec_lt 1 (length replies + (if writing then 1 else 0))) [
        | yes p ↦ omega (arith, p)
        | no p ↦
            let (b, t, e) = write_all-goes w.files w.reason replies writing s' (omega (arith, p)) in
            let same = ap (and_then (λ b t. goes b (handle_requests w.handshake t))) e in cc
      ],
      λ h.
          ap (and_then (λ b t. goes b (handle_requests w.handshake t)))
            (write_all-undefined w.files w.reason replies writing s' h),
    )
