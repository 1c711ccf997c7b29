-- ===== src/BasicSocket/Reading.antt =====
-- What the read callback of a session gets.
use components_network.Prelude.{
  All-snoc, ℕ, ◌≡◌, refl, sym, ap, subst, if◌then◌else◌, ◌∙◌, ◌≤◌, ltb, min, Bytes, Bool, true,
  false, ◌&&◌, ◌||◌, List, [], ◌∷◌, ◌++◌, take, drop, length, arith, append_assoc, append-nil, All,
  if_cases, take-append, take-append-drop, length-take,
}
use components_network.BasicSocket.{
  Session, buffer_size, on_read, Event, starts, connects, arrives, reads, sends, sets_read_callback,
  sets_close_callback, closes, start, set_read_callback, set_close_callback, close, send, step,
  steps,
}

abbrev pub joined : List Bytes → Bytes
joined [] = []
joined (t ∷ ts) = t ++ joined ts

joined_snoc : (ts : List Bytes) (t : Bytes) → joined (ts ++ t ∷ []) ≡ joined ts ++ t
joined_snoc [] t = append-nil t
joined_snoc (u ∷ ts) t = ap (◌++◌ u) (joined_snoc ts t) ∙ sym (append_assoc u (joined ts) t)

-- All that arrives.
abbrev pub arrived : List Event → Bytes
arrived [] = []
arrived (arrives more ∷ es) = more ++ arrived es
arrived (_ ∷ es) = arrived es

-- What the callback got, and behind it what waits to be read.
abbrev pub seen : Session → Bytes
seen s = joined s.read_calls ++ s.unread

abbrev data_of : Event → Bytes
data_of (arrives more) = more
data_of _ = []

-- Does an event leave the connection and the read callback in place?
abbrev pub keeps_connection : Event → Bool
keeps_connection (starts resolver_throws host) = false
keeps_connection (connects ec) = false
keeps_connection (closes cancel_throws shutdown_throws) = false
keeps_connection (sets_read_callback given) = given
keeps_connection _ = true

-- What a session with a read callback has seen, and that its texts fill no more than a buffer.
abbrev pub Fits : Bytes → Type 0
Fits text = (1 ≤ length text) × (length text ≤ buffer_size)

seen-on_read :
    (given : ℕ) (s : Session) → s.has_read_callback ≡ true → seen (on_read false given s) ≡ seen s
unfolding on_read
seen-on_read given s h =
    let size = min given buffer_size in
    rw (h, take-append (take size s.unread) (drop (length (take size s.unread)) s.buffer_data))
      (ap (λ t. t ++ drop size s.unread) (joined_snoc s.read_calls (take size s.unread))
        ∙ append_assoc (joined s.read_calls) (take size s.unread) (drop size s.unread)
        ∙ ap (◌++◌ (joined s.read_calls)) (take-append-drop size s.unread))

on_read-Fits :
    (given : ℕ) (s : Session)
    → s.has_read_callback ≡ true
    → 1 ≤ length (take given s.unread)
    → All Fits s.read_calls
    → All Fits (on_read false given s).read_calls
unfolding on_read
on_read-Fits given s h some' f =
    let size = min given buffer_size in
    rw (h, take-append (take size s.unread) (drop (length (take size s.unread)) s.buffer_data))
      (All-snoc Fits s.read_calls (take size s.unread) f
        (grind (arith, length-take size s.unread, length-take given s.unread)))

-- What is kept over the events: the connection, the callback, and texts that fit the buffer.
abbrev pub Listens : Session → Type 0
Listens s = (s.is_open ≡ true) × (s.has_read_callback ≡ true) × All Fits s.read_calls

-- What becomes of the session where no data arrives.
Same : Session → Session → Type 0
Same s s' = Listens s' × (seen s' ≡ seen s ++ [])

unchanged : (s : Session) → Listens s → Same s s
unfolding Same
unchanged s l = (l, sym (append-nil (seen s)))

on_read_kept :
    (ec : Bool) (given : ℕ) (s : Session)
    → ((on_read ec given s).has_read_callback ≡ s.has_read_callback)
      × ((on_read ec given s).is_open ≡ s.is_open)
unfolding on_read
on_read_kept true given s = (refl, refl)
on_read_kept false given s =
    if_cases {A = Session}
      (λ t. (t.has_read_callback ≡ s.has_read_callback) × (t.is_open ≡ s.is_open))
      s.has_read_callback (λ t. (refl, refl)) (λ f. (refl, refl))

on_read-Same :
    (ec : Bool) (given : ℕ) (s : Session)
    → Listens s
    → (ec || ltb 0 (length (take given s.unread))) ≡ true
    → Same s (on_read ec given s)
unfolding Same on_read
on_read-Same true given s l n = unchanged s l
on_read-Same false given s l n =
    let kept = on_read_kept false given s in
    (
      (kept.1 ∙ l.0, kept.0 ∙ l.1, on_read-Fits given s l.1 (ground arith) l.2),
      seen-on_read given s l.1 ∙ sym (append-nil (seen s)),
    )

step-seen :
    (s : Session) (e : Event)
    → keeps_connection e ≡ true
    → Listens s
    → Listens (step s e) × (seen (step s e) ≡ seen s ++ data_of e)
unfolding Same step start set_read_callback set_close_callback close send
step-seen s (starts resolver_throws host) h l = absurd (cc)
step-seen s (connects ec) h l = absurd (cc)
step-seen s (closes cancel_throws shutdown_throws) h l = absurd (cc)
step-seen s (arrives more) h l =
    let t = record s { unread = s.unread ++ more } in
    subst (λ (u : Session). Listens u × (seen u ≡ seen s ++ more))
      (ap (λ b. if b then t else s) (sym l.0))
      (l, sym (append_assoc (joined s.read_calls) s.unread more))
step-seen s (reads ec given) h l =
    if_cases (Same s) (s.reading && (ec || ltb 0 (length (take given s.unread))))
      (λ t. on_read-Same ec given s l (ground arith)) (λ f. unchanged s l)
step-seen s (sends count text) h l = unchanged s l
step-seen s (sets_read_callback given) h l = ((l.0, h, l.2), sym (append-nil (seen s)))
step-seen s (sets_close_callback given) h l = unchanged s l

arrived_cons : (e : Event) (es : List Event) → data_of e ++ arrived es ≡ arrived (e ∷ es)
arrived_cons (arrives more) es = refl
arrived_cons (starts resolver_throws host) es = refl
arrived_cons (connects ec) es = refl
arrived_cons (reads ec given) es = refl
arrived_cons (sends count text) es = refl
arrived_cons (sets_read_callback given) es = refl
arrived_cons (sets_close_callback given) es = refl
arrived_cons (closes cancel_throws shutdown_throws) es = refl

-- Whatever happens to a session that is connected and has a read callback, while it keeps both (it is
-- neither started again nor closed; reads that fail and calls of `send` are among the events): the
-- texts that the callback is called with and what was not read yet are, joined, those of before
-- with all that arrived behind them, in its order and without a gap, and each text holds from one
-- to 4096 characters.
pub steps-seen :
    (s : Session) (es : List Event)
    → All (λ e. keeps_connection e ≡ true) es
    → Listens s
    → Listens (steps s es) × (seen (steps s es) ≡ seen s ++ arrived es)
unfolding steps
steps-seen s [] h l = (l, sym (append-nil (seen s)))
steps-seen s (e ∷ es) h l =
    let one = step-seen s e h.0 l in
    let all = steps-seen (step s e) es h.1 one.0 in
    (
      all.0,
      all.1
          ∙ ap (λ t. t ++ arrived es) one.1
          ∙ append_assoc (seen s) (data_of e) (arrived es)
          ∙ ap (◌++◌ (seen s)) (arrived_cons e es),
    )
