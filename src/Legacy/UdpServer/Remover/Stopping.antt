-- ===== src/Legacy/UdpServer/Remover/Stopping.antt =====
-- `stop` of Legacy/udpserverinstance.cpp, which joins the thread that removes threads.
use components_network.Prelude.{
  ℕ, suc, ◌+◌, ◌-◌, ◌≤◌, ◌≡◌, ◌≢◌, refl, ap, subst, ◌∙◌, true, false, List, [], ◌∷◌, ◌++◌, none,
  some, arith,
}
use components_network.Legacy.UdpServer.{Server, thread_finished_signal}
use components_network.Legacy.UdpServer.Remover.{
  Point, testing, locking, asleep, woken, sweeping, ended, Removal, Event, removes, signals,
  sets_done, test_predicate, wait_for_thread_finished, sweep, advance, notified, step, steps,
}

-- How many steps the remover makes.
abbrev pub removals : List Event → ℕ
removals [] = 0
removals (removes ∷ es) = suc (removals es)
removals (signals num ∷ es) = removals es
removals (sets_done ∷ es) = removals es

-- How many steps are left of a remover that is told to end, of `n` slots.
abbrev left : ℕ → Point → ℕ
left n testing = 1
left n locking = n + 3
left n asleep = 0
left n woken = n + 3
left n (sweeping i) = (n - i) + 2
left n ended = 0

-- It is told to end, it is awake, and at most `k` of its steps are left.
record IsEnding (n k : ℕ) (x : Removal) : Type 0 where
  count : x.server.thread_count ≡ n
  told : x.server.done ≡ true
  awake : x.point ≢ asleep
  fuel : left n x.point ≤ k

test_predicate-IsEnding :
    (n k : ℕ) (d : Server)
    → d.thread_count ≡ n
    → d.done ≡ true
    → n + 3 ≤ k
    → IsEnding n (k - 1) (test_predicate d)
unfolding test_predicate
test_predicate-IsEnding n k d c t f = ground arith

sweep-IsEnding :
    (n k i : ℕ) (d : Server)
    → d.thread_count ≡ n
    → d.done ≡ true
    → (n - i) + 2 ≤ k
    → IsEnding n (k - 1) (sweep d i)
unfolding sweep
sweep-IsEnding n k i d c t f = ground arith

advance-IsEnding :
    (n k : ℕ) (d : Server) (p : Point)
    → IsEnding n k (record { server = d; point = p })
    → IsEnding n (k - 1) (advance d p)
unfolding advance wait_for_thread_finished
advance-IsEnding n k d testing e = ground arith
advance-IsEnding n k d locking e =
    test_predicate-IsEnding n k (record d { thread_finished = false }) e.count e.told e.fuel
advance-IsEnding n k d asleep e = absurd (e.awake refl)
advance-IsEnding n k d woken e = test_predicate-IsEnding n k d e.count e.told e.fuel
advance-IsEnding n k d (sweeping i) e = sweep-IsEnding n k i d e.count e.told e.fuel
advance-IsEnding n k d ended e = ground arith

-- It is told to end.
record IsTold (n : ℕ) (x : Removal) : Type 0 where
  count : x.server.thread_count ≡ n
  told : x.server.done ≡ true

advance-IsTold :
    (n : ℕ) (d : Server) (p : Point) → d.thread_count ≡ n → d.done ≡ true → IsTold n (advance d p)
unfolding advance wait_for_thread_finished test_predicate sweep
advance-IsTold n d testing c t = ground arith
advance-IsTold n d locking c t = ground arith
advance-IsTold n d asleep c t = ground arith
advance-IsTold n d woken c t = ground arith
advance-IsTold n d (sweeping i) c t = ground arith
advance-IsTold n d ended c t = ground arith

step-IsTold : (n : ℕ) (x : Removal) (e : Event) → IsTold n x → IsTold n (step x e)
unfolding step thread_finished_signal
step-IsTold n x removes h = advance-IsTold n x.server x.point h.count h.told
step-IsTold n x (signals none) h = ground arith
step-IsTold n x (signals (some num)) h = ground arith
step-IsTold n x sets_done h = ground arith

steps-IsTold : (n : ℕ) (x : Removal) (es : List Event) → IsTold n x → IsTold n (steps x es)
unfolding steps
steps-IsTold n x [] h = h
steps-IsTold n x (e ∷ es) h = steps-IsTold n (step x e) es (step-IsTold n x e h)

left_bound : (n k : ℕ) (p : Point) → n + 3 ≤ k → left n p ≤ k
left_bound n k asleep f = omega arith
left_bound n k testing f = omega arith
left_bound n k locking f = f
left_bound n k woken f = f
left_bound n k (sweeping i) f = omega arith
left_bound n k ended f = omega arith

notified_lem : (n k : ℕ) (p : Point) → left n p ≤ k → n + 3 ≤ k → left n (notified p) ≤ k
notified_lem n k asleep h f = f
notified_lem n k testing h f = h
notified_lem n k locking h f = h
notified_lem n k woken h f = h
notified_lem n k (sweeping i) h f = h
notified_lem n k ended h f = h

notified_awake : (p : Point) → notified p ≢ asleep
notified_awake asleep e = cc
notified_awake testing e = cc
notified_awake locking e = cc
notified_awake woken e = cc
notified_awake (sweeping i) e = cc
notified_awake ended e = cc

notified_same : (p : Point) → p ≢ asleep → notified p ≡ p
notified_same asleep h = absurd (h refl)
notified_same testing h = refl
notified_same locking h = refl
notified_same woken h = refl
notified_same (sweeping i) h = refl
notified_same ended h = refl

step-IsEnding :
    (n k : ℕ) (x : Removal) (e : Event)
    → IsEnding n k x
    → IsEnding n (k - removals (e ∷ [])) (step x e)
unfolding step thread_finished_signal
step-IsEnding n k x removes h = advance-IsEnding n k x.server x.point h
step-IsEnding n k x (signals none) h = ground (arith, notified_same x.point h.awake)
step-IsEnding n k x (signals (some num)) h = ground (arith, notified_same x.point h.awake)
step-IsEnding n k x sets_done h = ground arith

removals-cons : (e : Event) (es : List Event) → removals (e ∷ es) ≡ removals (e ∷ []) + removals es
removals-cons removes es = omega arith
removals-cons (signals num) es = omega arith
removals-cons sets_done es = omega arith

steps-IsEnding :
    (n k : ℕ) (x : Removal) (es : List Event)
    → IsEnding n k x
    → IsEnding n (k - removals es) (steps x es)
unfolding steps
steps-IsEnding n k x [] h = subst (λ m. IsEnding n m x) (omega arith) h
steps-IsEnding n k x (e ∷ es) h =
    subst (λ m. IsEnding n m (steps (step x e) es)) (omega (arith, removals-cons e es))
      (steps-IsEnding n (k - removals (e ∷ [])) (step x e) es (step-IsEnding n k x e h))

left_none : (n : ℕ) (p : Point) → p ≢ asleep → left n p ≤ 0 → p ≡ ended
left_none n testing h f = absurd (omega arith)
left_none n locking h f = absurd (omega arith)
left_none n asleep h f = absurd (h refl)
left_none n woken h f = absurd (omega arith)
left_none n (sweeping i) h f = absurd (omega arith)
left_none n ended h f = refl

steps-append : (x : Removal) (es fs : List Event) → steps x (es ++ fs) ≡ steps (steps x es) fs
unfolding steps
steps-append x [] fs = refl
steps-append x (e ∷ es) fs = steps-append (step x e) es fs

signals-IsEnding :
    (n k : ℕ) (x : Removal) → IsTold n x → n + 3 ≤ k → IsEnding n k (step x (signals none))
unfolding step thread_finished_signal
signals-IsEnding n k x h f = record {
  count = h.count;
  told = h.told;
  awake = notified_awake x.point;
  fuel = notified_lem n k x.point (left_bound n k x.point f) f;
}

-- `stop` returns: wherever the remover is, and whatever the other threads do meanwhile, once `done` is
-- set and the signal is given it is at its end after at most three steps more than there are slots, so
-- that it is joined.
pub stop-ended :
    (x : Removal) (between behind : List Event)
    → x.server.thread_count + 3 ≤ removals behind
    → (steps x (sets_done ∷ between ++ signals none ∷ behind)).point ≡ ended
unfolding steps step
stop-ended x between behind h =
    let n = x.server.thread_count in
    let told = steps-IsTold n (step x sets_done) between (record { count = refl; told = refl }) in
    let y = step (steps (step x sets_done) between) (signals none) in
    let done =
      steps-IsEnding n (n + 3) y behind (signals-IsEnding n (n + 3) _ told (omega arith)) in
    ap (λ (r : Removal). r.point) (steps-append (step x sets_done) between (signals none ∷ behind))
    ∙ left_none n (steps y behind).point done.awake (omega (arith, done.fuel))
