-- ===== src/Transport/Server/Running/Serving.antt =====
-- How long a server of the transport runs, and what ends it.
use components_network.Prelude.{
  ℕ, ◌+◌, ◌≡◌, ◌≢◌, refl, subst, sym, ◌∙◌, Bytes, bytes_key, number_key, ◌==◌, Bool, true, false,
  ◌||◌, List, [], ◌∷◌, ◌++◌, Option, none, some, if◌then◌else◌, if_cases, Bool-cases, inl, inr,
  get_elem?, length, length-set, length-append, arith,
}
use components_network.Transport.Codec.{Codec, Outcome, returns, throws}
use components_network.Transport.Session.{Session, ProcessCallback, on_read, run_posted}
use components_network.Transport.Server.{ServerInstance, handle_connection, connection}
use components_network.Transport.Server.Running.{
  Status, serving, exited, terminated, any_busy, resume, start, Work, accepted, received, job,
  with_session, job_done, read_done, job_run, handle, works,
}

-- How many accepts succeed, and whether any job is run.
abbrev pub accepts_in : List Work → ℕ
accepts_in [] = 0
accepts_in (accepted ec buffer ∷ ws) = (if ec == 0 then 1 else 0) + accepts_in ws
accepts_in (received i ec bytes ∷ ws) = accepts_in ws
accepts_in (job i writable ∷ ws) = accepts_in ws

abbrev pub has_job : List Work → Bool
has_job [] = false
has_job (accepted ec buffer ∷ ws) = has_job ws
has_job (received i ec bytes ∷ ws) = has_job ws
has_job (job i writable ∷ ws) = true

-- A server that has made `n` sessions and goes on accepting, or that a job has terminated.
abbrev pub Serves : ℕ → Bool → Status → Type 0
Serves n jobs (serving d) = (d.accepting ≡ true) × (length d.sessions ≡ n)
Serves n jobs (exited d) = ⊥
Serves n jobs terminated = jobs ≡ true

resume-Serves :
    (n : ℕ) (jobs : Bool) (d : ServerInstance)
    → d.accepting ≡ true
    → length d.sessions ≡ n
    → Serves n jobs (resume d)
resume-Serves n jobs d a l =
    subst (λ b. Serves n jobs (if b || any_busy d.sessions then serving d else exited d)) (sym a)
      (a, l)

with_session-Serves :
    (n : ℕ) (jobs : Bool) (d : ServerInstance) (i : ℕ) (s : Session)
    → Serves n jobs (serving d)
    → Serves n jobs (resume (with_session d i s))
with_session-Serves n jobs d i s h =
    resume-Serves n jobs (with_session d i s) h.0 (length-set d.sessions i s ∙ h.1)

read_done-Serves :
    (n : ℕ) (jobs : Bool) (d : ServerInstance) (i ec : ℕ) (bytes : Bytes) (o : Option Session)
    → Serves n jobs (serving d)
    → Serves n jobs (read_done d i ec bytes o)
read_done-Serves n jobs d i ec bytes none h = h
read_done-Serves n jobs d i ec bytes (some s) h =
    if_cases (Serves n jobs) s.reading (λ t. with_session-Serves n jobs d i (on_read s ec bytes) h)
      (λ f. h)

job_done-Serves :
    (n : ℕ) (d : ServerInstance) (i : ℕ) (s : Session) (writable : Bool)
    (r : Outcome (Unit {0}) × Session)
    → Serves n true (serving d)
    → Serves n true (job_done d i s writable r)
job_done-Serves n d i s writable (throws e, s') h = refl
job_done-Serves n d i s writable (returns u, s') h =
    if_cases (Serves n true) (writable || (length s'.sent == length s.sent))
      (λ t. with_session-Serves n true d i s' h) (λ f. refl)

job_run-Serves :
    (c : Codec) (callback : ProcessCallback) (n : ℕ) (d : ServerInstance) (i : ℕ) (writable : Bool)
    (o : Option Session)
    → Serves n true (serving d)
    → Serves n true (job_run c callback d i writable o)
job_run-Serves c callback n d i writable none h = h
job_run-Serves c callback n d i writable (some s) h =
    job_done-Serves n d i s writable (run_posted c callback s) h

accepted-Serves :
    (n : ℕ) (jobs : Bool) (d : ServerInstance) (ec : ℕ) (buffer : Bytes)
    → Serves n jobs (serving d)
    → Serves (n + (if ec == 0 then 1 else 0)) jobs (resume (handle_connection d ec buffer))
unfolding handle_connection
accepted-Serves n jobs d ec buffer h = elim (Bool-cases (ec == 0)) [
  | inl e ↦ rw e (
      resume-Serves (n + 1) jobs
        (record d {
          sessions = d.sessions ++ connection buffer d.token_list ∷ [];
          accepting = true;
        })
        refl (omega (arith, length-append d.sessions (connection buffer d.token_list ∷ []), h.1)))
  | inr e ↦
      rw e (resume-Serves (n + 0) jobs (record d { accepting = true }) refl (omega (arith, h.1)))
]

||-true : (b : Bool) → (b || true) ≡ true
||-true true = refl
||-true false = refl

works-Serves :
    (c : Codec) (callback : ProcessCallback) (n : ℕ) (jobs : Bool) (s : Status) (ws : List Work)
    → Serves n jobs s
    → Serves (n + accepts_in ws) (jobs || has_job ws) (works c callback s ws)
unfolding works handle
works-Serves c callback n jobs (serving d) [] h = (h.0, omega (arith, h.1))
works-Serves c callback n jobs (exited d) ws h = absurd h
works-Serves c callback n jobs terminated [] h = rw h refl
works-Serves c callback n jobs terminated (w ∷ ws) h = rw h refl
works-Serves c callback n jobs (serving d) (accepted ec buffer ∷ ws) h =
    let x = if ec == 0 then 1 else 0 in
    let next : Serves (n + x) jobs (handle c callback d (accepted ec buffer)) =
      subst
        (λ b. Serves (n + x) jobs (if b then resume (handle_connection d ec buffer) else serving d))
        (sym h.0) (accepted-Serves n jobs d ec buffer h) in
    subst
      (λ m.
        Serves m (jobs || has_job ws)
          (works c callback (handle c callback d (accepted ec buffer)) ws))
      (omega arith)
      (works-Serves c callback (n + x) jobs (handle c callback d (accepted ec buffer)) ws next)
works-Serves c callback n jobs (serving d) (received i ec bytes ∷ ws) h =
    works-Serves c callback n jobs (handle c callback d (received i ec bytes)) ws
      (read_done-Serves n jobs d i ec bytes (get_elem? d.sessions i) h)
works-Serves c callback n jobs (serving d) (job i writable ∷ ws) h =
    subst
      (λ b.
        Serves (n + accepts_in ws) b (works c callback (handle c callback d (job i writable)) ws))
      (sym (||-true jobs))
      (works-Serves c callback n true (handle c callback d (job i writable)) ws
        (job_run-Serves c callback n d i writable (get_elem? d.sessions i) h))

-- A server that accepts connections and has a thread never returns from `start`, whatever its
-- handlers do: through any sequence of accepts, reads and jobs it goes on accepting, with one more
-- session for each accept without an error, unless a job has ended the program.
pub start-Serves :
    (c : Codec) (callback : ProcessCallback) (d : ServerInstance) (ws : List Work)
    → d.thread_count ≢ 0
    → d.accepting ≡ true
    → Serves (length d.sessions + accepts_in ws) (has_job ws) (works c callback (start d) ws)
unfolding start
start-Serves c callback d ws t a = works-Serves c callback (length d.sessions) false (start d) ws (
    if_cases (Serves (length d.sessions) false) (d.thread_count == 0)
      (λ e. absurd (t (ground (arith, e)))) (λ f. resume-Serves (length d.sessions) false d a refl))
