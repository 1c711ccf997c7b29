-- ===== src/Transport/Server/Running/Rejecting.antt =====
-- What a running server of the transport makes of a packet that its own client has printed.
use components_network.Prelude.{
  ℕ, zero, suc, ◌≡◌, refl, subst, ◌∙◌, Bytes, bytes_key, number_key, ◌==◌, Bool, true, false, ◌||◌,
  List, [], ◌∷◌, ◌++◌, Option, none, some, if_cases, ltb, get_elem?, length, length-append, arith,
  All-get_elem?, All-set,
}
use components_network.Transport.Codec.{
  TransportPacket, fresh, Codec, IsLossless, Outcome, returns, throws,
}
use components_network.Transport.Packet.{to_string, from_string}
use components_network.Transport.Session.{
  Session, SubPacketsMap, ProcessCallback, c_str, on_read, run_posted, process, contains, respond,
  serve, serve_collected, serve_parsed, process_sub_packet,
}
use components_network.Transport.Session.Tokens.{process-to_string_rejected}
use components_network.Transport.Server.{
  ServerInstance, IsGuarded, Event, accepts, initial, step, run, step-IsGuarded, run-IsGuarded,
  initial-IsGuarded,
}
use components_network.Transport.Server.Running.{
  Status, serving, exited, terminated, resume, any_busy, start, Work, accepted, received, job,
  with_session, job_done, read_done, job_run, handle, works,
}

-- A session keeps its list of tokens through every job.
abbrev Keeps : Session → Outcome (Unit {0}) × Session → Type 0
Keeps s r = r.1.token_list ≡ s.token_list

module _ (c : Codec) (callback : ProcessCallback) where
  respond-tokens :
      (s : Session) (request : TransportPacket)
      → (respond c callback s request).token_list ≡ s.token_list
  unfolding respond
  respond-tokens s request =
      if_cases (λ (t : Session). t.token_list ≡ s.token_list) (callback request.payload []).0
        (λ t. refl) (λ f. refl)

  serve_collected-Keeps :
      (s : Session) (r : (Outcome Bool × TransportPacket) × SubPacketsMap)
      → Keeps s (serve_collected c callback s r)
  unfolding serve_collected
  serve_collected-Keeps s ((returns true, p), m) = respond-tokens _ p
  serve_collected-Keeps s ((returns false, p), m) = refl
  serve_collected-Keeps s ((throws e, p), m) = refl

  serve-Keeps : (s : Session) (request : TransportPacket) → Keeps s (serve c callback s request)
  unfolding serve
  serve-Keeps s request =
      if_cases (Keeps s) (contains s.token_list request.token)
        (λ t.
          if_cases (Keeps s) (ltb 0 request.sub_packet_total_count)
            (λ t. serve_collected-Keeps s (process_sub_packet c s.sub_packets_map request))
            (λ f. respond-tokens s request))
        (λ f. refl)

  serve_parsed-Keeps :
      (s : Session) (r : Outcome Bool × TransportPacket) → Keeps s (serve_parsed c callback s r)
  unfolding serve_parsed
  serve_parsed-Keeps s (returns true, request) = serve-Keeps s request
  serve_parsed-Keeps s (returns false, request) = refl
  serve_parsed-Keeps s (throws e, request) = refl

  run_posted-Keeps : (s : Session) (n : ℕ) → s.posted ≡ n → Keeps s (run_posted c callback s)
  unfolding run_posted process
  run_posted-Keeps s zero e = rw (e, run_posted) refl
  run_posted-Keeps s (suc n) e =
      rw (e, run_posted)
        (serve_parsed-Keeps (record s { posted = n }) (from_string c (c_str s.buffer) fresh))

abbrev Guards : Status → Type 0
Guards (serving d) = IsGuarded d
Guards (exited d) = IsGuarded d
Guards terminated = Unit {0}

resume-Guards : (d : ServerInstance) → IsGuarded d → Guards (resume d)
resume-Guards d g = if_cases Guards (d.accepting || any_busy d.sessions) (λ t. g) (λ f. g)

with_session-IsGuarded :
    (d : ServerInstance) (i : ℕ) (s s' : Session)
    → IsGuarded d
    → get_elem? d.sessions i ≡ some s
    → s'.token_list ≡ s.token_list
    → IsGuarded (with_session d i s')
with_session-IsGuarded d i s s' g at e = record {
  no_empty_token = g.no_empty_token;
  shared =
      All-set (λ t. t.token_list ≡ d.token_list) d.sessions i s' g.shared
        (e ∙ All-get_elem? (λ t. t.token_list ≡ d.token_list) d.sessions i s g.shared at);
}

on_read-tokens :
    (s : Session) (ec : ℕ) (bytes : Bytes) → (on_read s ec bytes).token_list ≡ s.token_list
unfolding on_read
on_read-tokens s ec bytes =
    if_cases (λ (t : Session). t.token_list ≡ s.token_list) (ec == 2) (λ t. refl) (λ f. refl)

read_done-Guards :
    (d : ServerInstance) (i ec : ℕ) (bytes : Bytes) (o : Option Session)
    → get_elem? d.sessions i ≡ o
    → IsGuarded d
    → Guards (read_done d i ec bytes o)
read_done-Guards d i ec bytes none at g = g
read_done-Guards d i ec bytes (some s) at g =
    if_cases Guards s.reading
      (λ t.
        resume-Guards _
          (with_session-IsGuarded d i s (on_read s ec bytes) g at (on_read-tokens s ec bytes)))
      (λ f. g)

job_done-Guards :
    (d : ServerInstance) (i : ℕ) (s : Session) (writable : Bool) (r : Outcome (Unit {0}) × Session)
    → get_elem? d.sessions i ≡ some s
    → IsGuarded d
    → Keeps s r
    → Guards (job_done d i s writable r)
job_done-Guards d i s writable (throws e, s') at g k = tt
job_done-Guards d i s writable (returns u, s') at g k =
    if_cases Guards (writable || (length s'.sent == length s.sent))
      (λ t. resume-Guards _ (with_session-IsGuarded d i s s' g at k)) (λ f. tt)

module _ (c : Codec) (callback : ProcessCallback) where
  job_run-Guards :
      (d : ServerInstance) (i : ℕ) (writable : Bool) (o : Option Session)
      → get_elem? d.sessions i ≡ o
      → IsGuarded d
      → Guards (job_run c callback d i writable o)
  job_run-Guards d i writable none at g = g
  job_run-Guards d i writable (some s) at g =
      job_done-Guards d i s writable (run_posted c callback s) at g
        (run_posted-Keeps c callback s s.posted refl)

  handle-Guards : (d : ServerInstance) (w : Work) → IsGuarded d → Guards (handle c callback d w)
  unfolding handle step
  handle-Guards d (accepted ec buffer) g =
      if_cases Guards d.accepting (λ t. resume-Guards _ (step-IsGuarded d (accepts ec buffer) g))
        (λ f. g)
  handle-Guards d (received i ec bytes) g =
      read_done-Guards d i ec bytes (get_elem? d.sessions i) refl g
  handle-Guards d (job i writable) g = job_run-Guards d i writable (get_elem? d.sessions i) refl g

  works-Guards : (s : Status) (ws : List Work) → Guards s → Guards (works c callback s ws)
  unfolding works
  works-Guards s [] g = g
  works-Guards (serving d) (w ∷ ws) g =
      works-Guards (handle c callback d w) ws (handle-Guards d w g)
  works-Guards (exited d) (w ∷ ws) g = g
  works-Guards terminated (w ∷ ws) g = g

  start-Guards : (d : ServerInstance) → IsGuarded d → Guards (start d)
  unfolding start
  start-Guards d g = if_cases Guards (d.thread_count == 0) (λ t. g) (λ f. resume-Guards d g)

  posted_rejected :
      (s : Session) (p : TransportPacket) (n : ℕ)
      → IsLossless c
      → contains s.token_list [] ≡ false
      → s.posted ≡ suc n
      → c_str s.buffer ≡ to_string c p
      → run_posted c callback s
        ≡ (returns tt, record s { posted = n; sent = s.sent ++ to_string c p ∷ [] })
  unfolding run_posted
  posted_rejected s p n l h e k =
      rw (e, k) (process-to_string_rejected c callback (record s { posted = n }) p l h)

  job_done-terminated :
      (d : ServerInstance) (i n : ℕ) (s : Session) (text : Bytes)
      → job_done d i s false (returns tt, record s { posted = n; sent = s.sent ++ text ∷ [] })
        ≡ terminated
  job_done-terminated d i n s text = ground (arith, length-append s.sent (text ∷ []))

  terminated_stays : (ws : List Work) → works c callback terminated ws ≡ terminated
  unfolding works
  terminated_stays [] = refl
  terminated_stays (w ∷ ws) = refl

  -- With a lossless codec, a client that is gone can end the program of the server: whatever was done
  -- to the server before and whatever its handlers have done, where a session has a job posted and its
  -- buffer holds, up to the first NUL, any packet as the transport prints it, the job answers the packet,
  -- the write throws, and the exception leaves the thread.
  pub works-terminated :
      (es : List Event) (before behind : List Work) (d : ServerInstance) (s : Session) (i n : ℕ)
      (p : TransportPacket)
      → IsLossless c
      → works c callback (start (run initial es)) before ≡ serving d
      → get_elem? d.sessions i ≡ some s
      → s.posted ≡ suc n
      → c_str s.buffer ≡ to_string c p
      → works c callback (serving d) (job i false ∷ behind) ≡ terminated
  unfolding works handle
  works-terminated es before behind d s i n p l reached at e k =
      let g : IsGuarded d = subst Guards reached (
        works-Guards (start (run initial es)) before
          (start-Guards (run initial es) (run-IsGuarded initial es initial-IsGuarded))) in
      let shared = All-get_elem? (λ t. t.token_list ≡ d.token_list) d.sessions i s g.shared at in
      let done = posted_rejected s p n l (rw shared g.no_empty_token) e k in
      rw (at, done, job_done-terminated d i n s (to_string c p)) (terminated_stays behind)
