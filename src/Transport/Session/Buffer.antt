-- ===== src/Transport/Session/Buffer.antt =====
-- The receive buffer, which is never cleared.
use components_network.Prelude.{
  ℕ, zero, suc, ◌≡◌, ◌≢◌, refl, ap, ◌∙◌, Bytes, [], ◌∷◌, ◌++◌, append_assoc, append-nil, length,
  drop, replicate, All, Bool, true, false, arith, subst, sym, bytes_key,
}
use components_network.Prelude.Assoc.{erase}
use components_network.Transport.Codec.{TransportPacket, Codec, Outcome, returns, throws}
use components_network.Transport.Session.{
  Session, SubPacketsMap, ProcessCallback, c_str, store, on_read, respond, serve_collected, serve,
  serve_parsed, process, process_sub_packet, run_posted,
}

abbrev pub NoNul : Bytes → Type 0
NoNul = All λ c. c ≢ 0

c_str-append : (s : Bytes) (n : ℕ) → NoNul s → c_str (s ++ replicate n 0) ≡ s
unfolding c_str
c_str-append [] zero h = refl
c_str-append [] (suc n) h = refl
c_str-append (zero ∷ s) n h = absurd (h.0 refl)
c_str-append (suc c ∷ s) n h = ap (◌∷◌ (suc c)) (c_str-append s n h.1)

drop-NoNul : (n : ℕ) (s : Bytes) → NoNul s → NoNul (drop n s)
drop-NoNul zero s h = h
drop-NoNul (suc n) [] h = h
drop-NoNul (suc n) (c ∷ s) h = drop-NoNul n s h.1

append-NoNul : (s t : Bytes) → NoNul s → NoNul t → NoNul (s ++ t)
append-NoNul [] t hs ht = ht
append-NoNul (c ∷ s) t hs ht = (hs.0, append-NoNul s t hs.1 ht)

drop_nil : (k : ℕ) → drop {A = ℕ} k [] ≡ []
drop_nil zero = refl
drop_nil (suc k) = refl

-- What a dropped prefix leaves of a text and zeros behind it.
drop-zeros :
    (k : ℕ) (s : Bytes) (n : ℕ)
    → (m : ℕ) × (drop k (s ++ replicate n 0) ≡ drop k s ++ replicate m 0)
drop-zeros zero s n = (n, refl)
drop-zeros (suc k) [] zero = (0, refl)
drop-zeros (suc k) [] (suc n) = let (m, e) = drop-zeros k [] n in (m, e ∙ rw (drop_nil k))
drop-zeros (suc k) (c ∷ s) n = drop-zeros k s n

store-zeros :
    (b a : Bytes) (n : ℕ)
    → (m : ℕ) × (store b (a ++ replicate n 0) ≡ (b ++ drop (length b) a) ++ replicate m 0)
store-zeros b a n = let (m, e) = drop-zeros (length b) a n in (m, rw e (rw append_assoc))

-- After messages `a` and `b` the text in the buffer is `b` with the tail of `a` behind it, where `a`
-- is the longer one.
c_str-on_read :
    (s : Session) (a b : Bytes) (n : ℕ)
    → s.buffer ≡ replicate n 0
    → NoNul a
    → NoNul b
    → c_str (on_read (on_read s 0 a) 0 b).buffer ≡ b ++ drop (length b) a
unfolding on_read
c_str-on_read s a b n z ha hb =
    let (m, e) = store-zeros a [] n in
    let (k, e') = store-zeros b a m in
    let first : store a s.buffer ≡ a ++ replicate m 0 =
      rw (z, e, drop_nil (length a), append-nil) in
    rw (first, e')
      (c_str-append (b ++ drop (length b) a) k (append-NoNul b _ hb (drop-NoNul (length b) a ha)))

posted_twice : (s : Session) (a b : Bytes) → s.posted ≡ 0 → (on_read (on_read s 0 a) 0 b).posted ≡ 2
unfolding on_read
posted_twice s a b h = omega arith

-- A job leaves the buffer and the other jobs alone.
abbrev Kept : Session → Session → Type 0
Kept s s' = (s'.buffer ≡ s.buffer) × (s'.posted ≡ s.posted)

respond-Kept :
    (c : Codec) (callback : ProcessCallback) (s : Session) (p : TransportPacket)
    → Kept s (respond c callback s p)
unfolding respond
respond-Kept c callback s p = ground arith

serve_collected-Kept :
    (c : Codec) (callback : ProcessCallback) (s : Session)
    (r : (Outcome Bool × TransportPacket) × SubPacketsMap)
    → Kept s (serve_collected c callback s r).1
unfolding serve_collected
serve_collected-Kept c callback s ((returns true, p), m) =
    respond-Kept c callback (record s { sub_packets_map = erase p.guid m }) p
serve_collected-Kept c callback s ((returns false, p), m) = (refl, refl)
serve_collected-Kept c callback s ((throws e, p), m) = (refl, refl)

serve-Kept :
    (c : Codec) (callback : ProcessCallback) (s : Session) (p : TransportPacket)
    → Kept s (serve c callback s p).1
unfolding serve
serve-Kept c callback s p = ground (
  arith,
  respond-Kept c callback s p,
  serve_collected-Kept c callback s (process_sub_packet c s.sub_packets_map p),
)

serve_parsed-Kept :
    (c : Codec) (callback : ProcessCallback) (s : Session) (r : Outcome Bool × TransportPacket)
    → Kept s (serve_parsed c callback s r).1
unfolding serve_parsed
serve_parsed-Kept c callback s (returns true, p) = serve-Kept c callback s p
serve_parsed-Kept c callback s (returns false, p) = (refl, refl)
serve_parsed-Kept c callback s (throws e, p) = (refl, refl)

process-Kept :
    (c : Codec) (callback : ProcessCallback) (s : Session) (text : Bytes)
    → Kept s (process c callback s text).1
unfolding process
process-Kept c callback s text = serve_parsed-Kept c callback s _

run_posted-suc :
    (c : Codec) (callback : ProcessCallback) (s : Session) (n : ℕ) (text : Bytes)
    → s.posted ≡ suc n
    → c_str s.buffer ≡ text
    → run_posted c callback s ≡ process c callback (record s { posted = n }) text
unfolding run_posted
run_posted-suc c callback s n text e t = rw (e, t)

-- Two messages `a` and `b` that are read before a job is run: both jobs process the same text, which
-- is `b` with the rest of `a` behind it where `a` is the longer one. (Both are free of NUL, on a
-- buffer of zeros, with no job before.)
pub on_read-run_posted :
    (c : Codec) (callback : ProcessCallback) (s : Session) (a b : Bytes) (n : ℕ)
    → s.buffer ≡ replicate n 0
    → s.posted ≡ 0
    → NoNul a
    → NoNul b
    → let s' = on_read (on_read s 0 a) 0 b in
      let text = b ++ drop (length b) a in
      let first = run_posted c callback s' in
      (first ≡ process c callback (record s' { posted = 1 }) text)
      × (run_posted c callback first.1 ≡ process c callback (record first.1 { posted = 0 }) text)
on_read-run_posted c callback s a b n z none_posted ha hb =
    let s' = on_read (on_read s 0 a) 0 b in
    let held = c_str-on_read s a b n z ha hb in
    let first = run_posted-suc c callback s' 1 _ (posted_twice s a b none_posted) held in
    let kept = process-Kept c callback (record s' { posted = 1 }) (b ++ drop (length b) a) in
    let after =
      subst (λ (r : Outcome (Unit {0}) × Session). Kept (record s' { posted = 1 }) r.1) (sym first)
        kept in
    (
      first,
      run_posted-suc c callback (run_posted c callback s').1 0 _ after.1 (ap c_str after.0 ∙ held),
    )
