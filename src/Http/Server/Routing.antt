-- ===== src/Http/Server/Routing.antt =====
-- Which processor answers a request.
use components_network.Prelude.{
  ℕ, ◌≡◌, ◌∙◌, subst, inl, inr, refl, String, string_key, ◌==◌, Bool, true, false, List, [], ◌∷◌,
  map, Option, none, some, is_some, Bool-cases, arith, if◌then◌else◌,
}
use text.Mathlib.TextEquality.{eq_iff}
use components_network.Prelude.Assoc.{find, insert, find-insert}
use components_network.Http.Types.{MethodType, get, put, post, delete, method_key, Packet}
use components_network.Http.Socket.{success}
use components_network.Http.Client.{Verb, verb_get, verb_put, verb_post, verb_delete}
use components_network.Http.Session.{
  Reply, response, error_response, Session, Message, Surroundings, not_found, packet_of, replies_to,
  method_of, on_read, method_not_allowed,
}
use components_network.Http.Session.Answers.{Continues, all_sent, on_read-Continues}
use components_network.Http.Server.{
  TargetProcessor, MethodProcessors, Processors, reply_by, handle_target, methods_of, set_handler,
  handle_method, method_processors,
}

if_reply :
    (b : Bool) (cbk : TargetProcessor) (o : Option TargetProcessor) (pkt : Packet)
    → reply_by (if b then some cbk else o) pkt
      ≡ (if b then map response (cbk pkt) else reply_by o pkt)
unfolding reply_by
if_reply true cbk o pkt = refl
if_reply false cbk o pkt = refl

handle_method_lem :
    (ps : Processors) (pkt : Packet) (m : MethodType)
    → handle_method ps pkt m ≡ handle_target (find pkt.target ps) pkt m
unfolding handle_method
handle_method_lem ps pkt m = refl

handle_target-insert :
    (o : Option MethodProcessors) (method m : MethodType) (cbk : TargetProcessor) (pkt : Packet)
    → handle_target (some (insert method cbk (methods_of o))) pkt m ≡ (
        if method == m
        then map response (cbk pkt)
        else (if is_some o then handle_target o pkt m else error_response not_found ∷ []))
unfolding handle_target find
handle_target-insert none method m cbk pkt =
    rw (find-insert method m cbk []) (if_reply (method == m) cbk none pkt)
handle_target-insert (some ms) method m cbk pkt =
    rw (find-insert method m cbk ms) (if_reply (method == m) cbk (find m ms) pkt)

-- After a handler is set, requests for its target and method go to it; requests for another method
-- of its target that has no processor get 404 (also where the target was unknown before); all other
-- requests are answered as before.
pub handle_method-set_handler :
    (ps : Processors) (method m : MethodType) (target : String) (cbk : TargetProcessor)
    (pkt : Packet)
    → handle_method (set_handler method ps target cbk) pkt m ≡ (
        if target == pkt.target
        then (if method == m
            then map response (cbk pkt)
            else (if is_some (find pkt.target ps)
                then handle_method ps pkt m
                else error_response not_found ∷ []))
        else handle_method ps pkt m)
unfolding set_handler
handle_method-set_handler ps method m target cbk pkt =
    let ms = insert method cbk (methods_of (find target ps)) in
    rw
      (
        handle_method_lem (set_handler method ps target cbk) pkt m,
        find-insert target pkt.target ms ps,
        handle_method_lem ps pkt m,
      )
      (elim (Bool-cases (target == pkt.target)) [
        | inl h ↦
            rw (h, (eq_iff target pkt.target).0 h)
              (handle_target-insert (find pkt.target ps) method m cbk pkt)
        | inr h ↦ rw h
      ])

abbrev pub method_of_verb : Verb → MethodType
method_of_verb verb_get = get
method_of_verb verb_put = put
method_of_verb verb_post = post
method_of_verb verb_delete = delete

pub method_of-some : (w : MethodType) (v : Verb) → method_of w (some v) ≡ method_of_verb v
method_of-some w verb_get = refl
method_of-some w verb_put = refl
method_of-some w verb_post = refl
method_of-some w verb_delete = refl

pub replies_to-method_processors :
    (ps : Processors) (v : Verb) (pkt : Packet)
    → replies_to (method_processors ps) (method_of_verb v) pkt
      ≡ handle_method ps pkt (method_of_verb v)
unfolding replies_to method_processors find insert
replies_to-method_processors ps verb_get pkt = refl
replies_to-method_processors ps verb_put pkt = refl
replies_to-method_processors ps verb_post pkt = refl
replies_to-method_processors ps verb_delete pkt = refl

replies_to-other :
    (ps : Processors) (n : ℕ) (pkt : Packet)
    → replies_to (method_processors ps) (MethodType.other n) pkt
      ≡ error_response method_not_allowed ∷ []
unfolding replies_to method_processors find insert
replies_to-other ps n pkt = ground arith

-- What a connection does with a request that was read and that these replies belong to.
abbrev pub Answers : Surroundings → Session → Message → List Reply → Type 0
Answers w s m rs =
    Continues w.handshake s (on_read w s success m)
      (all_sent w.files w.reason s.self_server_name rs)

Answers-by :
    (w : Surroundings) (s : Session) (ps : Processors) (m : Message) (method : MethodType)
    (rs : List Reply)
    → s.processors ≡ method_processors ps
    → method_of w.indeterminate m.verb ≡ method
    → replies_to (method_processors ps) method (packet_of m) ≡ rs
    → Answers w s m rs
Answers-by w s ps m method rs e k r =
    subst (Answers w s m) ((λ i. replies_to (e i) (k i) (packet_of m)) ∙ r)
      (on_read-Continues w s m)

-- A connection of the server answers a request of a known verb with what the processor registered
-- for its target and method gives, with 501 if the target is unknown, and with 404 if the method is.
pub on_read-handle_method :
    (w : Surroundings) (s : Session) (ps : Processors) (m : Message) (v : Verb)
    → s.processors ≡ method_processors ps
    → m.verb ≡ some v
    → Answers w s m (handle_method ps (packet_of m) (method_of_verb v))
on_read-handle_method w s ps m v e k =
    Answers-by w s ps m (method_of_verb v) _ e (rw k (method_of-some w.indeterminate v))
      (replies_to-method_processors ps v (packet_of m))

-- What the server makes of a request of any other verb, by the value that is found in the
-- uninitialised variable for the method.
abbrev pub other_replies : Processors → MethodType → Packet → List Reply
other_replies ps (MethodType.other n) pkt = error_response method_not_allowed ∷ []
other_replies ps method pkt = handle_method ps pkt method

replies_to-other_replies :
    (ps : Processors) (method : MethodType) (pkt : Packet)
    → replies_to (method_processors ps) method pkt ≡ other_replies ps method pkt
replies_to-other_replies ps get pkt = replies_to-method_processors ps verb_get pkt
replies_to-other_replies ps put pkt = replies_to-method_processors ps verb_put pkt
replies_to-other_replies ps post pkt = replies_to-method_processors ps verb_post pkt
replies_to-other_replies ps delete pkt = replies_to-method_processors ps verb_delete pkt
replies_to-other_replies ps (MethodType.other n) pkt = replies_to-other ps n pkt

-- A request of any other verb is answered by 405 if the uninitialised variable for the method is no
-- method, and as a request of that method if it is one.
pub on_read_other_verb :
    (w : Surroundings) (s : Session) (ps : Processors) (m : Message)
    → s.processors ≡ method_processors ps
    → m.verb ≡ none
    → Answers w s m (other_replies ps w.indeterminate (packet_of m))
on_read_other_verb w s ps m e k =
    Answers-by w s ps m w.indeterminate _ e (rw k refl)
      (replies_to-other_replies ps w.indeterminate (packet_of m))
