-- ===== src/Http/Server/Registration.antt =====
-- The setters of src/HTTP/server.cpp against the history of their calls.
use components_network.Prelude.{
  ◌≡◌, inl, inr, refl, ap, ◌∙◌, String, string_key, ◌==◌, Bool, true, false, ◌&&◌, ◌||◌, List, [],
  ◌∷◌, map, Option, none, some, is_some, if◌then◌else◌, Bool-cases,
}
use text.Mathlib.TextEquality.{eq_iff}
use components_network.Prelude.Assoc.{find, insert, find-insert}
use components_network.Http.Types.{MethodType, method_key, Packet}
use components_network.Http.Session.{Reply, response, error_response, not_found, not_implemented}
use components_network.Http.Server.{
  TargetProcessor, MethodProcessors, Processors, reply_by, handle_target, methods_of, set_handler,
  handle_method,
}

-- A call of one of the setters.
pub record Registration : Type 0 where
  pub method : MethodType
  pub target : String
  pub process : TargetProcessor

-- The processors behind these calls, the last one first.
abbrev pub registered : List Registration → Processors
registered [] = []
registered (r ∷ rs) = set_handler r.method (registered rs) r.target r.process

-- Was the target named in a call?
abbrev pub is_known : String → List Registration → Bool
is_known target [] = false
is_known target (r ∷ rs) = r.target == target || is_known target rs

-- What was registered last for a target and a method.
abbrev pub latest : String → MethodType → List Registration → Option TargetProcessor
latest target method [] = none
latest target method (r ∷ rs) =
    if r.target == target && r.method == method then some r.process else latest target method rs

-- What a request is to be answered with.
abbrev pub answer_by : Bool → Option TargetProcessor → Packet → List Reply
answer_by false o pkt = error_response not_implemented ∷ []
answer_by true none pkt = error_response not_found ∷ []
answer_by true (some process) pkt = map response (process pkt)

-- What the map of the targets says of a target and a method.
abbrev pub route : Processors → String → MethodType → Bool × Option TargetProcessor
route ps target method = (is_some (find target ps), find method (methods_of (find target ps)))

reply_by-answer_by :
    (o : Option TargetProcessor) (pkt : Packet) → reply_by o pkt ≡ answer_by true o pkt
unfolding reply_by
reply_by-answer_by none pkt = refl
reply_by-answer_by (some process) pkt = refl

handle_target-answer_by :
    (o : Option MethodProcessors) (pkt : Packet) (method : MethodType)
    → handle_target o pkt method ≡ answer_by (is_some o) (find method (methods_of o)) pkt
unfolding handle_target
handle_target-answer_by none pkt method = refl
handle_target-answer_by (some ms) pkt method = reply_by-answer_by (find method ms) pkt

pub handle_method-route :
    (ps : Processors) (pkt : Packet) (method : MethodType)
    → handle_method ps pkt method
      ≡ answer_by (route ps pkt.target method).0 (route ps pkt.target method).1 pkt
unfolding handle_method
handle_method-route ps pkt method = handle_target-answer_by (find pkt.target ps) pkt method

pub route-set_handler :
    (ps : Processors) (m method : MethodType) (t target : String) (process : TargetProcessor)
    → route (set_handler m ps t process) target method ≡ (
      t == target || (route ps target method).0,
      (if t == target && m == method then some process else (route ps target method).1),
    )
unfolding set_handler
route-set_handler ps m method t target process =
    rw (find-insert t target (insert m process (methods_of (find t ps))) ps)
      (elim (Bool-cases (t == target)) [
        | inl h ↦
            rw
              (h, (eq_iff t target).0 h, find-insert m method process (methods_of (find target ps)))
              refl
        | inr h ↦ rw h refl
      ])

route_empty : (target : String) (method : MethodType) → route [] target method ≡ (false, none)
unfolding find
route_empty target method = refl

-- What a registration makes of a route.
abbrev pub noted :
    Registration
    → String
    → MethodType
    → Bool × Option TargetProcessor
    → Bool × Option TargetProcessor
noted r target method (known, before) = (
  r.target == target || known,
  (if r.target == target && r.method == method then some r.process else before),
)

route-registered :
    (rs : List Registration) (target : String) (method : MethodType)
    → route (registered rs) target method ≡ (is_known target rs, latest target method rs)
route-registered [] target method = route_empty target method
route-registered (r ∷ rs) target method =
    route-set_handler (registered rs) r.method method r.target target r.process
    ∙ ap (noted r target method) (route-registered rs target method)

-- Whatever was registered, and however often: a request is answered by what was registered last for
-- its target and method, by 404 if that is nothing but the target was named in some call, and by 501
-- if it was named in none.
pub handle_method-registered :
    (rs : List Registration) (pkt : Packet) (method : MethodType)
    → handle_method (registered rs) pkt method
      ≡ answer_by (is_known pkt.target rs) (latest pkt.target method rs) pkt
handle_method-registered rs pkt method =
    handle_method-route (registered rs) pkt method
    ∙ ap (λ (r : Bool × Option TargetProcessor). answer_by r.0 r.1 pkt)
        (route-registered rs pkt.target method)
