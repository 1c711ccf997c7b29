-- ===== src/Http/Server/Routes.antt =====
-- The map of the processors of src/HTTP/server.cpp up to the order of its entries.
use components_network.Prelude.{
  ◌≡◌, sym, ap, ◌∙◌, String, string_key, ◌==◌, Bool, true, not, ◌&&◌, List, Option, Key-Discrete,
  arith,
}
use mathlib.Core.HLevel.{hedberg}
use mathlib.Core.Quot
use mathlib.Core.Quot.{Quot, Quot-set}
use text.Mathlib.TextEquality.{eq_iff}
use components_network.Http.Types.{MethodType, method_key, method_code_iff, Packet}
use components_network.Http.Session.{Reply}
use components_network.Http.Server.{TargetProcessor, Processors, set_handler, handle_method}
use components_network.Http.Server.Registration.{
  Registration, answer_by, route, route-set_handler, handle_method-route, noted,
}

-- Two maps that send every request to the same processor.
abbrev pub SameRoutes : Processors → Processors → Type 0
SameRoutes ps qs =
    (target : String) (method : MethodType) → route ps target method ≡ route qs target method

-- The maps up to that: the order of their entries is forgotten.
abbrev pub Routes : Type 0
Routes = Quot SameRoutes

pub SameRoutes-set_handler :
    (r : Registration) (ps qs : Processors)
    → SameRoutes ps qs
    → SameRoutes
        (set_handler r.method ps r.target r.process)
        (set_handler r.method qs r.target r.process)
SameRoutes-set_handler r ps qs same target method =
    route-set_handler ps r.method method r.target target r.process
    ∙ ap (noted r target method) (same target method)
    ∙ sym (route-set_handler qs r.method method r.target target r.process)

unfoldable pub set : Registration → Routes → Routes
set r =
    Quot.lift Quot-set (λ ps. Quot.mk (set_handler r.method ps r.target r.process))
      (λ ps qs same. Quot.sound (SameRoutes-set_handler r ps qs same))

reply_set : IsSet (List Reply)
reply_set = hlevel (hedberg (Key-Discrete string_key))

SameRoutes-handle_method :
    (pkt : Packet) (method : MethodType) (ps qs : Processors)
    → SameRoutes ps qs
    → handle_method ps pkt method ≡ handle_method qs pkt method
SameRoutes-handle_method pkt method ps qs same =
    handle_method-route ps pkt method
    ∙ ap (λ (r : Bool × Option TargetProcessor). answer_by r.0 r.1 pkt) (same pkt.target method)
    ∙ sym (handle_method-route qs pkt method)

-- `handleMethod` does not see the difference.
pub answer : Packet → MethodType → Routes → List Reply
answer pkt method =
    Quot.lift reply_set (λ ps. handle_method ps pkt method) (SameRoutes-handle_method pkt method)

-- Do two registrations name different routes?
abbrev pub apart : Registration → Registration → Bool
apart r q = not (r.target == q.target && r.method == q.method)

route-set_both :
    (r q : Registration) (ps : Processors) (target : String) (method : MethodType)
    → route
        (set_handler r.method (set_handler q.method ps q.target q.process) r.target r.process)
        target
        method
      ≡ noted r target method (noted q target method (route ps target method))
route-set_both r q ps target method =
    route-set_handler (set_handler q.method ps q.target q.process) r.method method r.target target
      r.process
    ∙ ap (noted r target method) (route-set_handler ps q.method method q.target target q.process)

noted_comm :
    (r q : Registration) (target : String) (method : MethodType) (b : Bool × Option TargetProcessor)
    → apart r q ≡ true
    → noted r target method (noted q target method b)
      ≡ noted q target method (noted r target method b)
noted_comm r q target method (known, before) a = ground (
  arith,
  eq_iff r.target target,
  eq_iff q.target target,
  eq_iff r.target q.target,
  method_code_iff r.method method,
  method_code_iff q.method method,
  method_code_iff r.method q.method,
)

SameRoutes-comm :
    (r q : Registration) (ps : Processors)
    → apart r q ≡ true
    → SameRoutes
        (set_handler r.method (set_handler q.method ps q.target q.process) r.target r.process)
        (set_handler q.method (set_handler r.method ps r.target r.process) q.target q.process)
SameRoutes-comm r q ps a target method =
    route-set_both r q ps target method
    ∙ noted_comm r q target method (route ps target method) a
    ∙ sym (route-set_both q r ps target method)

-- Up to the order of entries it does not matter in which order two different routes are registered:
-- the maps are the same, so that every request is answered in the same way.
pub set_comm :
    (r q : Registration) (routes : Routes)
    → apart r q ≡ true
    → set r (set q routes) ≡ set q (set r routes)
unfolding set
set_comm r q routes a =
    Quot.ind {β = λ routes. set r (set q routes) ≡ set q (set r routes)} (λ t. Quot-set _ _)
      (λ ps. Quot.sound (SameRoutes-comm r q ps a)) routes
