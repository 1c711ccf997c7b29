-- ===== src/Http/Examples/Lifetimes.antt =====
-- Runs of a client's asynchronous requests, up to the end of its life and behind it.
use components_network.Prelude.{◌≡◌, ◌≢◌, ◌↔◌, refl, true, false, List, [], ◌∷◌, ◌++◌, some, none}
use components_network.Http.Types.{get, fresh}
use components_network.Http.Socket.{success}
use components_network.Http.Client.{request_async}
use components_network.Http.Client.Lifetime.{
  Life, Outstanding, default_ctx, given, reading, goes, undefined, cannot, Event, requests, wrote,
  releases, interrupts, begin, run,
}
use components_network.Http.Client.Lifetime.Replies.{due, interrupted_calls, interrupts-due}
use components_network.Http.Client.Lifetime.Ending.{run-own}
use components_network.Http.Client.Lifetime.Dangling.{run-releases_iff}
use components_network.Http.Examples.{reachable}

abbrev asking : Life
asking = begin default_ctx false false

-- A request that was written, and a client that awaits its answer.
abbrev awaited : Outstanding
awaited = record { pkt = fresh; has_callback = true; phase = reading; aborted = false }

abbrev awaiting : Life
awaiting = record (begin given false false) { outstanding = some awaited }

run-own_example :
    (run (begin default_ctx false false) (requests reachable get fresh true ∷ []) ≢ undefined)
    × (run
          (begin default_ctx false false)
          (requests reachable get fresh true ∷ releases ∷ wrote success ∷ [])
        ≡ cannot)
run-own_example = run-own false false (requests reachable get fresh true ∷ []) [] (wrote success)

run-releases_iff_example :
    ((es : List Event) × (run awaiting (releases ∷ es) ≡ undefined))
    ↔ ((awaiting.context ≡ given) × (awaiting.outstanding ≢ none))
run-releases_iff_example = run-releases_iff awaiting refl

-- The code that the read would have had makes no difference.
interrupts-due_example :
    run awaiting (interrupts true ∷ due reading success reachable.response ∷ [])
    ≡ goes (record awaiting {
      outstanding = none;
      calls = awaiting.calls ++ interrupted_calls awaited reading reachable.response;
    })
unfolding components_network.Http.Client.new
interrupts-due_example = interrupts-due awaiting awaited success reachable.response refl refl refl
