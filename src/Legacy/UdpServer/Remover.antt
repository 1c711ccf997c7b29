-- ===== src/Legacy/UdpServer/Remover.antt =====
-- Legacy/udpserverinstance: the thread that waits for threads to finish and removes them, between the
-- calls of other threads.
pub mod Stopping
use components_network.Prelude.{
  ℕ, suc, ◌+◌, Bool, true, false, ltb, List, [], ◌∷◌, Option, none, some, ◌||◌, ◌&&◌, get_elem?,
  set, if◌then◌else◌,
}
use components_network.Legacy.UdpServer.{Server, thread_finished_signal}

-- Where the thread stands: before the test of the loop, before it takes the lock in
-- `waitForThreadFinished`, asleep there or woken up again, before a round of the inner loop, at its end.
pub data Point : Type 0 where
  testing locking asleep woken : Point
  sweeping : ℕ → Point
  ended : Point

pub record Removal : Type 0 where
  pub server : Server
  pub point : Point

-- The predicate that `wait` tests under the lock, when it is called and whenever it is woken.
unfoldable pub test_predicate : Server → Removal
test_predicate d = record {
  server = d;
  point = if d.thread_finished || d.done then sweeping 0 else asleep;
}

-- `waitForThreadFinished` up to its wait.
unfoldable pub wait_for_thread_finished : Server → Removal
unfolding test_predicate
wait_for_thread_finished d = test_predicate (record d { thread_finished = false })

abbrev pub is_marked : Option Bool → Bool
is_marked none = false
is_marked (some mark) = mark

-- A round of the inner loop. A thread that left its mark is at its end, so that it is joined.
unfoldable pub sweep : Server → ℕ → Removal
sweep d i =
    if ltb i d.thread_count
    then record {
      server =
          if is_marked (get_elem? d.threads_to_remove i)
          then record d {
            process_threads = set d.process_threads i false;
            threads_to_remove = set d.threads_to_remove i false;
          }
          else d;
      point = sweeping (suc i);
    }
    else record { server = d; point = testing }

-- The next step of the thread. Asleep it makes none.
unfoldable pub advance : Server → Point → Removal
unfolding test_predicate wait_for_thread_finished sweep
advance d testing = record { server = d; point = if d.done then ended else locking }
advance d locking = wait_for_thread_finished d
advance d asleep = record { server = d; point = asleep }
advance d woken = test_predicate d
advance d (sweeping i) = sweep d i
advance d ended = record { server = d; point = ended }

-- `notify_one`: nobody else waits.
abbrev pub notified : Point → Point
notified asleep = woken
notified p = p

-- What the threads do: a step of the remover, `threadFinishedSignal`, `done = true` in `stop`.
pub data Event : Type 0 where
  removes : Event
  signals : Option ℕ → Event
  sets_done : Event

unfoldable pub step : Removal → Event → Removal
unfolding advance thread_finished_signal
step x removes = advance x.server x.point
step x (signals num) = record {
  server = thread_finished_signal num x.server;
  point = notified x.point;
}
step x sets_done = record x { server = record x.server { done = true } }

unfoldable pub steps : Removal → List Event → Removal
unfolding step
steps x [] = x
steps x (e ∷ es) = steps (step x e) es
