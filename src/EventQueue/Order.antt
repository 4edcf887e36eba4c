-- ===== src/EventQueue/Order.antt =====
-- No event is lost, doubled or overtaken, however the calls of the threads interleave.
use pointer_force.Prelude.{
  ◌≡◌, refl, sym, ap, ◌∙◌, Bool, true, false, ◌||◌, Option, none, some, List, [], ◌∷◌, ◌++◌,
  append_assoc, append-nil, arith, string_eq, int_eq, nat_eq,
}
use pointer_force.Common.{InputEvent}
use pointer_force.EventQueue.{
  EventQueue, push, pop, is_ready, shutdown, QueueCall, pushes, pops, shuts_down, deliver,
  run_calls,
}

-- The events that the calls push, in order.
abbrev pub pushed : List QueueCall → List InputEvent
pushed [] = []
pushed (pushes ev ∷ calls) = ev ∷ pushed calls
pushed (pops ∷ calls) = pushed calls
pushed (shuts_down ∷ calls) = pushed calls

pop-splits :
    (queue : EventQueue) (out : List InputEvent)
    → deliver (pop queue).0 ((pop queue).1.q ++ out) ≡ queue.q ++ out
unfolding pop
pop-splits queue out = ground arith

deliver-append :
    (ev : Option InputEvent) (xs ys : List InputEvent) → deliver ev xs ++ ys ≡ deliver ev (xs ++ ys)
deliver-append none xs ys = refl
deliver-append (some ev) xs ys = refl

-- What was delivered, followed by what still waits, is what waited at first followed by what was
-- pushed: first in, first out, in every interleaving of pushes, pops and a shutdown.
pub run_calls_fifo :
    (calls : List QueueCall) (queue : EventQueue)
    → (run_calls calls queue).0 ++ (run_calls calls queue).1.q ≡ queue.q ++ pushed calls
unfolding run_calls push shutdown
run_calls_fifo [] queue = sym (append-nil queue.q)
run_calls_fifo (pushes ev ∷ calls) queue =
    run_calls_fifo calls (push ev queue) ∙ append_assoc queue.q (ev ∷ []) (pushed calls)
run_calls_fifo (pops ∷ calls) queue =
    deliver-append (pop queue).0 (run_calls calls (pop queue).1).0 _
    ∙ ap (deliver (pop queue).0) (run_calls_fifo calls (pop queue).1)
    ∙ pop-splits queue (pushed calls)
run_calls_fifo (shuts_down ∷ calls) queue = run_calls_fifo calls (shutdown queue)

abbrev pub is_shut : List QueueCall → Bool
is_shut [] = false
is_shut (pushes ev ∷ calls) = is_shut calls
is_shut (pops ∷ calls) = is_shut calls
is_shut (shuts_down ∷ calls) = true

is_shutdown-run_calls :
    (calls : List QueueCall) (queue : EventQueue)
    → (run_calls calls queue).1.is_shutdown ≡ (queue.is_shutdown || is_shut calls)
unfolding run_calls pop push shutdown
is_shutdown-run_calls [] queue = ground arith
is_shutdown-run_calls (pushes ev ∷ calls) queue = is_shutdown-run_calls calls (push ev queue)
is_shutdown-run_calls (pops ∷ calls) queue =
    ground (arith, is_shutdown-run_calls calls (pop queue).1)
is_shutdown-run_calls (shuts_down ∷ calls) queue =
    ground (arith, is_shutdown-run_calls calls (shutdown queue))

-- After a shutdown, whatever was called before and since, the queue is shut and no `pop` waits.
shutdown_permanent :
    (calls : List QueueCall) (queue : EventQueue)
    → is_shut calls ≡ true
    → ((run_calls calls queue).1.is_shutdown ≡ true) × (is_ready (run_calls calls queue).1 ≡ true)
unfolding is_ready
shutdown_permanent calls queue h = ground (arith, is_shutdown-run_calls calls queue)
