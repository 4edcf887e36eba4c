-- ===== src/EventQueue.antt =====
-- src/eventqueue.cpp: the queue between the reader threads and the multiplexer.
--
-- Each method runs under the mutex, so calls of several threads are a sequence of steps. The wait
-- of `pop` ends when `is_ready` holds or the timeout passes; what it returns depends only on the
-- queue that it then finds.
pub mod Order
use pointer_force.Prelude.{
  ℕ, zero, suc, ◌+◌, ◌-◌, ◌*◌, ◌%◌, ◌≤◌, ◌<◌, min, String, ◌≡◌, refl, sym, ap, subst, ◌∙◌, ◌≢◌, ◌↔◌,
  ◌⊎◌, inl, inr, Bool, true, false, not, ◌&&◌, ◌||◌, Option, none, some, List, [], ◌∷◌, ◌++◌, map,
  append_assoc, append-nil, arith, eq_iff, eq_refl, ltb, leb, nat_beq, nat_beq_iff, if◌then◌else◌,
  Eq, ◌==◌, is_empty, Bool-cases, Option-cases, length, length-append, get_elem?, In,
  In-append_left, In-append_right, In-append, All, All-append, Outcome, returns, throws,
  Outcome-cases, >>=-eq-returns, Ensures, Ensures-returns, Ensures-if, Ensures-bind, Returns,
  Returns-bind, Returns-if, Returns-after, ◌>>=◌, ◌>>◌, ℤ, pos, negsuc, is_negative, int_beq,
  int_beq_iff, string_eq, int_eq, nat_eq,
}
use pointer_force.Common.{InputEvent}

pub record EventQueue : Type 0 where
  pub q : List InputEvent
  pub is_shutdown : Bool

abbrev pub empty_queue : EventQueue
empty_queue = record { q = []; is_shutdown = false }

unfoldable pub push : InputEvent → EventQueue → EventQueue
push ev queue = record queue { q = queue.q ++ ev ∷ [] }

-- the predicate of the condition variable
unfoldable pub is_ready : EventQueue → Bool
is_ready queue = elim queue.q [ [] ↦ queue.is_shutdown | _ ↦ true ]

unfoldable pub pop : EventQueue → Option InputEvent × EventQueue
pop queue = elim queue.q [ [] ↦ (none, queue) | ev ∷ rest ↦ (some ev, record queue { q = rest }) ]

unfoldable pub shutdown : EventQueue → EventQueue
shutdown queue = record queue { is_shutdown = true }

-- One call of some thread.
pub data QueueCall : Type 0 where
  pushes : InputEvent → QueueCall
  pops : QueueCall
  shuts_down : QueueCall

abbrev pub deliver : Option InputEvent → List InputEvent → List InputEvent
deliver none out = out
deliver (some ev) out = ev ∷ out

-- A sequence of calls: the events that `pop` delivered, and the queue at the end.
unfoldable pub run_calls : List QueueCall → EventQueue → List InputEvent × EventQueue
run_calls [] queue = ([], queue)
run_calls (pushes ev ∷ calls) queue = run_calls calls (push ev queue)
run_calls (pops ∷ calls) queue =
    let (ev, queue') = pop queue in
    let (out, last) = run_calls calls queue' in (deliver ev out, last)
run_calls (shuts_down ∷ calls) queue = run_calls calls (shutdown queue)
