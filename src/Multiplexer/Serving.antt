-- ===== src/Multiplexer/Serving.antt =====
-- That a registered observer stays so, while the loop runs and nobody takes it out.
use pointer_force.Prelude.{
  ℕ, String, ◌≡◌, refl, ◌≢◌, Bool, true, false, some, List, [], ◌∷◌, arith, nat_beq_iff, In, All,
  string_eq, int_eq, nat_eq,
}
use pointer_force.Assoc.{find, find-erase}
use pointer_force.Assoc.Keys.{find-In}
use pointer_force.Common.{Config, InputEvent}
use pointer_force.EventQueue.{pop}
use pointer_force.Multiplexer.{
  Shared, Observer, Effect, notified, handle_event, reloaded, pop_and_handle, Outside, event_pushed,
  terminate_signal, reload_signal, observer_added, observer_removed, table_changed, config_changed,
  outside_step, outside_steps, add_observer, remove_observer,
}
use pointer_force.Multiplexer.Observers.{IsOrdered, add_observer_fresh, outside_step-IsOrdered}
use pointer_force.Multiplexer.Round.{notified-handle_event}
use pointer_force.Multiplexer.Run.{popped}

-- The step neither ends the loop nor takes that observer out.
abbrev pub Spares : ℕ → Outside → Type 0
Spares id terminate_signal = ⊥
Spares id (observer_removed k) = k ≢ id
Spares id (event_pushed ev) = Unit
Spares id reload_signal = Unit
Spares id (observer_added obs) = Unit
Spares id (table_changed t) = Unit
Spares id (config_changed c) = Unit

-- The loop runs, and the observer is registered under that id.
pub record IsServing (id : ℕ) (obs : Observer) (s : Shared) : Type 0 where
  pub on : s.is_running ≡ true
  pub ordered : IsOrdered s
  pub registered : find id s.observers ≡ some obs

-- The events behind the first one.
abbrev pub behind : List InputEvent → List InputEvent
behind [] = []
behind (ev ∷ evs) = evs

module _ (id : ℕ) (obs : Observer) where
  added-registered :
      (other : Observer) (s : Shared)
      → IsServing id obs s
      → find id (add_observer other s).1.observers ≡ some obs
  added-registered other s h =
      let (fresh, found, _) = add_observer_fresh s other id h.ordered in
      ground (arith, fresh, found, h.registered, nat_beq_iff (add_observer other s).0 id)

  removed-registered :
      (k : ℕ) (s : Shared)
      → k ≢ id
      → IsServing id obs s
      → find id (remove_observer k s).observers ≡ some obs
  unfolding remove_observer
  removed-registered k s n h =
      ground (arith, find-erase k id s.observers, h.registered, nat_beq_iff k id)

  outside_step-IsServing :
      (o : Outside) (s : Shared)
      → Spares id o
      → IsServing id obs s
      → IsServing id obs (outside_step o s)
  unfolding outside_step add_observer remove_observer
  outside_step-IsServing (event_pushed ev) s p h = record {
    on = h.on;
    ordered = h.ordered;
    registered = h.registered;
  }
  outside_step-IsServing terminate_signal s p h = absurd p
  outside_step-IsServing reload_signal s p h = record {
    on = h.on;
    ordered = h.ordered;
    registered = h.registered;
  }
  outside_step-IsServing (observer_added other) s p h = record {
    on = h.on;
    ordered = outside_step-IsOrdered (observer_added other) s h.ordered;
    registered = added-registered other s h;
  }
  outside_step-IsServing (observer_removed k) s p h = record {
    on = h.on;
    ordered = outside_step-IsOrdered (observer_removed k) s h.ordered;
    registered = removed-registered k s p h;
  }
  outside_step-IsServing (table_changed t) s p h = record {
    on = h.on;
    ordered = h.ordered;
    registered = h.registered;
  }
  outside_step-IsServing (config_changed c) s p h = record {
    on = h.on;
    ordered = h.ordered;
    registered = h.registered;
  }

  pub outside_steps-IsServing :
      (os : List Outside) (s : Shared)
      → All (Spares id) os
      → IsServing id obs s
      → IsServing id obs (outside_steps os s)
  unfolding outside_steps
  outside_steps-IsServing [] s p h = h
  outside_steps-IsServing (o ∷ os) s p h =
      outside_steps-IsServing os _ p.1 (outside_step-IsServing o s p.0 h)

  pub reloaded-IsServing :
      (s : Shared) (r : Bool × Config) → IsServing id obs s → IsServing id obs (reloaded s r)
  reloaded-IsServing s (true, c) h = record {
    on = h.on;
    ordered = h.ordered;
    registered = h.registered;
  }
  reloaded-IsServing s (false, c) h = record {
    on = h.on;
    ordered = h.ordered;
    registered = h.registered;
  }

  told :
      (s : Shared) (ev : InputEvent)
      → IsServing id obs s
      → (cmd : String) × In (notified id obs ev cmd) (handle_event s.table s.observers ev)
  told s ev h = (
    _,
    (notified-handle_event s.table s.observers ev ev id obs _).1
        (find-In id obs s.observers h.registered, refl, refl),
  )

  -- The observer is told of the first of the events, if there is one.
  abbrev pub IsTold : List InputEvent → List Effect → Type 0
  IsTold [] effects = Unit
  IsTold (ev ∷ evs) effects = (cmd : String) × In (notified id obs ev cmd) effects

  pub pop-IsServing :
      (evs : List InputEvent) (s : Shared)
      → IsServing id obs s
      → s.queue.q ≡ evs
      → (effects : List Effect) × (s' : Shared) × (pop_and_handle s ≡ (effects, s'))
        × IsServing id obs s'
        × (s'.queue.q ≡ behind evs)
        × IsTold evs effects
  unfolding pop_and_handle pop
  pop-IsServing [] s h e = ([], s, ground (arith, e), h, e, tt)
  pop-IsServing (ev ∷ evs) s h e = (
    handle_event s.table s.observers ev,
    record s { queue = record s.queue { q = evs } },
    popped s ev evs e,
    record { on = h.on; ordered = h.ordered; registered = h.registered },
    refl,
    told s ev h,
  )
