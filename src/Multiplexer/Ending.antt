-- ===== src/Multiplexer/Ending.antt =====
-- That a terminate signal ends the loop.
use pointer_force.Prelude.{
  ℕ, String, ◌≡◌, refl, subst, inl, inr, false, Option, List, [], ◌∷◌, arith, In, returns,
  string_eq, int_eq, nat_eq,
}
use pointer_force.Json.{Json, Bytes}
use pointer_force.Multiplexer.{
  Shared, run, Outside, event_pushed, terminate_signal, reload_signal, observer_added,
  observer_removed, table_changed, config_changed, outside_step, outside_steps, add_observer,
  remove_observer,
}

outside_step-off :
    (o : Outside) (s : Shared) → s.is_running ≡ false → (outside_step o s).is_running ≡ false
unfolding outside_step add_observer remove_observer
outside_step-off (event_pushed ev) s h = h
outside_step-off terminate_signal s h = refl
outside_step-off reload_signal s h = h
outside_step-off (observer_added obs) s h = h
outside_step-off (observer_removed id) s h = h
outside_step-off (table_changed t) s h = h
outside_step-off (config_changed c) s h = h

outside_steps-off :
    (os : List Outside) (s : Shared)
    → s.is_running ≡ false
    → (outside_steps os s).is_running ≡ false
unfolding outside_steps
outside_steps-off [] s h = h
outside_steps-off (o ∷ os) s h = outside_steps-off os (outside_step o s) (outside_step-off o s h)

terminated-off :
    (os : List Outside) (s : Shared)
    → In terminate_signal os
    → (outside_steps os s).is_running ≡ false
unfolding outside_steps outside_step
terminated-off [] s h = absurd h
terminated-off (o ∷ os) s (inl e) =
    outside_steps-off os (outside_step o s)
      (subst (λ o. (outside_step o s).is_running ≡ false) e refl)
terminated-off (o ∷ os) s (inr h) = terminated-off os (outside_step o s) h

-- The loop ends at the first test of the flag after a terminate signal, whatever else happens with
-- it, and runs nothing more.
terminate_stops :
    (J : Json) (input_code : String → ℕ) (files : String → Option Bytes) (os : List Outside)
    (rest : List (List Outside)) (s : Shared)
    → In terminate_signal os
    → run J input_code files (os ∷ rest) s ≡ returns ([], outside_steps os s)
unfolding run
terminate_stops J input_code files os rest s h = ground (arith, terminated-off os s h)
