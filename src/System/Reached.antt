-- ===== src/System/Reached.antt =====
-- Every state that the daemon reaches is consistent.
use pointer_force.Prelude.{
  ℕ, String, refl, ◌∙◌, Bool, true, false, Option, List, [], ◌∷◌, arith, Ensures, Ensures-returns,
  Ensures-if, Ensures-bind, string_eq, int_eq, nat_eq,
}
use pointer_force.Assoc.{Assoc, find, erase, find-erase}
use pointer_force.Common.{Config}
use pointer_force.Json.{Json, Bytes}
use pointer_force.Mapper.WellFormed.{init-IsWellFormed}
use pointer_force.Config.{load}
use pointer_force.Config.Loaded.{IsLeft}
use pointer_force.Multiplexer.{
  Shared, Observer, Effect, outside_step, reload_if_asked, reloaded, pop_and_handle, add_observer,
  remove_observer, round,
}
use pointer_force.EventQueue.{pop}
use pointer_force.Multiplexer.Observers.{add_observer_fresh, remove_observer-IsOrdered}
use pointer_force.System.{
  State, launch, Step, pressed, signalled, sigterm, sigint, sighup, answered, subscribed,
  unsubscribed, performed, dispatched, Reach, launched, later,
}
use pointer_force.System.Consistent.{
  IsConsistent, with_queue, loaded-BindsKnown, reload_result-IsConsistent, load_again-IsLeft,
}
use pointer_force.System.Lines.{handle_line-Keeps}

module _ (J : Json) (input_code : String → ℕ) (path : String) where
  abbrev pub IsSound : State → Type 0
  IsSound s = IsConsistent J input_code path s.streams s.shared

  launch-IsSound : (config : Config) → IsLeft J input_code path config → IsSound (launch config)
  unfolding launch
  launch-IsSound config l = record {
    well_formed = init-IsWellFormed config;
    named = loaded-BindsKnown J input_code path [] config l;
    left = l;
    ordered = omega arith;
    listening = λ k. refl;
  }

  subscribed-IsConsistent :
      (client : Observer) (streams : Assoc ℕ Observer) (s : Shared)
      → IsConsistent J input_code path streams s
      → IsConsistent J input_code path
          (((add_observer client s).0, client) ∷ streams)
          (add_observer client s).1
  unfolding add_observer find
  subscribed-IsConsistent client streams s c = record {
    well_formed = c.well_formed;
    named = c.named;
    left = c.left;
    ordered = (add_observer_fresh s client 0 c.ordered).2;
    listening = λ k. (add_observer_fresh s client k c.ordered).1 ∙ ground (arith, c.listening k);
  }

  unsubscribed-IsConsistent :
      (id : ℕ) (streams : Assoc ℕ Observer) (s : Shared)
      → IsConsistent J input_code path streams s
      → IsConsistent J input_code path (erase id streams) (remove_observer id s)
  unfolding remove_observer
  unsubscribed-IsConsistent id streams s c = record {
    well_formed = c.well_formed;
    named = c.named;
    left = c.left;
    ordered = remove_observer-IsOrdered id s c.ordered;
    listening =
        λ k. ground (arith, find-erase id k s.observers, find-erase id k streams, c.listening k);
  }

  module _ (streams : Assoc ℕ Observer) (files : String → Option Bytes) where
    reloaded-IsConsistent :
        (s : Shared) (r : Bool × Config)
        → IsLeft J input_code path r.1
        → IsConsistent J input_code path streams s
        → IsConsistent J input_code path streams (reloaded s r)
    reloaded-IsConsistent s (true, config) l c =
        with_queue J input_code path streams s.queue s.is_running false _
          (reload_result-IsConsistent J input_code path streams files s (true, config) l c)
    reloaded-IsConsistent s (false, config) l c =
        with_queue J input_code path streams s.queue s.is_running false _
          (reload_result-IsConsistent J input_code path streams files s (false, config) l c)

    pub reload_if_asked-IsConsistent :
        (s : Shared)
        → IsConsistent J input_code path streams s
        → Ensures (IsConsistent J input_code path streams) (reload_if_asked J input_code files s)
    unfolding reload_if_asked
    reload_if_asked-IsConsistent s c =
        Ensures-if s.reload _ _
          (λ _. Ensures-bind (load J input_code files s.config.config_path s.config) _ λ r e.
            Ensures-returns _ (
              reloaded-IsConsistent s r
                ((load_again-IsLeft J input_code path streams files s.config c.left).at_return r e)
                c))
          (λ _. Ensures-returns s c)

    round-IsConsistent :
        (s : Shared)
        → IsConsistent J input_code path streams s
        → Ensures (λ r. IsConsistent J input_code path streams r.1) (round J input_code files s)
    unfolding round pop_and_handle
    round-IsConsistent s c = Ensures-bind (reload_if_asked J input_code files s) _ λ s' e.
        Ensures-returns _ (
          with_queue J input_code path streams (pop s'.queue).1 s'.is_running s'.reload s'
            ((reload_if_asked-IsConsistent s c).at_return s' e))

  Step-IsSound :
      (s t : State) (effects : List Effect) → Step J input_code s effects t → IsSound s → IsSound t
  unfolding outside_step
  Step-IsSound s _ _ (pressed ev) c = with_queue J input_code path s.streams _ _ _ s.shared c
  Step-IsSound s _ _ (signalled sigterm) c = with_queue J input_code path s.streams _ _ _ s.shared c
  Step-IsSound s _ _ (signalled sigint) c = with_queue J input_code path s.streams _ _ _ s.shared c
  Step-IsSound s _ _ (signalled sighup) c = with_queue J input_code path s.streams _ _ _ s.shared c
  Step-IsSound s _ _ (answered files info client line {turn} e) c =
      (handle_line-Keeps J input_code path s.streams files info client line s.shared c).at_return
        turn e
  Step-IsSound s _ _ (subscribed client) c = subscribed-IsConsistent client s.streams s.shared c
  Step-IsSound s _ _ (unsubscribed id streaming) c =
      unsubscribed-IsConsistent id s.streams s.shared c
  Step-IsSound s _ _ (performed effect rest waiting) c = c
  Step-IsSound s _ _ (dispatched files {effects} {after} idle on e) c =
      (round-IsConsistent s.streams files s.shared c).at_return (effects, after) e

  pub Reach-IsSound :
      (config : Config) (s : State)
      → IsLeft J input_code path config
      → Reach J input_code config s
      → IsSound s
  Reach-IsSound config _ l launched = launch-IsSound config l
  Reach-IsSound config t l (later {s} {effects} r step) =
      Step-IsSound s t effects step (Reach-IsSound config s l r)
