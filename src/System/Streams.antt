-- ===== src/System/Streams.antt =====
-- The open event streams are told of each event.
use pointer_force.Prelude.{
  ℕ, String, ◌≡◌, refl, sym, ap, ◌∙◌, ◌↔◌, Option, some, List, ◌∷◌, arith, In, returns,
  >>=-eq-returns, string_eq, int_eq, nat_eq,
}
use pointer_force.Assoc.{Assoc, find}
use pointer_force.Assoc.Keys.{find-In}
use pointer_force.Common.{Config, InputEvent}
use pointer_force.Json.{Json, Bytes}
use pointer_force.Config.Loaded.{IsLeft}
use pointer_force.EventQueue.{EventQueue}
use pointer_force.Multiplexer.{
  Shared, Observer, Effect, notified, handle_event, reload_if_asked, round,
}
use pointer_force.Multiplexer.Observers.{In-ordered}
use pointer_force.Multiplexer.Round.{notified-handle_event}
use pointer_force.Multiplexer.Run.{popped, queue-reload_if_asked}
use pointer_force.System.{State, Reach}
use pointer_force.System.Consistent.{IsConsistent}
use pointer_force.System.Reached.{Reach-IsSound, reload_if_asked-IsConsistent}

module _ (J : Json) (input_code : String → ℕ) (path : String) where
  -- A round that returned with an event waiting handled that event, after the reload.
  round_handled :
      (streams : Assoc ℕ Observer) (files : String → Option Bytes) (s after : Shared)
      (ev : InputEvent) (rest : List InputEvent) (effects : List Effect)
      → IsConsistent J input_code path streams s
      → s.queue.q ≡ ev ∷ rest
      → round J input_code files s ≡ returns (effects, after)
      → (s' : Shared) × IsConsistent J input_code path streams s'
        × (effects ≡ handle_event s'.table s'.observers ev)
  unfolding round
  round_handled streams files s after ev rest effects c waiting h =
      let (s', e, f) = >>=-eq-returns (reload_if_asked J input_code files s) _ h in
      let q = (queue-reload_if_asked J input_code files s).at_return s' e in
      (
        s',
        (reload_if_asked-IsConsistent J input_code path streams files s c).at_return s' e,
        ground (arith, popped s' ev rest (ap (λ (x : EventQueue). x.q) q ∙ waiting), f),
      )

  -- In every state that the daemon reaches, a round that pops an event calls with it the observer of
  -- each stream that is open, and no other observer. Whether a stream is open is asked when the
  -- round copies the observers: one that is closed after that is still called.
  pub streams_told :
      (config : Config) (s : State) (files : String → Option Bytes) (after : Shared)
      (ev : InputEvent) (rest : List InputEvent) (effects : List Effect) (id : ℕ)
      (client : Observer) (e : InputEvent)
      → IsLeft J input_code path config
      → Reach J input_code config s
      → s.shared.queue.q ≡ ev ∷ rest
      → round J input_code files s.shared ≡ returns (effects, after)
      → ((cmd : String) × In (notified id client e cmd) effects)
        ↔ ((find id s.streams ≡ some client) × (e ≡ ev))
  streams_told config s files after ev rest effects id client e l r waiting h =
      let (s', c, same) =
        round_handled s.streams files s.shared after ev rest effects
          (Reach-IsSound J input_code path config s l r) waiting h in
      let told = λ (cmd : String). notified-handle_event s'.table s'.observers ev e id client cmd in
      rw same (
        λ (cmd, i).
            let (j, same_event, _) = (told cmd).0 i in
            (sym (c.listening id) ∙ In-ordered id client s' c.ordered j, same_event),
        λ (found, same_event). (
          _,
          (told _).1 (find-In id client s'.observers (c.listening id ∙ found), same_event, refl),
        ),
      )
