-- ===== src/Multiplexer/Run.antt =====
-- What the loop does over many rounds.
use pointer_force.Prelude.{
  ℕ, String, ◌≡◌, refl, sym, ap, subst, ◌∙◌, ◌⊎◌, inl, inr, Bool, true, false, Option, List, [],
  ◌∷◌, ◌++◌, append_assoc, append-nil, arith, Bool-cases, In, In-append_left, In-append_right,
  In-append, returns, Outcome-cases, Ensures, Ensures-returns, Ensures-if, Ensures-bind, string_eq,
  int_eq, nat_eq,
}
use pointer_force.Assoc.{Assoc}
use pointer_force.Common.{Config, InputEvent, key_press}
use pointer_force.Json.{Json, Bytes}
use pointer_force.Mapper.{Table}
use pointer_force.Config.{load}
use pointer_force.EventQueue.{EventQueue, push, pop}
use pointer_force.Multiplexer.{
  Shared, Observer, Effect, executed, handle_event, reloaded, reload_if_asked, pop_and_handle,
  round, run, Outside, event_pushed, terminate_signal, reload_signal, observer_added,
  observer_removed, table_changed, config_changed, outside_step, outside_steps, add_observer,
  remove_observer,
}
use pointer_force.Multiplexer.Round.{In-handle_event}

-- What handling some events in turn does, with the table and the observers as they are.
abbrev pub handle_all : Table → Assoc ℕ Observer → List InputEvent → List Effect
handle_all t m [] = []
handle_all t m (ev ∷ evs) = handle_event t m ev ++ handle_all t m evs

-- That many rounds with nothing from outside.
abbrev pub quiet_rounds : List InputEvent → List (List Outside)
quiet_rounds [] = []
quiet_rounds (ev ∷ evs) = [] ∷ quiet_rounds evs

module _ (J : Json) (input_code : String → ℕ) (files : String → Option Bytes) where
  round_of_event :
      (s : Shared) (ev : InputEvent) (evs : List InputEvent)
      → s.reload ≡ false
      → s.queue.q ≡ ev ∷ evs
      → round J input_code files s
        ≡ returns
            (handle_event s.table s.observers ev, record s { queue = record s.queue { q = evs } })
  unfolding round reload_if_asked pop_and_handle pop
  round_of_event s ev evs calm waiting = ground (arith, calm, waiting)

  -- While the loop is left alone, the waiting events are handled one a round, oldest first, and as
  -- many rounds as events empty the queue and change nothing else.
  pub run_drains :
      (evs : List InputEvent) (s : Shared)
      → s.is_running ≡ true
      → s.reload ≡ false
      → s.queue.q ≡ evs
      → run J input_code files (quiet_rounds evs) s
        ≡ returns
            (handle_all s.table s.observers evs, record s { queue = record s.queue { q = [] } })
  unfolding run outside_steps
  run_drains [] s on calm waiting = ground (arith, waiting)
  run_drains (ev ∷ evs) s on calm waiting = ground (
    arith,
    on,
    round_of_event s ev evs calm waiting,
    run_drains evs (record s { queue = record s.queue { q = evs } }) on calm refl,
  )

-- The events that reader threads push in the rounds.
abbrev pub pushed_by : List Outside → List InputEvent
pushed_by [] = []
pushed_by (event_pushed ev ∷ os) = ev ∷ pushed_by os
pushed_by (o ∷ os) = pushed_by os

abbrev pub all_pushed : List (List Outside) → List InputEvent
all_pushed [] = []
all_pushed (os ∷ rest) = pushed_by os ++ all_pushed rest

pub q-outside_steps :
    (os : List Outside) (s : Shared) → (outside_steps os s).queue.q ≡ s.queue.q ++ pushed_by os
unfolding outside_steps outside_step push add_observer remove_observer
q-outside_steps [] s = sym (append-nil s.queue.q)
q-outside_steps (event_pushed ev ∷ os) s =
    q-outside_steps os _ ∙ append_assoc s.queue.q (ev ∷ []) (pushed_by os)
q-outside_steps (terminate_signal ∷ os) s = q-outside_steps os _
q-outside_steps (reload_signal ∷ os) s = q-outside_steps os _
q-outside_steps (observer_added obs ∷ os) s = q-outside_steps os _
q-outside_steps (observer_removed id ∷ os) s = q-outside_steps os _
q-outside_steps (table_changed t ∷ os) s = q-outside_steps os _
q-outside_steps (config_changed c ∷ os) s = q-outside_steps os _

-- The command comes from a press among these events.
abbrev pub HasPress : List InputEvent → Type 0
HasPress evs = (ev : InputEvent) × In ev evs × (ev.value ≡ key_press)

HasPress-mono :
    (xs ys : List InputEvent)
    → ((ev : InputEvent) → In ev xs → In ev ys)
    → HasPress xs
    → HasPress ys
HasPress-mono xs ys h (ev, i, p) = (ev, h ev i, p)

record IsRound (s : Shared) (r : List Effect × Shared) : Type 0 where
  presses : (cmd : String) → In (executed cmd) r.0 → HasPress s.queue.q
  waiting : (ev : InputEvent) → In ev r.1.queue.q → In ev s.queue.q

pub popped :
    (s : Shared) (ev : InputEvent) (evs : List InputEvent)
    → s.queue.q ≡ ev ∷ evs
    → pop_and_handle s
      ≡ (handle_event s.table s.observers ev, record s { queue = record s.queue { q = evs } })
unfolding pop_and_handle pop
popped s ev evs e = ground (arith, e)

pop_and_handle-IsRound :
    (evs : List InputEvent) (s : Shared) → s.queue.q ≡ evs → IsRound s (pop_and_handle s)
unfolding pop_and_handle pop
pop_and_handle-IsRound [] s e = record {
  presses = λ cmd h. absurd (ground (arith, e));
  waiting = λ ev h. ground (arith, e);
}
pop_and_handle-IsRound (ev ∷ evs) s e = subst (IsRound s) (sym (popped s ev evs e)) (record {
  presses = λ cmd h. (ev, rw e (inl refl), ((In-handle_event s.table s.observers ev cmd).0 h).0);
  waiting = λ x h. rw e (inr h);
})

IsRound-move :
    (s' s : Shared) (r : List Effect × Shared) → s'.queue ≡ s.queue → IsRound s' r → IsRound s r
IsRound-move s' s r e h = record {
  presses = λ cmd i. subst (λ (q : EventQueue). HasPress q.q) e (h.presses cmd i);
  waiting = λ ev i. subst (λ (q : EventQueue). In ev q.q) e (h.waiting ev i);
}

pub queue-reloaded : (s : Shared) (r : Bool × Config) → (reloaded s r).queue ≡ s.queue
queue-reloaded s (true, c) = refl
queue-reloaded s (false, c) = refl

module _ (J : Json) (input_code : String → ℕ) (files : String → Option Bytes) where
  pub queue-reload_if_asked :
      (s : Shared) → Ensures (λ s'. s'.queue ≡ s.queue) (reload_if_asked J input_code files s)
  unfolding reload_if_asked
  queue-reload_if_asked s =
      Ensures-if s.reload _ _
        (λ _.
          Ensures-bind (load J input_code files s.config.config_path s.config) _
            λ r _. Ensures-returns _ (queue-reloaded s r))
        (λ _. Ensures-returns s refl)

  round-IsRound : (s : Shared) → Ensures (IsRound s) (round J input_code files s)
  unfolding round
  round-IsRound s = Ensures-bind (reload_if_asked J input_code files s) _ λ s' e.
      Ensures-returns _ (
        IsRound-move s' s _ ((queue-reload_if_asked s).at_return s' e)
          (pop_and_handle-IsRound s'.queue.q s' refl))

  run_cons :
      (os : List Outside) (rest : List (List Outside)) (s last : Shared) (effects : List Effect)
      → run J input_code files (os ∷ rest) s ≡ returns (effects, last)
      → (effects ≡ [])
        ⊎ ((now : List Effect) × (more : List Effect) × (s'' : Shared) × (round J input_code files
                (outside_steps os s)
              ≡ returns (now, s''))
            × (run J input_code files rest s'' ≡ returns (more, last))
            × (effects ≡ now ++ more))
  unfolding run
  run_cons os rest s last effects h =
      let s' = outside_steps os s in
      elim (Bool-cases s'.is_running) [
        | inl on ↦ elim (Outcome-cases (round J input_code files s')) [
          | inl ((now, s''), e) ↦ elim (Outcome-cases (run J input_code files rest s'')) [
            | inl ((more, end), f) ↦
                inr (now, more, s'', e, ground (arith, on, e, f), ground (arith, on, e, f))
            | inr f ↦ absurd (ground (arith, on, e, f))
          ]
          | inr e ↦ absurd (ground (arith, on, e))
        ]
        | inr off ↦ inl (ground (arith, off))
      ]

  In-pushed :
      (ev : InputEvent) (os : List Outside) (rest : List (List Outside)) (s : Shared)
      → In ev ((outside_steps os s).queue.q ++ all_pushed rest)
      → In ev (s.queue.q ++ all_pushed (os ∷ rest))
  In-pushed ev os rest s i =
      subst (In ev)
        (ap (λ q. q ++ all_pushed rest) (q-outside_steps os s)
          ∙ append_assoc s.queue.q (pushed_by os) (all_pushed rest))
        i

  In-append_mono :
      (xs ys zs : List InputEvent)
      → ((ev : InputEvent) → In ev xs → In ev ys)
      → (ev : InputEvent) → In ev (xs ++ zs)
      → In ev (ys ++ zs)
  In-append_mono xs ys zs h ev i = elim (In-append ev xs zs i) [
    | inl l ↦ In-append_left ev ys zs (h ev l)
    | inr r ↦ In-append_right ev ys zs r
  ]

  -- Every command that the loop runs comes from a key press that waited at the start or that a
  -- reader has pushed since.
  run_executes_presses :
      (rounds : List (List Outside)) (s last : Shared) (effects : List Effect) (cmd : String)
      → run J input_code files rounds s ≡ returns (effects, last)
      → In (executed cmd) effects
      → HasPress (s.queue.q ++ all_pushed rounds)
  unfolding run
  run_executes_presses [] s last effects cmd h i = absurd (ground arith)
  run_executes_presses (os ∷ rest) s last effects cmd h i =
      elim (run_cons os rest s last effects h) [
        | inl none_yet ↦ absurd (rw none_yet at i)
        | inr (now, more, s'', e, f, both) ↦
            let r = (round-IsRound (outside_steps os s)).at_return _ e in
            elim (In-append (executed cmd) now more (rw both at i)) [
              | inl first ↦
                  HasPress-mono (outside_steps os s).queue.q _
                    (λ ev k. In-pushed ev os rest s (In-append_left ev _ (all_pushed rest) k))
                    (r.presses cmd first)
              | inr later ↦
                  HasPress-mono (s''.queue.q ++ all_pushed rest) _
                    (λ ev k.
                      In-pushed ev os rest s (In-append_mono _ _ (all_pushed rest) r.waiting ev k))
                    (run_executes_presses rest s'' last more cmd f later)
            ]
      ]
