-- ===== src/Mapper/Abstract.antt =====
-- What a mapper promises, without its maps: each device gives a key one command or none.
use pointer_force.Prelude.{
  ℕ, String, ◌≡◌, refl, ap, ◌∙◌, inl, inr, Bool, true, false, ◌&&◌, Option, none, some, List, [],
  ◌∷◌, arith, if◌then◌else◌, ◌==◌, Bool-cases, Option-cases, All, ℤ, is_negative, string_eq, int_eq,
  nat_eq,
}
use pointer_force.Common.{Config}
use pointer_force.Keys.{name_to_code}
use pointer_force.Mapper.{Table, init, lookup, add_binding, remove_binding}
use pointer_force.Mapper.View.{view, or_else, lookup-eq-view}
use pointer_force.Mapper.Reload.{configured, HasUniqueKeys, view-init}
use pointer_force.Mapper.Edits.{view-add_binding, view-remove_binding, remove_binding-result}

-- One call of the mapper's interface.
pub data Call : Type 0 where
  reloads : Config → Call
  adds : String → String → String → Call
  removes : String → String → Call
  looks_up : String → ℤ → Call

pub data Answer : Type 0 where
  done : Answer
  said : Bool → Answer
  found : Option String → Answer

-- The specification: a function of the device and the key.
abbrev pub Bindings : Type 0
Bindings = String → ℤ → Option String

abbrev pub put : Option String → String → ℤ → Bindings → Bindings
put cmd d k b d' k' = if d == d' && k == k' then cmd else b d' k'

abbrev pub is_some : Option String → Bool
is_some none = false
is_some (some cmd) = true

module _ (input_code : String → ℕ) where
  abbrev pub code : String → ℤ
  code key = name_to_code input_code key

  abbrev pub specified : Call → Bindings → Answer × Bindings
  specified (reloads config) b = (done, configured config.devices)
  specified (adds d key cmd) b =
      if is_negative (code key) then (said false, b) else (said true, put (some cmd) d (code key) b)
  specified (removes d key) b =
      if is_negative (code key)
      then (said false, b)
      else (said (is_some (b d (code key))), put none d (code key) b)
  specified (looks_up d k) b = (found (or_else (b d k) (b "*" k)), b)

  abbrev pub called : Call → Table → Answer × Table
  called (reloads config) t = (done, init config)
  called (adds d key cmd) t = let (t', ok) = add_binding input_code t d key cmd in (said ok, t')
  called (removes d key) t = let (t', ok) = remove_binding input_code t d key in (said ok, t')
  called (looks_up d k) t = (found (lookup t d k), t)

  unfoldable pub answers : List Call → Table → List Answer
  answers [] t = []
  answers (call ∷ calls) t = let (a, t') = called call t in a ∷ answers calls t'

  unfoldable pub specified_answers : List Call → Bindings → List Answer
  specified_answers [] b = []
  specified_answers (call ∷ calls) b =
      let (a, b') = specified call b in a ∷ specified_answers calls b'

  -- The table stands for the bindings.
  abbrev pub Implements : Table → Bindings → Type 0
  Implements t b = (d : String) (k : ℤ) → view t d k ≡ b d k

  abbrev pub IsUsable : Call → Type 0
  IsUsable (reloads config) = All HasUniqueKeys config.devices
  IsUsable (adds d key cmd) = Unit
  IsUsable (removes d key) = Unit
  IsUsable (looks_up d k) = Unit

  unknown_add :
      (t : Table) (d key cmd : String)
      → is_negative (code key) ≡ true
      → add_binding input_code t d key cmd ≡ (t, false)
  unfolding add_binding
  unknown_add t d key cmd h = ground (arith, h)

  known_add :
      (t : Table) (d key cmd : String)
      → is_negative (code key) ≡ false
      → (add_binding input_code t d key cmd).1 ≡ true
  unfolding add_binding
  known_add t d key cmd h = ground (arith, h)

  unknown_remove :
      (t : Table) (d key : String)
      → is_negative (code key) ≡ true
      → remove_binding input_code t d key ≡ (t, false)
  unfolding remove_binding
  unknown_remove t d key h = ground (arith, h)

  known_remove :
      (t : Table) (d key : String)
      → is_negative (code key) ≡ false
      → (remove_binding input_code t d key).1 ≡ is_some (view t d (code key))
  known_remove t d key h =
      let held = remove_binding-result input_code t d key h in
      elim (Option-cases (view t d (code key))) [
        | inl e ↦ ground (arith, held, e)
        | inr (cmd, e) ↦ rw e (held.1 (rw e (λ none_there. cc)))
      ]

  -- One call: the same answer, and what is left still stands for what is specified.
  call_refines :
      (call : Call) (t : Table) (b : Bindings)
      → IsUsable call
      → Implements t b
      → ((called call t).0 ≡ (specified call b).0)
        × Implements (called call t).1 (specified call b).1
  call_refines (reloads config) t b u r = (refl, λ d k. view-init config d k u)
  call_refines (adds d key cmd) t b u r = elim (Bool-cases (is_negative (code key))) [
    | inl no_key ↦ rw (unknown_add t d key cmd no_key, no_key) (refl, r)
    | inr known ↦ rw known (
      ap said (known_add t d key cmd known),
      λ d' k. view-add_binding input_code t d key cmd d' k known ∙ ground (arith, r d' k),
    )
  ]
  call_refines (removes d key) t b u r = elim (Bool-cases (is_negative (code key))) [
    | inl no_key ↦ rw (unknown_remove t d key no_key, no_key) (refl, r)
    | inr known ↦ rw known (
      ap said (known_remove t d key known ∙ ap is_some (r d (code key))),
      λ d' k. view-remove_binding input_code t d key d' k known ∙ ground (arith, r d' k),
    )
  ]
  call_refines (looks_up d k) t b u r =
      (ap found (lookup-eq-view t d k ∙ rw (r d k, r "*" k) refl), r)

  calls_refine :
      (calls : List Call) (t : Table) (b : Bindings)
      → All IsUsable calls
      → Implements t b
      → answers calls t ≡ specified_answers calls b
  unfolding answers specified_answers
  calls_refine [] t b u r = refl
  calls_refine (call ∷ calls) t b u r =
      let (same, r') = call_refines call t b u.0 r in
      rw (same, calls_refine calls (called call t).1 (specified call b).1 u.1 r') refl

  -- Whatever calls are made of a mapper, its answers are those of the specification, a function of
  -- the device and the key that an edit changes at one place, if in each configuration that is
  -- loaded a device binds a key once.
  pub answers-eq-specified_answers :
      (config : Config) (calls : List Call)
      → All HasUniqueKeys config.devices
      → All IsUsable calls
      → answers calls (init config) ≡ specified_answers calls (configured config.devices)
  answers-eq-specified_answers config calls u all =
      calls_refine calls (init config) (configured config.devices) all λ d k. view-init config d k u
