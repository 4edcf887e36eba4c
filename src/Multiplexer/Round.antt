-- ===== src/Multiplexer/Round.antt =====
-- What one event, and one round of the loop, does.
use pointer_force.Prelude.{
  ℕ, String, ◌≡◌, sym, ap, ◌↔◌, inl, inr, true, false, Option, none, some, [], ◌∷◌, ◌++◌, arith,
  if◌then◌else◌, is_empty, Bool-cases, In, In-append_left, In-append_right, In-append, int_beq,
  int_beq_iff, string_eq, int_eq, nat_eq,
}
use pointer_force.Assoc.{Assoc}
use pointer_force.Common.{Config, InputEvent, key_press}
use pointer_force.Json.{Json}
use pointer_force.Mapper.{Table, lookup}
use pointer_force.Multiplexer.{
  Observer, notified, executed, notify, run_command, value_or, handle_event,
}

notify-not_executed :
    (m : Assoc ℕ Observer) (ev : InputEvent) (cmd x : String) → ¬ In (executed x) (notify m ev cmd)
unfolding notify
notify-not_executed [] ev cmd x h = h
notify-not_executed ((id, obs) ∷ m) ev cmd x (inl e) = cc
notify-not_executed ((id, obs) ∷ m) ev cmd x (inr h) = notify-not_executed m ev cmd x h

In-run_command :
    (cmd x : String) → In (executed x) (run_command cmd) → (x ≡ cmd) × (is_empty cmd ≡ false)
unfolding run_command
In-run_command cmd x h = ground arith

run_command-In : (cmd : String) → is_empty cmd ≡ false → In (executed cmd) (run_command cmd)
unfolding run_command
run_command-In cmd h = ground arith

found_of_command :
    (found : Option String) (cmd : String)
    → cmd ≡ value_or found ""
    → is_empty (value_or found "") ≡ false
    → (found ≡ some cmd) × (is_empty cmd ≡ false)
found_of_command none cmd e n = cc
found_of_command (some c) cmd e n = (ap some (sym e), rw e n)

-- mapper_.lookup(ev.device_id, ev.code).value_or("")
abbrev pub command_of : Table → InputEvent → String
command_of t ev = value_or (lookup t ev.device_id ev.code) ""

module _ (t : Table) (m : Assoc ℕ Observer) (ev : InputEvent) where
  abbrev command : String
  command = command_of t ev

  pub handle_press :
      int_beq ev.value key_press ≡ true
      → handle_event t m ev ≡ notify m ev (command_of t ev) ++ run_command (command_of t ev)
  unfolding handle_event
  handle_press h = ground arith

  pub handle_other : int_beq ev.value key_press ≡ false → handle_event t m ev ≡ notify m ev ""
  unfolding handle_event
  handle_other h = ground arith

  command_found :
      (cmd : String)
      → cmd ≡ command
      → is_empty command ≡ false
      → (lookup t ev.device_id ev.code ≡ some cmd) × (is_empty cmd ≡ false)
  command_found cmd e n = found_of_command (lookup t ev.device_id ev.code) cmd e n

  executed_of_press :
      (cmd : String)
      → In (executed cmd) (notify m ev command ++ run_command command)
      → (lookup t ev.device_id ev.code ≡ some cmd) × (is_empty cmd ≡ false)
  executed_of_press cmd h =
      elim (In-append (executed cmd) (notify m ev command) (run_command command) h) [
        | inl l ↦ absurd (notify-not_executed m ev command cmd l)
        | inr r ↦ let (e, n) = In-run_command command cmd r in command_found cmd e n
      ]

  executed_needs_press :
      (cmd : String)
      → In (executed cmd) (handle_event t m ev)
      → (ev.value ≡ key_press) × (lookup t ev.device_id ev.code ≡ some cmd) × (is_empty cmd ≡ false)
  executed_needs_press cmd h = elim (Bool-cases (int_beq ev.value key_press)) [
    | inl p ↦
        let (found, full) = executed_of_press cmd (rw (handle_press p) at h) in
        ((int_beq_iff ev.value key_press).0 p, found, full)
    | inr n ↦ absurd (notify-not_executed m ev "" cmd (rw (handle_other n) at h))
  ]

  press_executes :
      (cmd : String)
      → ev.value ≡ key_press
      → lookup t ev.device_id ev.code ≡ some cmd
      → is_empty cmd ≡ false
      → In (executed cmd) (handle_event t m ev)
  press_executes cmd p l n =
      let same : command ≡ cmd = rw l in
      rw (handle_press ((int_beq_iff ev.value key_press).1 p), same)
        (In-append_right (executed cmd) _ _ (run_command-In cmd n))

-- A command is handed to the shell exactly if the event is a key press, the lookup of its device
-- and key finds that command, and the command is not empty.
pub In-handle_event :
    (t : Table) (m : Assoc ℕ Observer) (ev : InputEvent) (cmd : String)
    → In (executed cmd) (handle_event t m ev) ↔ (
        (ev.value ≡ key_press)
        × (lookup t ev.device_id ev.code ≡ some cmd)
        × (is_empty cmd ≡ false))
In-handle_event t m ev cmd =
    (executed_needs_press t m ev cmd, λ h. press_executes t m ev cmd h.0 h.1 h.2)

In-notify :
    (id : ℕ) (obs : Observer) (e ev : InputEvent) (cmd x : String) (m : Assoc ℕ Observer)
    → In (notified id obs e x) (notify m ev cmd)
    → In (id, obs) m × (e ≡ ev) × (x ≡ cmd)
unfolding notify
In-notify id obs e ev cmd x [] h = elim h [ ]
In-notify id obs e ev cmd x ((j, o) ∷ m) (inl p) = (inl (ground arith), ground arith, ground arith)
In-notify id obs e ev cmd x ((j, o) ∷ m) (inr h) =
    let (i, p, q) = In-notify id obs e ev cmd x m h in (inr i, p, q)

notify-In :
    (id : ℕ) (obs : Observer) (ev : InputEvent) (cmd : String) (m : Assoc ℕ Observer)
    → In (id, obs) m
    → In (notified id obs ev cmd) (notify m ev cmd)
unfolding notify
notify-In id obs ev cmd [] h = elim h [ ]
notify-In id obs ev cmd ((j, o) ∷ m) (inl p) = inl (ground arith)
notify-In id obs ev cmd ((j, o) ∷ m) (inr h) = inr (notify-In id obs ev cmd m h)

run_command-not_notified :
    (id : ℕ) (obs : Observer) (e : InputEvent) (x cmd : String)
    → ¬ In (notified id obs e x) (run_command cmd)
unfolding run_command
run_command-not_notified id obs e x cmd h = ground arith

-- Each registered observer is told of the event, bound or not: of a press with the command that
-- the lookup finds, or an empty one if it finds none, and of a release or a repeat with an empty
-- one. Nobody is told anything else.
pub notified-handle_event :
    (t : Table) (m : Assoc ℕ Observer) (ev e : InputEvent) (id : ℕ) (obs : Observer) (x : String)
    → In (notified id obs e x) (handle_event t m ev) ↔ (
        In (id, obs) m
        × (e ≡ ev)
        × (x ≡ (if int_beq ev.value key_press then command_of t ev else "")))
notified-handle_event t m ev e id obs x = elim (Bool-cases (int_beq ev.value key_press)) [
  | inl p ↦
      rw (handle_press t m ev p, p)
        (
          λ h. elim (In-append (notified id obs e x) _ _ h) [
            | inl l ↦ In-notify id obs e ev _ x m l
            | inr r ↦ absurd (run_command-not_notified id obs e x _ r)
          ],
          λ (i, q, r). rw (q, r) (In-append_left _ _ _ (notify-In id obs ev _ m i)),
        )
  | inr n ↦
      rw (handle_other t m ev n, n)
        (In-notify id obs e ev "" x m, λ (i, q, r). rw (q, r) (notify-In id obs ev "" m i))
]
