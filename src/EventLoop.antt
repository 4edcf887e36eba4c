-- ===== src/EventLoop.antt =====
-- src/event.cpp: the loop of one device that was there before the device manager and the
-- multiplexer, and that no build file names any more.
--
-- Its `run` calls Mapper::lookup with a key code alone, which the mapper does not offer, and so does
-- not compile: only `read_next` is modelled. The answers of libevdev are those that a reader of
-- src/devicemanager.cpp gets: each with whether `g_running` held when it was last tested.
pub mod Agreement
use pointer_force.Prelude.{
  ℕ, zero, suc, ◌+◌, ◌-◌, ◌*◌, ◌%◌, ◌≤◌, ◌<◌, min, String, ◌≡◌, refl, sym, ap, subst, ◌∙◌, ◌≢◌, ◌↔◌,
  ◌⊎◌, inl, inr, Bool, true, false, not, ◌&&◌, ◌||◌, Option, none, some, List, [], ◌∷◌, ◌++◌, map,
  append_assoc, append-nil, arith, eq_iff, eq_refl, ltb, leb, nat_beq, nat_beq_iff, if◌then◌else◌,
  Eq, ◌==◌, is_empty, Bool-cases, Option-cases, length, length-append, get_elem?, In,
  In-append_left, In-append_right, In-append, All, All-append, Outcome, returns, throws,
  Outcome-cases, >>=-eq-returns, Ensures, Ensures-returns, Ensures-if, Ensures-bind, Returns,
  Returns-bind, Returns-if, Returns-after, ◌>>=◌, ◌>>◌, ℤ, pos, negsuc, is_negative, int_beq,
  int_beq_iff, string_eq, int_eq, nat_eq,
}
use pointer_force.Common.{InputEvent}
use pointer_force.DeviceManager.{Answer, success, sync, again, failed, Mode, normal, draining}

-- What `read_next` makes of its answers: an event, or false, or it still waits for one.
pub data Reading : Type 0 where
  event_read : InputEvent → Reading
  no_more waits : Reading

-- The fields of the device are those of `InputEvent ev{}`.
abbrev pub plain_event : ℤ → ℤ → ℕ → InputEvent
plain_event code value now = record {
  device_id = "";
  device_path = "";
  code = code;
  value = value;
  timestamp = now;
}

-- The reading, and the answers that are left.
unfoldable pub read_next : Mode → List (Bool × Answer) → Reading × List (Bool × Answer)
read_next mode [] = (waits, [])
read_next draining ((wanted, sync) ∷ rest) = read_next draining rest
read_next draining ((wanted, success is_key code value now) ∷ rest) = read_next normal rest
read_next draining ((wanted, again) ∷ rest) = read_next normal rest
read_next draining ((wanted, failed) ∷ rest) = read_next normal rest
read_next normal ((false, a) ∷ rest) = (no_more, (false, a) ∷ rest)
read_next normal ((true, success true code value now) ∷ rest) =
    (event_read (plain_event code value now), rest)
read_next normal ((true, success false code value now) ∷ rest) = read_next normal rest
read_next normal ((true, sync) ∷ rest) = read_next draining rest
read_next normal ((true, again) ∷ rest) = read_next normal rest
read_next normal ((true, failed) ∷ rest) = (no_more, rest)
