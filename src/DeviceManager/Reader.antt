-- ===== src/DeviceManager/Reader.antt =====
-- What a reader thread puts into the queue.
use pointer_force.Prelude.{
  ◌≡◌, refl, sym, ◌∙◌, Bool, true, false, List, [], ◌∷◌, ◌++◌, append_assoc, append-nil, arith, All,
  string_eq, int_eq, nat_eq,
}
use pointer_force.Common.{InputEvent}
use pointer_force.EventQueue.{EventQueue, push}
use pointer_force.DeviceManager.{
  Entry, Answer, success, sync, again, failed, Mode, normal, draining, tagged, reader,
}

-- The event comes from the device of the entry.
abbrev IsOf : Entry → InputEvent → Type 0
IsOf e ev = (ev.device_id ≡ e.cfg.id) × (ev.device_path ≡ e.device.path)

abbrev Appends : Entry → EventQueue → EventQueue → Type 0
Appends e q q' = (evs : List InputEvent) × (q'.q ≡ q.q ++ evs) × All (IsOf e) evs

none_added : (e : Entry) (q : EventQueue) → Appends e q q
none_added e q = ([], sym (append-nil q.q), tt)

-- Whatever libevdev answers, a reader only appends events to the queue, each under the logical id
-- and the path of its own device, and leaves the entry as it is but for `active`.
reader_appends :
    (e : Entry) (mode : Mode) (answers : List (Bool × Answer)) (q : EventQueue)
    → ((evs : List InputEvent) × ((reader e mode answers q).1.q ≡ q.q ++ evs) × All (IsOf e) evs)
      × ((reader e mode answers q).0.cfg ≡ e.cfg)
      × ((reader e mode answers q).0.device ≡ e.device)
unfolding reader push
reader_appends e mode [] q = (none_added e q, refl, refl)
reader_appends e draining ((wanted, sync) ∷ rest) q = reader_appends e draining rest q
reader_appends e draining ((wanted, success is_key code value now) ∷ rest) q =
    reader_appends e normal rest q
reader_appends e draining ((wanted, again) ∷ rest) q = reader_appends e normal rest q
reader_appends e draining ((wanted, failed) ∷ rest) q = reader_appends e normal rest q
reader_appends e normal ((false, a) ∷ rest) q = (none_added e q, refl, refl)
reader_appends e normal ((true, success true code value now) ∷ rest) q =
    let ((evs, added, ours), c, d) =
      reader_appends e normal rest (push (tagged e code value now) q) in
    ((tagged e code value now ∷ evs, added ∙ append_assoc q.q _ evs, ((refl, refl), ours)), c, d)
reader_appends e normal ((true, success false code value now) ∷ rest) q =
    reader_appends e normal rest q
reader_appends e normal ((true, sync) ∷ rest) q = reader_appends e draining rest q
reader_appends e normal ((true, again) ∷ rest) q = reader_appends e normal rest q
reader_appends e normal ((true, failed) ∷ rest) q = (none_added e q, refl, refl)

-- The key events among plain answers.
abbrev key_events : Entry → List Answer → List InputEvent
key_events e [] = []
key_events e (success true code value now ∷ answers) =
    tagged e code value now ∷ key_events e answers
key_events e (success false code value now ∷ answers) = key_events e answers
key_events e (sync ∷ answers) = key_events e answers
key_events e (again ∷ answers) = key_events e answers
key_events e (failed ∷ answers) = key_events e answers

abbrev is_plain : Answer → Bool
is_plain (success is_key code value now) = true
is_plain again = true
is_plain sync = false
is_plain failed = false

abbrev wanted_all : List Answer → List (Bool × Answer)
wanted_all [] = []
wanted_all (a ∷ answers) = (true, a) ∷ wanted_all answers

-- As long as the device answers with events or with nothing, and nobody stops the reader, exactly
-- the key events reach the queue, in their order, and the device stays active.
reader_forwards :
    (e : Entry) (answers : List Answer) (q : EventQueue)
    → All (λ a. is_plain a ≡ true) answers
    → ((reader e normal (wanted_all answers) q).1.q ≡ q.q ++ key_events e answers)
      × ((reader e normal (wanted_all answers) q).0 ≡ e)
unfolding reader push
reader_forwards e [] q h = (sym (append-nil q.q), refl)
reader_forwards e (success true code value now ∷ answers) q h =
    let (added, same) = reader_forwards e answers (push (tagged e code value now) q) h.1 in
    (added ∙ append_assoc q.q _ (key_events e answers), same)
reader_forwards e (success false code value now ∷ answers) q h = reader_forwards e answers q h.1
reader_forwards e (again ∷ answers) q h = reader_forwards e answers q h.1
reader_forwards e (sync ∷ answers) q h = absurd (ground (arith, h.0))
reader_forwards e (failed ∷ answers) q h = absurd (ground (arith, h.0))
