-- ===== src/EventLoop/Agreement.antt =====
-- What the loop of one device reads, against the reader of src/devicemanager.cpp.
use pointer_force.Prelude.{
  ◌<◌, ◌≡◌, refl, ap, ◌∙◌, Bool, true, false, List, [], ◌∷◌, arith, length, string_eq, int_eq,
  nat_eq,
}
use pointer_force.Common.{InputEvent}
use pointer_force.EventQueue.{EventQueue, push}
use pointer_force.DeviceManager.{
  Entry, Answer, success, sync, again, failed, Mode, normal, draining, reader,
}
use pointer_force.EventLoop.{Reading, event_read, no_more, waits, read_next}

-- The event under the device of the entry.
abbrev pub under : Entry → InputEvent → InputEvent
under e ev = record ev { device_id = e.cfg.id; device_path = e.device.path }

module _ (e : Entry) where
  -- What a reading has to do with what the reader pushes.
  abbrev pub Agrees :
      Mode → List (Bool × Answer) → EventQueue → Reading → List (Bool × Answer) → Type 0
  Agrees mode answers q (event_read ev) rest =
      (reader e mode answers q ≡ reader e normal rest (push (under e ev) q))
      × (length rest < length answers)
  Agrees mode answers q no_more rest = (reader e mode answers q).1 ≡ q
  Agrees mode answers q waits rest = (reader e mode answers q).1 ≡ q

  Agrees-later :
      (mode mode' : Mode) (a : Bool × Answer) (answers : List (Bool × Answer)) (q : EventQueue)
      (reading : Reading) (rest : List (Bool × Answer))
      → reader e mode (a ∷ answers) q ≡ reader e mode' answers q
      → Agrees mode' answers q reading rest
      → Agrees mode (a ∷ answers) q reading rest
  Agrees-later mode mode' a answers q (event_read ev) rest same (h, short) =
      (same ∙ h, omega (arith, short))
  Agrees-later mode mode' a answers q no_more rest same h =
      ap (λ (r : Entry × EventQueue). r.1) same ∙ h
  Agrees-later mode mode' a answers q waits rest same h =
      ap (λ (r : Entry × EventQueue). r.1) same ∙ h

  -- Whatever libevdev answers, what the older loop reads next is what a reader of the device pushes
  -- next, but for the device's id and path, and the reader goes on with the same answers, of which
  -- fewer are left; where the older loop stops or still waits, the reader pushes nothing more.
  pub read_next-Agrees :
      (mode : Mode) (answers : List (Bool × Answer)) (q : EventQueue)
      → Agrees mode answers q (read_next mode answers).0 (read_next mode answers).1
  unfolding read_next reader
  read_next-Agrees normal [] q = refl
  read_next-Agrees draining [] q = refl
  read_next-Agrees draining ((wanted, sync) ∷ rest) q =
      Agrees-later draining draining (wanted, sync) rest q _ _ refl
        (read_next-Agrees draining rest q)
  read_next-Agrees draining ((wanted, success is_key code value now) ∷ rest) q =
      Agrees-later draining normal (wanted, success is_key code value now) rest q _ _ refl
        (read_next-Agrees normal rest q)
  read_next-Agrees draining ((wanted, again) ∷ rest) q =
      Agrees-later draining normal (wanted, again) rest q _ _ refl (read_next-Agrees normal rest q)
  read_next-Agrees draining ((wanted, failed) ∷ rest) q =
      Agrees-later draining normal (wanted, failed) rest q _ _ refl (read_next-Agrees normal rest q)
  read_next-Agrees normal ((false, a) ∷ rest) q = refl
  read_next-Agrees normal ((true, success true code value now) ∷ rest) q = (refl, omega arith)
  read_next-Agrees normal ((true, success false code value now) ∷ rest) q =
      Agrees-later normal normal (true, success false code value now) rest q _ _ refl
        (read_next-Agrees normal rest q)
  read_next-Agrees normal ((true, sync) ∷ rest) q =
      Agrees-later normal draining (true, sync) rest q _ _ refl (read_next-Agrees draining rest q)
  read_next-Agrees normal ((true, again) ∷ rest) q =
      Agrees-later normal normal (true, again) rest q _ _ refl (read_next-Agrees normal rest q)
  read_next-Agrees normal ((true, failed) ∷ rest) q = refl
