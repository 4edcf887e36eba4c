-- ===== src/Tests/Devices.antt =====
-- Devices and their readers on small inputs.
use pointer_force.Prelude.{
  length, String, Bool, true, false, none, List, [], ◌∷◌, length, pos, string_eq, int_eq, nat_eq,
}
use pointer_force.EventQueue.{EventQueue}
use pointer_force.Device.{Device, Os, OpenAnswers}
use pointer_force.DeviceManager.{Entry, new_entry, Answer, success, again, failed, normal}
use pointer_force.Config.{no_match}
use pointer_force.EventQueue.{empty_queue}
use pointer_force.EventLoop.{read_next}
use pointer_force.EventLoop.Agreement.{Agrees, read_next-Agrees}

abbrev os : Os
os = record { open_fds = pos 0 ∷ pos 1 ∷ []; contexts = [] }

abbrev answers : OpenAnswers
answers = record { fd = pos 5; rc = pos 0; context = 9 }

abbrev opened : Device
opened = record { fd = pos 1; dev = none; grabbed = false; path = "/dev/input/event3" }

abbrev entry : Entry
entry = new_entry (record { id = "mouse"; criteria = no_match; grab = false; bindings = [] }) opened

abbrev queue : EventQueue
queue = record { q = []; is_shutdown = false }

abbrev plain : List Answer
plain = success true (pos 30) (pos 1) 7 ∷ again ∷ success false (pos 0) (pos 3) 8 ∷ []

abbrev listing : List (String × String)
listing = ("event3", "/dev/input/event3") ∷ ("mice", "/dev/input/mice") ∷ []

abbrev pressed_side : List (Bool × Answer)
pressed_side = (true, success true (pos 30) (pos 1) 7) ∷ (true, again) ∷ (true, failed) ∷ []

read_next-Agrees_example :
    Agrees entry normal pressed_side empty_queue
      (read_next normal pressed_side).0
      (read_next normal pressed_side).1
read_next-Agrees_example = read_next-Agrees entry normal pressed_side empty_queue
