-- ===== src/Device/Resources.antt =====
-- A device gives back what it took.
use pointer_force.Prelude.{
  String, ◌≡◌, refl, ◌≢◌, true, false, none, List, ◌∷◌, arith, Eq, ℤ, is_negative, string_eq,
  int_eq, nat_eq,
}
use pointer_force.Device.{
  Device, closed_device, Os, remove_first, is_open, OpenAnswers, open_device, grab, close,
}

-- An open device has its context; one that is not open has none, and is not grabbed.
pub record IsConsistent (d : Device) : Type 0 where
  pub opened : is_negative d.fd ≡ false → d.dev ≢ none
  pub closed : is_negative d.fd ≡ true → (d.dev ≡ none) × (d.grabbed ≡ false)

remove_first-head {ℓ} : {A : Type ℓ} ⦃e : Eq A⦄ (x : A) (xs : List A) → remove_first x (x ∷ xs) ≡ xs
unfolding remove_first
remove_first-head ⦃e⦄ x xs = rw ((e.same_iff x x).1 refl)

open_device-IsConsistent :
    (answers : OpenAnswers) (path : String) (os : Os)
    → IsConsistent (open_device answers path closed_device os).1
unfolding open_device
open_device-IsConsistent answers path os = record { opened = ground arith; closed = ground arith }

grab-IsConsistent : (rc : ℤ) (d : Device) → IsConsistent d → IsConsistent (grab rc d).1
unfolding grab
grab-IsConsistent rc d c = record {
  opened = ground (arith, c.opened, c.closed);
  closed = ground (arith, c.opened, c.closed);
}

close-IsConsistent : (d : Device) (os : Os) → IsConsistent d → IsConsistent (close d os).0
unfolding close
close-IsConsistent d os c = record {
  opened = ground (arith, c.opened, c.closed);
  closed = ground (arith, c.opened, c.closed);
}

-- Opening a fresh device, grabbing it or not, and closing it leaves the process with the
-- descriptors and contexts that it had, whatever the system and libevdev answer; the device is
-- closed, has no context and holds no grab.
close-open :
    (answers : OpenAnswers) (path : String) (rc : ℤ) (os : Os)
    → let opened = open_device answers path closed_device os in
      let last = close (grab rc opened.1).1 opened.2 in
      (last.1 ≡ os) × (is_open last.0 ≡ false) × (last.0.dev ≡ none) × (last.0.grabbed ≡ false)
unfolding open_device grab close
close-open answers path rc os =
    ground (
      arith,
      remove_first-head answers.fd os.open_fds,
      remove_first-head answers.context os.contexts,
    )

-- Closing a device a second time does nothing.
pub close-close : (d : Device) (os : Os) → close (close d os).0 (close d os).1 ≡ close d os
unfolding close
close-close d os = ground arith
