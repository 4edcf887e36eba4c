-- ===== src/Device.antt =====
-- src/device.cpp: one input device, its file descriptor and its libevdev context.
--
-- `Os` holds the descriptors and contexts that the process has open. What the system and libevdev
-- answer is an argument: the descriptor of open(2), the return code and the context of
-- libevdev_new_from_fd, the return code of libevdev_grab.
pub mod Sysfs
pub mod Resources
use text.Mathlib.Text.{find?}
use Prim.Native.String.{◌++◌ as str_append}
use pointer_force.Prelude.{
  ℕ, zero, suc, ◌+◌, ◌-◌, ◌*◌, ◌%◌, ◌≤◌, ◌<◌, min, String, ◌≡◌, refl, sym, ap, subst, ◌∙◌, ◌≢◌, ◌↔◌,
  ◌⊎◌, inl, inr, Bool, true, false, not, ◌&&◌, ◌||◌, Option, none, some, List, [], ◌∷◌, ◌++◌, map,
  append_assoc, append-nil, arith, eq_iff, eq_refl, ltb, leb, nat_beq, nat_beq_iff, if◌then◌else◌,
  Eq, ◌==◌, is_empty, Bool-cases, Option-cases, length, length-append, get_elem?, In,
  In-append_left, In-append_right, In-append, All, All-append, Outcome, returns, throws,
  Outcome-cases, >>=-eq-returns, Ensures, Ensures-returns, Ensures-if, Ensures-bind, Returns,
  Returns-bind, Returns-if, Returns-after, ◌>>=◌, ◌>>◌, ℤ, pos, negsuc, is_negative, int_beq,
  int_beq_iff, string_eq, int_eq, nat_eq,
}
use pointer_force.Common.{DeviceMatch}
use pointer_force.Device.Sysfs.{node_of, to_lower}

pub record Device : Type 0 where
  pub fd : ℤ
  pub dev : Option ℕ
  pub grabbed : Bool
  pub path : String

abbrev pub closed_device : Device
closed_device = record { fd = negsuc 0; dev = none; grabbed = false; path = "" }

pub record Os : Type 0 where
  pub open_fds : List ℤ
  pub contexts : List ℕ

unfoldable pub remove_first {ℓ} : {A : Type ℓ} ⦃e : Eq A⦄ → A → List A → List A
remove_first x [] = []
remove_first x (y ∷ ys) = if y == x then ys else y ∷ remove_first x ys

abbrev pub is_open : Device → Bool
is_open d = not (is_negative d.fd)

pub record OpenAnswers : Type 0 where
  pub fd : ℤ
  pub rc : ℤ
  pub context : ℕ

unfoldable pub open_device : OpenAnswers → String → Device → Os → Bool × Device × Os
open_device answers path d os =
    if is_negative answers.fd
    then (false, record d { fd = answers.fd }, os)
    else if is_negative answers.rc
    then (
      false,
      record d { fd = negsuc 0 },
      record os { open_fds = remove_first answers.fd (answers.fd ∷ os.open_fds) },
    )
    else (
      true,
      record d { fd = answers.fd; dev = some answers.context; path = path },
      record { open_fds = answers.fd ∷ os.open_fds; contexts = answers.context ∷ os.contexts },
    )

unfoldable pub grab : ℤ → Device → Bool × Device
grab rc d =
    if is_negative d.fd
    then (false, d)
    else if is_negative rc
    then (false, d)
    else (true, record d { grabbed = true })

unfoldable pub ungrab : Device → Device
ungrab d = if is_open d && d.grabbed then record d { grabbed = false } else d

unfoldable pub free_context : Device → Os → Device × Os
free_context d os = elim d.dev [
  | none ↦ (d, os)
  | some context ↦
      (record d { dev = none }, record os { contexts = remove_first context os.contexts })
]

unfoldable pub close_fd : Device → Os → Device × Os
close_fd d os =
    if is_open d
    then (record d { fd = negsuc 0 }, record os { open_fds = remove_first d.fd os.open_fds })
    else (d, os)

unfoldable pub close : Device → Os → Device × Os
unfolding ungrab free_context close_fd
close d os =
    let (d', os') = free_context (ungrab d) os in
    let (d'', os'') = close_fd d' os' in (record d'' { path = "" }, os'')

-- The new device, and the one moved from: its path is whatever std::string leaves behind.
unfoldable pub move_construct : String → Device → Device × Device
move_construct left o = (o, record { fd = negsuc 0; dev = none; grabbed = false; path = left })

-- Assignment between two different devices.
unfoldable pub move_assign : String → Device → Device → Os → Device × Device × Os
unfolding move_construct
move_assign left d o os =
    let (_, os') = close d os in let (d', o') = move_construct left o in (d', o', os')

abbrev pub name_or : Option ℕ → Option String → String
name_or none n = "<no device>"
name_or (some context) none = "<unnamed>"
name_or (some context) (some n) = n

-- `libevdev_name` is what libevdev_get_name answers for a context.
unfoldable pub name : (ℕ → Option String) → Device → String
name libevdev_name d = elim d.dev [
  | none ↦ "<no device>"
  | some context ↦ name_or (some context) (libevdev_name context)
]

abbrev pub or_empty : Option String → String
or_empty none = ""
or_empty (some s) = s

-- v + ":" + p, or nothing if either is missing.
unfoldable pub join_ids : String → String → String
join_ids v p = if is_empty v || is_empty p then "" else str_append v (str_append ":" p)

-- `words` gives the first word of a sysfs file that can be read.
unfoldable pub vendor_product : (String → Option String) → Device → String
unfolding join_ids
vendor_product words d =
    if is_empty d.path
    then ""
    else (let base = str_append "/sys/class/input/" (str_append (node_of d.path) "/device/id/") in
        join_ids (to_lower (or_empty (words (str_append base "vendor"))))
          (to_lower (or_empty (words (str_append base "product")))))

-- s.find(t) != npos
abbrev pub contains : String → String → Bool
contains s t = elim (find? s t) [ none ↦ false | some i ↦ true ]

unfoldable pub matches :
    (ℕ → Option String) → (String → Option String) → Device → DeviceMatch → Bool
matches libevdev_name words d m =
    if not (is_empty m.path)
    then d.path == m.path
    else (let vp = vendor_product words d in
        if not (is_empty m.vendor_product) && (not (is_empty vp) && vp == m.vendor_product)
        then true
        else not (is_empty m.name_contains) && contains (name libevdev_name d) m.name_contains)
