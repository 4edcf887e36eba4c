-- ===== src/Keys.antt =====
-- src/mapper.cpp: the key tables and the translation between key names and key codes.
--
-- Each entry of `name_table` pairs the spelling of a constant of linux/input-event-codes.h with
-- that constant. The header is not part of the repository: `input_code` gives its constants.
-- Both tables are iterated in the order of the list.
pub mod Named
pub mod RoundTrip
mod Decimal
use pointer_force.Prelude.{
  ℕ, zero, suc, ◌+◌, ◌-◌, ◌*◌, ◌%◌, ◌≤◌, ◌<◌, min, String, ◌≡◌, refl, sym, ap, subst, ◌∙◌, ◌≢◌, ◌↔◌,
  ◌⊎◌, inl, inr, Bool, true, false, not, ◌&&◌, ◌||◌, Option, none, some, List, [], ◌∷◌, ◌++◌, map,
  append_assoc, append-nil, arith, eq_iff, eq_refl, ltb, leb, nat_beq, nat_beq_iff, if◌then◌else◌,
  Eq, ◌==◌, is_empty, Bool-cases, Option-cases, length, length-append, get_elem?, In,
  In-append_left, In-append_right, In-append, All, All-append, Outcome, returns, throws, ◌>>=◌,
  ◌>>◌, ℤ, pos, negsuc, is_negative, int_beq, int_beq_iff, string_eq, int_eq, nat_eq,
}
use Prim.Native.String.{◌++◌ as str_append}
use pointer_force.Assoc.{Assoc, find, assign}
unfoldable pub use Decimal.{to_string}

-- The names of the table, in the order of the source.
unfoldable pub key_names : List String
key_names =
    "KEY_A" ∷ "KEY_B" ∷ "KEY_C" ∷ "KEY_D" ∷ "KEY_E" ∷ "KEY_F" ∷ "KEY_G" ∷ "KEY_H" ∷ "KEY_I"
    ∷ "KEY_J" ∷ "KEY_K" ∷ "KEY_L" ∷ "KEY_M" ∷ "KEY_N" ∷ "KEY_O" ∷ "KEY_P" ∷ "KEY_Q" ∷ "KEY_R"
    ∷ "KEY_S" ∷ "KEY_T" ∷ "KEY_U" ∷ "KEY_V" ∷ "KEY_W" ∷ "KEY_X" ∷ "KEY_Y" ∷ "KEY_Z" ∷ "KEY_0"
    ∷ "KEY_1" ∷ "KEY_2" ∷ "KEY_3" ∷ "KEY_4" ∷ "KEY_5" ∷ "KEY_6" ∷ "KEY_7" ∷ "KEY_8" ∷ "KEY_9"
    ∷ "KEY_F1" ∷ "KEY_F2" ∷ "KEY_F3" ∷ "KEY_F4" ∷ "KEY_F5" ∷ "KEY_F6" ∷ "KEY_F7" ∷ "KEY_F8"
    ∷ "KEY_F9" ∷ "KEY_F10" ∷ "KEY_F11" ∷ "KEY_F12" ∷ "KEY_F13" ∷ "KEY_F14" ∷ "KEY_F15" ∷ "KEY_F16"
    ∷ "KEY_F17" ∷ "KEY_F18" ∷ "KEY_F19" ∷ "KEY_F20" ∷ "KEY_UP" ∷ "KEY_DOWN" ∷ "KEY_LEFT"
    ∷ "KEY_RIGHT" ∷ "KEY_HOME" ∷ "KEY_END" ∷ "KEY_PAGEUP" ∷ "KEY_PAGEDOWN" ∷ "KEY_INSERT"
    ∷ "KEY_DELETE" ∷ "KEY_ENTER" ∷ "KEY_SPACE" ∷ "KEY_TAB" ∷ "KEY_BACKSPACE" ∷ "KEY_ESC"
    ∷ "KEY_CAPSLOCK" ∷ "KEY_LEFTSHIFT" ∷ "KEY_RIGHTSHIFT" ∷ "KEY_LEFTCTRL" ∷ "KEY_RIGHTCTRL"
    ∷ "KEY_LEFTALT" ∷ "KEY_RIGHTALT" ∷ "KEY_LEFTMETA" ∷ "KEY_RIGHTMETA" ∷ "KEY_MUTE"
    ∷ "KEY_VOLUMEUP" ∷ "KEY_VOLUMEDOWN" ∷ "KEY_PLAYPAUSE" ∷ "KEY_NEXTSONG" ∷ "KEY_PREVIOUSSONG"
    ∷ "KEY_PRINT" ∷ "KEY_SYSRQ" ∷ "KEY_PAUSE" ∷ "KEY_SCROLLLOCK" ∷ "KEY_NUMLOCK" ∷ "KEY_KP0"
    ∷ "KEY_KP1" ∷ "KEY_KP2" ∷ "KEY_KP3" ∷ "KEY_KP4" ∷ "KEY_KP5" ∷ "KEY_KP6" ∷ "KEY_KP7" ∷ "KEY_KP8"
    ∷ "KEY_KP9" ∷ "KEY_KPENTER" ∷ "KEY_KPPLUS" ∷ "KEY_KPMINUS" ∷ "KEY_KPASTERISK" ∷ "KEY_KPSLASH"
    ∷ "KEY_KPDOT" ∷ "BTN_LEFT" ∷ "BTN_RIGHT" ∷ "BTN_MIDDLE" ∷ "BTN_SIDE" ∷ "BTN_EXTRA"
    ∷ "BTN_FORWARD" ∷ "BTN_BACK" ∷ "BTN_SOUTH" ∷ "BTN_EAST" ∷ "BTN_NORTH" ∷ "BTN_WEST" ∷ "BTN_TL"
    ∷ "BTN_TR" ∷ "BTN_TL2" ∷ "BTN_TR2" ∷ "BTN_START" ∷ "BTN_SELECT" ∷ "BTN_THUMBL" ∷ "BTN_THUMBR"
    ∷ "BTN_MODE" ∷ []

abbrev pub entries : (String → ℕ) → List String → Assoc String ℤ
entries input_code [] = []
entries input_code (n ∷ ns) = (n, pos (input_code n)) ∷ entries input_code ns

unfoldable pub name_table : (String → ℕ) → Assoc String ℤ
unfolding key_names
name_table input_code = entries input_code key_names

-- `emplace` leaves a key that is there alone.
unfoldable pub emplace : ℤ → String → Assoc ℤ String → Assoc ℤ String
emplace code name t = elim (find code t) [ none ↦ assign code name t | some _ ↦ t ]

unfoldable pub invert : Assoc String ℤ → Assoc ℤ String → Assoc ℤ String
invert [] t = t
invert ((name, code) ∷ rest) t = invert rest (emplace code name t)

unfoldable pub code_table : (String → ℕ) → Assoc ℤ String
code_table input_code = invert (name_table input_code) []

abbrev found_or_minus_one : Option ℤ → ℤ
found_or_minus_one none = negsuc 0
found_or_minus_one (some code) = code

unfoldable pub name_to_code : (String → ℕ) → String → ℤ
name_to_code input_code name = found_or_minus_one (find name (name_table input_code))

unfoldable pub unknown_key : ℤ → String
unknown_key code = str_append "KEY_UNKNOWN(" (str_append (to_string code) ")")

unfoldable pub code_to_name : (String → ℕ) → ℤ → String
code_to_name input_code code = elim (find code (code_table input_code)) [
  | none ↦ unknown_key code
  | some name ↦ name
]
