-- ===== src/DeviceManager.antt =====
-- src/devicemanager.cpp: finding, opening, starting and stopping the configured devices.
--
-- The directory, the sysfs files and the answers to Device::open are arguments. The entries keep
-- what the control server and the reader threads use of them.
pub mod Opening
pub mod Reader
use Prim.Native.String.{◌++◌ as str_append, compare}
use text.Mathlib.Text.{is_le, starts_with}
use pointer_force.Prelude.{
  ℕ, zero, suc, ◌+◌, ◌-◌, ◌*◌, ◌%◌, ◌≤◌, ◌<◌, min, String, ◌≡◌, refl, sym, ap, subst, ◌∙◌, ◌≢◌, ◌↔◌,
  ◌⊎◌, inl, inr, Bool, true, false, not, ◌&&◌, ◌||◌, Option, none, some, List, [], ◌∷◌, ◌++◌, map,
  append_assoc, append-nil, arith, eq_iff, eq_refl, ltb, leb, nat_beq, nat_beq_iff, if◌then◌else◌,
  Eq, ◌==◌, is_empty, Bool-cases, Option-cases, length, length-append, get_elem?, In,
  In-append_left, In-append_right, In-append, All, All-append, Outcome, returns, throws,
  Outcome-cases, >>=-eq-returns, Ensures, Ensures-returns, Ensures-if, Ensures-bind, Returns,
  Returns-bind, Returns-if, Returns-after, ◌>>=◌, ◌>>◌, ℤ, pos, negsuc, is_negative, int_beq,
  int_beq_iff, string_eq, int_eq, nat_eq,
}
use pointer_force.Common.{DeviceMatch, DeviceConfig, Config, InputEvent}
use pointer_force.Device.{Device, Os, is_open, grab, close, contains, or_empty, join_ids}
use pointer_force.EventQueue.{EventQueue, push}
use pointer_force.Device.Sysfs.{node_of, to_lower, trim_end}

pub record SysfsInfo : Type 0 where
  pub name : String
  pub vendor_product : String

-- `first_lines` gives the first line of a file that can be read.
unfoldable pub sysfs_read : (String → Option String) → String → String
sysfs_read first_lines path = trim_end (or_empty (first_lines path))

unfoldable pub probe_sysfs : (String → Option String) → String → SysfsInfo
probe_sysfs first_lines event_path =
    let base = str_append "/sys/class/input/" (str_append (node_of event_path) "/device/") in
    record {
      name = sysfs_read first_lines (str_append base "name");
      vendor_product =
          join_ids (to_lower (sysfs_read first_lines (str_append base "id/vendor")))
            (to_lower (sysfs_read first_lines (str_append base "id/product")));
    }

unfoldable pub sysfs_matches : SysfsInfo → String → DeviceMatch → Bool
sysfs_matches info event_path m =
    if not (is_empty m.path)
    then event_path == m.path
    else if (not (is_empty m.vendor_product) && not (is_empty info.vendor_product))
        && info.vendor_product == m.vendor_product
    then true
    else (not (is_empty m.name_contains) && not (is_empty info.name))
      && contains info.name m.name_contains

-- std::sort by the order of strings
unfoldable pub insert_sorted : String → List String → List String
insert_sorted p [] = p ∷ []
insert_sorted p (q ∷ qs) = if is_le (compare p q) then p ∷ q ∷ qs else q ∷ insert_sorted p qs

unfoldable pub sort_paths : List String → List String
sort_paths [] = []
sort_paths (p ∷ ps) = insert_sorted p (sort_paths ps)

-- The paths of the directory's entries, file name and path, that are event nodes.
unfoldable pub candidates : List (String × String) → List String
candidates [] = []
candidates ((fname, path) ∷ rest) =
    let more = candidates rest in if starts_with fname "event" then path ∷ more else more

-- The first configured device that is not matched yet and that the node matches.
unfoldable pub find_match :
    SysfsInfo → String → List Bool → List DeviceConfig → ℕ → Option (ℕ × DeviceConfig)
find_match info path [] dcs i = none
find_match info path (m ∷ ms) [] i = none
find_match info path (m ∷ ms) (dc ∷ dcs) i =
    let later = find_match info path ms dcs (i + 1) in
    if m then later else if sysfs_matches info path dc.criteria then some (i, dc) else later

-- matched[i] = true
unfoldable pub mark : List Bool → ℕ → List Bool
mark [] i = []
mark (m ∷ ms) zero = true ∷ ms
mark (m ∷ ms) (suc i) = m ∷ mark ms i

pub record Entry : Type 0 where
  pub cfg : DeviceConfig
  pub device : Device
  -- a thread that can be joined
  pub thread : Bool
  pub active : Bool

abbrev pub new_entry : DeviceConfig → Device → Entry
new_entry cfg device = record { cfg = cfg; device = device; thread = false; active = false }

abbrev pub all_false : List DeviceConfig → List Bool
all_false [] = []
all_false (dc ∷ dcs) = false ∷ all_false dcs

module _ (first_lines : String → Option String) (opens : String → Option Device) where
  -- The loop over the candidates; `opens` gives the device where Device::open succeeds.
  unfoldable pub open_candidates :
      List DeviceConfig → List String → List Bool → List Entry → List Entry
  open_candidates dcs [] matched entries = entries
  open_candidates dcs (path ∷ paths) matched entries =
      let skip = open_candidates dcs paths matched entries in
      elim (find_match (probe_sysfs first_lines path) path matched dcs 0) [
        | none ↦ skip
        | some (i, dc) ↦ elim (opens path) [
          | none ↦ skip
          | some device ↦
              open_candidates dcs paths (mark matched i) (entries ++ new_entry dc device ∷ [])
        ]
      ]

  -- `listing` is none where scanning the directory threw.
  unfoldable pub open_all : Config → Option (List (String × String)) → List Entry → ℕ × List Entry
  open_all config none entries = (0, entries)
  open_all config (some listing) entries =
      let opened =
        open_candidates config.devices (sort_paths (candidates listing)) (all_false config.devices)
          [] in
      (length opened, opened)

-- `grab_rc` is what libevdev answers to the grab of an entry.
unfoldable pub start_entry : (Entry → ℤ) → Entry → Entry
start_entry grab_rc e =
    if is_open e.device
    then record e {
      device = if e.cfg.grab then (grab (grab_rc e) e.device).1 else e.device;
      active = true;
      thread = true;
    }
    else e

unfoldable pub start : (Entry → ℤ) → List Entry → List Entry
start grab_rc [] = []
start grab_rc (e ∷ es) = start_entry grab_rc e ∷ start grab_rc es

-- After the threads are joined every device is closed, and the entries are dropped.
unfoldable pub close_all : List Entry → Os → Os
close_all [] os = os
close_all (e ∷ es) os = close_all es (close e.device os).1

unfoldable pub stop : List Entry → Os → List Entry × Os
stop entries os = ([], close_all entries os)

pub record DeviceInfo : Type 0 where
  pub id : String
  pub path : String
  pub hw_name : String
  pub active : Bool

unfoldable pub get_info : (Device → String) → List Entry → List DeviceInfo
get_info device_name [] = []
get_info device_name (e ∷ es) =
    record {
      id = e.cfg.id;
      path = e.device.path;
      hw_name = device_name e.device;
      active = e.active;
    }
    ∷ get_info device_name es

-- One answer of libevdev_next_event: an event of a type, a code and a value; a dropped-events
-- mark; nothing yet; or an error.
pub data Answer : Type 0 where
  success : Bool → ℤ → ℤ → ℕ → Answer
  sync : Answer
  again : Answer
  failed : Answer

abbrev pub tagged : Entry → ℤ → ℤ → ℕ → InputEvent
tagged e code value now = record {
  device_id = e.cfg.id;
  device_path = e.device.path;
  code = code;
  value = value;
  timestamp = now;
}

-- `draining` is the inner loop after a sync mark, which ends at the first answer that is no mark
-- and drops that answer too.
pub data Mode : Type 0 where
  normal draining : Mode

-- The reader thread, over the answers that it gets: each comes with whether `e.active` and
-- `g_running` held when the outer loop last tested them.
unfoldable pub reader : Entry → Mode → List (Bool × Answer) → EventQueue → Entry × EventQueue
reader e mode [] q = (e, q)
reader e draining ((wanted, sync) ∷ rest) q = reader e draining rest q
reader e draining ((wanted, success is_key code value now) ∷ rest) q = reader e normal rest q
reader e draining ((wanted, again) ∷ rest) q = reader e normal rest q
reader e draining ((wanted, failed) ∷ rest) q = reader e normal rest q
reader e normal ((false, a) ∷ rest) q = (e, q)
reader e normal ((true, success true code value now) ∷ rest) q =
    reader e normal rest (push (tagged e code value now) q)
reader e normal ((true, success false code value now) ∷ rest) q = reader e normal rest q
reader e normal ((true, sync) ∷ rest) q = reader e draining rest q
reader e normal ((true, again) ∷ rest) q = reader e normal rest q
reader e normal ((true, failed) ∷ rest) q = (record e { active = false }, q)
