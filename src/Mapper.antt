-- ===== src/Mapper.antt =====
-- src/mapper.cpp and include/mapper.hpp: the bindings of each device, and their operations.
--
-- `g_config` is an argument of `init`. The lock is left out: each operation takes it for its whole
-- length, so it is one step. `input_code` stands for the constants of the kernel's header.
pub mod Abstract
pub mod Named
pub mod Unbinding
pub mod View
pub mod WellFormed
pub mod Reload
pub mod Edits
pub mod Listing
use pointer_force.Prelude.{
  ℕ, zero, suc, ◌+◌, ◌-◌, ◌*◌, ◌%◌, ◌≤◌, ◌<◌, min, String, ◌≡◌, refl, sym, ap, subst, ◌∙◌, ◌≢◌, ◌↔◌,
  ◌⊎◌, inl, inr, Bool, true, false, not, ◌&&◌, ◌||◌, Option, none, some, List, [], ◌∷◌, ◌++◌, map,
  append_assoc, append-nil, arith, eq_iff, eq_refl, ltb, leb, nat_beq, nat_beq_iff, if◌then◌else◌,
  Eq, ◌==◌, is_empty, Bool-cases, Option-cases, length, length-append, get_elem?, In,
  In-append_left, In-append_right, In-append, All, All-append, Outcome, returns, throws, ◌>>=◌,
  ◌>>◌, ℤ, pos, negsuc, is_negative, int_beq, int_beq_iff, string_eq, int_eq, nat_eq,
}
use pointer_force.Assoc.{Assoc, find, assign, erase}
use pointer_force.Common.{DeviceConfig, Config}
use pointer_force.Keys.{name_to_code, code_to_name}

-- table_[device_id][keycode] = command
abbrev pub Table : Type 0
Table = Assoc String (Assoc ℤ String)

-- What `table_[device_id]` refers to: a missing entry is made, empty.
unfoldable pub sub_table : String → Table → Assoc ℤ String
sub_table device_id t = elim (find device_id t) [ none ↦ [] | some sub ↦ sub ]

unfoldable pub load_bindings : Assoc ℤ String → Assoc ℤ String → Assoc ℤ String
load_bindings [] sub = sub
load_bindings ((code, cmd) ∷ bs) sub = load_bindings bs (assign code cmd sub)

unfoldable pub load_devices : List DeviceConfig → Table → Table
load_devices [] t = t
load_devices (dc ∷ dcs) t =
    load_devices dcs (assign dc.id (load_bindings dc.bindings (sub_table dc.id t)) t)

unfoldable pub init : Config → Table
init config = load_devices config.devices []

-- A search of one device's bindings.
unfoldable pub lookup_in : Option (Assoc ℤ String) → ℤ → Option String
lookup_in none keycode = none
lookup_in (some sub) keycode = find keycode sub

-- The exact device first, then the wildcard device.
unfoldable pub lookup : Table → String → ℤ → Option String
lookup t device_id keycode = elim (lookup_in (find device_id t) keycode) [
  | some cmd ↦ some cmd
  | none ↦ lookup_in (find "*" t) keycode
]

module _ (input_code : String → ℕ) where
  unfoldable pub add_binding : Table → String → String → String → Table × Bool
  add_binding t device_id key_name cmd =
      let code = name_to_code input_code key_name in
      if is_negative code
      then (t, false)
      else (assign device_id (assign code cmd (sub_table device_id t)) t, true)

  -- `erase` returns the number of entries that it took out.
  unfoldable pub erased : ℤ → Assoc ℤ String → ℕ
  erased code sub = elim (find code sub) [ none ↦ 0 | some _ ↦ 1 ]

  unfoldable pub remove_binding : Table → String → String → Table × Bool
  unfolding erased
  remove_binding t device_id key_name =
      let code = name_to_code input_code key_name in
      if is_negative code then (t, false) else (elim (find device_id t) [
        | none ↦ (t, false)
        | some sub ↦ (assign device_id (erase code sub) t, ltb 0 (erased code sub))
      ])

pub record BindingEntry : Type 0 where
  pub device_id : String
  pub key_name : String
  pub keycode : ℤ
  pub command : String

module _ (input_code : String → ℕ) where
  unfoldable pub device_bindings : String → Assoc ℤ String → List BindingEntry
  device_bindings device_id [] = []
  device_bindings device_id ((code, cmd) ∷ sub) =
      record {
        device_id = device_id;
        key_name = code_to_name input_code code;
        keycode = code;
        command = cmd;
      }
      ∷ device_bindings device_id sub

  unfoldable pub all_bindings : Table → List BindingEntry
  all_bindings [] = []
  all_bindings ((device_id, sub) ∷ t) = device_bindings device_id sub ++ all_bindings t
