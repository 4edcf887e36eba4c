-- ===== src/Editor/Updating.antt =====
-- What updating a device leaves in the file.
use pointer_force.Prelude.{
  ℕ, String, ◌≡◌, true, some, List, ◌∷◌, ◌++◌, length, All, returns, ◌>>=◌, string_eq, int_eq,
  nat_eq,
}
use pointer_force.Json.{Json, IsBuilding}
use pointer_force.Assoc.{find}
use pointer_force.ConfigStore.{valid, validate, validate_device}
use pointer_force.ConfigStore.Disk.{on_disk, Faults, Files}
use pointer_force.Editor.{has_id, copy_member}
use pointer_force.Editor.Devices.{LacksId}
use pointer_force.Editor.Steps.{listed_devices}

module _ (J : Json) where
  open J use {Value}

  -- The first device of an id among others.
  pub record IsFirst (id : String) (ds : List Value) (i : ℕ) (d : Value) : Type 0 where
    pub front : List Value
    pub back : List Value
    pub parts : ds ≡ front ++ d ∷ back
    pub place : length front ≡ i
    pub lacks : All (LacksId J id) front
    pub has : has_id J id d ≡ returns true

module _ (J : Json) (building : IsBuilding J) where
  open J use {Value, at, set_member, set_element, is_array, is_object, elements, write_string}

  -- What an update that reports success leaves.
  pub record IsUpdated (faults : Faults) (path id : String) (json cfg : Value) (files' : Files)
      : Type 0 where
    pub front : List Value
    pub old : Value
    pub back : List Value
    pub updated : Value
    pub saved : Value
    pub devices : Value
    pub before : listed_devices J cfg ≡ returns (front ++ old ∷ back)
    pub lacks : All (LacksId J id) front
    pub has : has_id J id old ≡ returns true
    pub copied :
        (do matched ← copy_member J json "match" old; copy_member J json "grab" matched)
        ≡ returns updated
    pub fits : validate_device J updated ≡ returns valid
    pub stored : find path files' ≡ some (on_disk faults (write_string saved))
    pub is_valid : validate J saved ≡ returns valid
    pub there : at saved "devices" ≡ returns devices
    pub replaced : elements devices ≡ front ++ updated ∷ back
