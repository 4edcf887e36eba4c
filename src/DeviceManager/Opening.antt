-- ===== src/DeviceManager/Opening.antt =====
-- Which devices open_all opens.
use mathlib.Core.List.{Perm}
use mathlib.Core.List.Perm
use pointer_force.Prelude.{
  ℕ, ◌+◌, String, ◌≡◌, Bool, true, false, Option, some, List, [], ◌∷◌, if◌then◌else◌, All,
  string_eq, int_eq, nat_eq,
}
use pointer_force.Common.{DeviceConfig, Config}
use pointer_force.Config.{lacks_criteria}
use pointer_force.Device.{Device}
use pointer_force.DeviceManager.{SysfsInfo, probe_sysfs, sysfs_matches, mark, Entry}

-- The configured devices that are marked.
abbrev pub picked : List Bool → List DeviceConfig → List DeviceConfig
picked [] dcs = []
picked (m ∷ ms) [] = []
picked (m ∷ ms) (dc ∷ dcs) = if m then dc ∷ picked ms dcs else picked ms dcs

abbrev pub configs : List Entry → List DeviceConfig
configs [] = []
configs (e ∷ es) = e.cfg ∷ configs es

record IsFound (info : SysfsInfo) (path : String) (ms : List Bool) (dcs : List DeviceConfig)
    (i j : ℕ) (dc : DeviceConfig) : Type 0 where
  place : ℕ
  index : j ≡ i + place
  marks : Perm (picked (mark ms place) dcs) (dc ∷ picked ms dcs)
  matched : sysfs_matches info path dc.criteria ≡ true

module _ (first_lines : String → Option String) (opens : String → Option Device) where
  -- The entry holds a device that was opened at a path that its configuration matches, by a
  -- criterion that it gives.
  abbrev pub IsOpened : Entry → Type 0
  IsOpened e =
      (path : String) × (opens path ≡ some e.device)
      × (sysfs_matches (probe_sysfs first_lines path) path e.cfg.criteria ≡ true)
      × (lacks_criteria e.cfg.criteria ≡ false)

  abbrev IsSelection : List DeviceConfig → List Entry → Type 0
  IsSelection dcs es = ((ms : List Bool) × Perm (configs es) (picked ms dcs)) × All IsOpened es
