-- ===== src/Common.antt =====
-- include/common.hpp: the shared types and constants.
use pointer_force.Prelude.{ℕ, String, Bool, List, ℤ, pos}
use pointer_force.Assoc.{Assoc}

abbrev pub version : String
version = "0.2.0"

abbrev pub default_control_socket : String
default_control_socket = "/tmp/pointerforce.sock"

abbrev pub default_config_file : String
default_config_file = "config/pointerforce.json"

abbrev pub key_release : ℤ
key_release = pos 0

abbrev pub key_press : ℤ
key_press = pos 1

abbrev pub key_repeat : ℤ
key_repeat = pos 2

pub record DeviceMatch : Type 0 where
  pub name_contains : String
  pub vendor_product : String
  pub path : String

pub record DeviceConfig : Type 0 where
  pub id : String
  pub criteria : DeviceMatch
  pub grab : Bool
  pub bindings : Assoc ℤ String

pub record Config : Type 0 where
  pub devices : List DeviceConfig
  pub daemon_mode : Bool
  pub debug : Bool
  pub control_socket : String
  pub config_path : String

-- `value` is 0 for a release, 1 for a press and 2 for a repeat.
pub record InputEvent : Type 0 where
  pub device_id : String
  pub device_path : String
  pub code : ℤ
  pub value : ℤ
  pub timestamp : ℕ
