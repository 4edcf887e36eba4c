-- ===== src/Editor/Steps.antt =====
-- The steps that the handlers of the devices share, of a request that succeeds.
use pointer_force.Prelude.{
  ◌≡◌, refl, inl, inr, true, List, [], arith, if◌then◌else◌, Bool-cases, Outcome, returns,
  >>=-eq-returns, ◌>>=◌, string_eq, int_eq, nat_eq,
}
use pointer_force.Json.{Json}
use pointer_force.ConfigStore.{
  Verdict, valid, invalid, ReadResult, content, cannot_open, invalid_json, not_an_object,
}
use pointer_force.ConfigStore.Disk.{Files}
use pointer_force.Editor.{Response, invalid_device, with_valid, with_config, lists_devices}
use pointer_force.Editor.Saving.{is_ok}

module _ (J : Json) where
  open J use {Value, is_member, at, is_array, elements}

  -- The devices of a document, none if it has no array of them.
  abbrev pub listed_devices : Value → Outcome (List Value)
  listed_devices cfg = do
    listed ← lists_devices J cfg
    if listed then (do ds ← at cfg "devices"; returns (elements ds)) else returns []

  -- A document that lists devices has an array of them.
  pub listed_array :
      (cfg : Value)
      → lists_devices J cfg ≡ returns true
      → (ds : Value) × (at cfg "devices" ≡ returns ds) × (is_array ds ≡ true)
  unfolding lists_devices
  listed_array cfg h =
      let (there, e, f) = >>=-eq-returns (is_member cfg "devices") _ h in
      elim (Bool-cases there) [
        | inl present ↦
            let (ds, g, k) = >>=-eq-returns (at cfg "devices") _ (rw present at f) in
            (ds, g, ground (arith, k))
        | inr missing ↦ absurd (ground (arith, f, missing))
      ]

  -- The document that was read, if the handler went on.
  pub with_config_ok :
      (read : ReadResult Value) (files files' : Files) (next : Value → Outcome (Response × Files))
      (r : Response)
      → with_config J read files next ≡ returns (r, files')
      → is_ok r ≡ true
      → (cfg : Value) × (read ≡ content cfg) × (next cfg ≡ returns (r, files'))
  with_config_ok (content cfg) files files' next r h o = (cfg, refl, h)
  with_config_ok cannot_open files files' next r h o = absurd (ground (arith, h, o))
  with_config_ok invalid_json files files' next r h o = absurd (ground (arith, h, o))
  with_config_ok not_an_object files files' next r h o = absurd (ground (arith, h, o))

  pub with_valid_ok :
      (verdict : Verdict) (files files' : Files) (next : Outcome (Response × Files)) (r : Response)
      → with_valid J verdict invalid_device files next ≡ returns (r, files')
      → is_ok r ≡ true
      → (verdict ≡ valid) × (next ≡ returns (r, files'))
  with_valid_ok valid files files' next r h o = (refl, h)
  with_valid_ok (invalid x) files files' next r h o = absurd (ground (arith, h, o))
