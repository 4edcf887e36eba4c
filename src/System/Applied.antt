-- ===== src/System/Applied.antt =====
-- A new document for the file, and then the reload request that the page makes after it.
use pointer_force.Prelude.{
  returns_inj, ℕ, String, ◌≡◌, refl, sym, ap, subst, ◌∙◌, Bool, true, false, Option, some, [],
  arith, if◌then◌else◌, Outcome, returns, >>=-eq-returns, ◌>>=◌, ℤ, string_eq, int_eq, nat_eq,
}
use pointer_force.Assoc.{find}
use pointer_force.Common.{Config}
use pointer_force.Json.{Json, Bytes, IsBuilding, IsTotalOnKinds}
use pointer_force.Mapper.{Table, init, lookup}
use pointer_force.Mapper.View.{or_else}
use pointer_force.Mapper.Reload.{configured}
use pointer_force.Config.{load, load_root}
use pointer_force.Config.Loaded.{lookup-reload}
use pointer_force.ConfigStore.{Verdict, valid, invalid, validate}
use pointer_force.ConfigStore.Agreement.{AreDistinct, validated-load_root}
use pointer_force.ConfigStore.Agreement.Inversion.{valid_config}
use pointer_force.ConfigStore.Disk.{on_disk, Faults, Files}
use pointer_force.Multiplexer.{Shared}
use pointer_force.Control.{replied, reload, reload_result}
use pointer_force.Control.Replies.{ok_or-Returns}
use pointer_force.Editor.{Response, put_config, invalid_config, with_valid, save}
use pointer_force.Editor.Saving.{is_ok, save_ok}

module _ (J : Json) (input_code : String → ℕ) where
  open J use {Value, parse, write, write_string, is_member, at, of_bool}

  -- The file parses as the saved document, which is valid; the reload loads it, says whether it has
  -- devices, and if so every lookup is answered from the loaded devices, else as before.
  pub record IsApplied (path : String) (saved : Value) (files : Files) (s : Shared) : Type 0 where
    pub text : Bytes
    pub stored : find path files ≡ some text
    pub parses : parse text ≡ some saved
    pub is_valid : validate J saved ≡ returns valid
    pub listed : Bool
    pub has_devices : is_member saved "devices" ≡ returns listed
    pub loaded : Config
    pub loads : load_root J input_code path saved s.config ≡ returns (listed, loaded)
    pub distinct : AreDistinct [] loaded.devices
    pub reply : Value
    pub table : Table
    pub reloads :
        reload J input_code (λ p. find p files) s
        ≡ returns (replied (record s { config = loaded; table = table }) (write reply))
    pub said : at reply "ok" ≡ returns (of_bool listed)
    pub bound :
        (d : String) (k : ℤ)
        → lookup table d k ≡ (
            if listed
            then or_else (configured loaded.devices d k) (configured loaded.devices "*" k)
            else lookup s.table d k)

  stored_loads :
      (files : Files) (path : String) (text : Bytes) (saved : Value) (config : Config)
      (result : Bool × Config)
      → find path files ≡ some text
      → parse text ≡ some saved
      → load_root J input_code path saved config ≡ returns result
      → load J input_code (λ p. find p files) path config ≡ returns result
  unfolding load
  stored_loads files path text saved config result stored parsed loads =
      ground (arith, stored, parsed, loads)

module _ (J : Json) (total : IsTotalOnKinds J) (building : IsBuilding J)
    (input_code : String → ℕ) where
  open J use {Value, parse, write, write_string, is_member, at, of_bool}

  reload-replied :
      (files : String → Option Bytes) (s : Shared) (result : Bool × Config)
      → load J input_code files s.config.config_path s.config ≡ returns result
      → (v : Value) × (reload J input_code files s
          ≡ returns (replied (reload_result J input_code files s result) (write v)))
        × (at v "ok" ≡ returns (of_bool result.0))
  unfolding reload
  reload-replied files s result h =
      let (v, e, said, _) = ok_or-Returns J building result.0 "Config reload failed – see log" in
      (v, ground (arith, h, e), said)

  bound_after :
      (files : String → Option Bytes) (s : Shared) (listed : Bool) (c : Config)
      → load J input_code files s.config.config_path s.config ≡ returns (listed, c)
      → (t : Table) × (reload_result J input_code files s (listed, c)
          ≡ record s { config = c; table = t })
        × ((d : String) (k : ℤ)
            → lookup t d k ≡ (
                if listed
                then or_else (configured c.devices d k) (configured c.devices "*" k)
                else lookup s.table d k))
  bound_after files s true c h =
      (init c, refl, λ d k. lookup-reload J input_code files s.config.config_path s.config c d k h)
  bound_after files s false c h = (s.table, refl, λ d k. refl)

  -- The document that the body of a PUT request gives, in its config member or as a whole.
  abbrev pub body_document : Value → Outcome Value
  body_document json = do
    wrapped ← is_member json "config"
    if wrapped then at json "config" else returns json

  put_valid :
      (verdict : Verdict) (faults : Faults) (path : String) (doc : Value) (files files' : Files)
      (r : Response)
      → with_valid J verdict invalid_config files (save J faults path doc files)
        ≡ returns (r, files')
      → is_ok r ≡ true
      → (verdict ≡ valid) × (save J faults path doc files ≡ returns (r, files'))
  put_valid valid faults path doc files files' r h o = (refl, h)
  put_valid (invalid x) faults path doc files files' r h o = absurd (ground (arith, h, o))

  put_saves :
      (faults : Faults) (path : String) (json cfg : Value) (files files' : Files) (r : Response)
      → body_document json ≡ returns cfg
      → put_config J faults path (some json) files ≡ returns (r, files')
      → is_ok r ≡ true
      → (validate J cfg ≡ returns valid)
        × (find path files' ≡ some (on_disk faults (write_string cfg)))
  unfolding put_config
  put_saves faults path json cfg files files' r b h success =
      let (wrapped, e, f) = >>=-eq-returns (is_member json "config") _ h in
      let (doc, g, k) = >>=-eq-returns (if wrapped then at json "config" else returns json) _ f in
      let same : doc ≡ cfg = returns_inj (sym g ∙ rw e at b) in
      let (verdict, v, l) = >>=-eq-returns (validate J doc) _ k in
      let saves : (verdict ≡ valid) × (save J faults path doc files ≡ returns (r, files')) =
        put_valid verdict faults path doc files files' r l success in
      subst
        (λ d.
          (validate J d ≡ returns valid)
          × (find path files' ≡ some (on_disk faults (write_string d))))
        same (save_ok J faults path doc files files' r saves.1 success)

  -- If the JSON library parses what it writes of the document, and the flush at the closing of the
  -- file does not fail, then after a PUT of a document that reports success, to the daemon's file,
  -- the reload request loads just that document and throws nothing; it is answered by whether the
  -- document has a devices member, and if so every lookup is answered from the loaded devices,
  -- whose ids are distinct, and else as before.
  pub put_takes_effect :
      (faults : Faults) (path : String) (json cfg : Value) (files files' : Files) (r : Response)
      (s : Shared)
      → body_document json ≡ returns cfg
      → parse (write_string cfg) ≡ some cfg
      → faults.flush_fails ≡ false
      → put_config J faults path (some json) files ≡ returns (r, files')
      → is_ok r ≡ true
      → s.config.config_path ≡ path
      → IsApplied J input_code path cfg files' s
  put_takes_effect faults path json cfg files files' r s body parsed flushed h success same_path =
      let (is_valid, on) = put_saves faults path json cfg files files' r body h success in
      let stored : find path files' ≡ some (write_string cfg) = on ∙ rw flushed refl in
      let (object, _) = valid_config J cfg is_valid in
      let (listed, there) = total.is_member-Returns cfg "devices" object in
      let (c, loads, distinct) =
        validated-load_root J total input_code path cfg s.config listed is_valid there in
      let found : load J input_code (λ p. find p files') s.config.config_path s.config
          ≡ returns (listed, c) =
        subst (λ p. load J input_code (λ q. find q files') p s.config ≡ returns (listed, c))
          (sym same_path)
          (stored_loads J input_code files' path (write_string cfg) cfg s.config (listed, c) stored
            parsed loads) in
      let (v, e, said) = reload-replied (λ p. find p files') s (listed, c) found in
      let (t, state, bound) = bound_after (λ p. find p files') s listed c found in
      record {
        text = write_string cfg;
        parses = parsed;
        stored = stored;
        is_valid = is_valid;
        listed = listed;
        has_devices = there;
        loaded = c;
        loads = loads;
        distinct = distinct;
        reply = v;
        table = t;
        reloads = e ∙ ap (λ s'. returns (replied s' (write v))) state;
        said = said;
        bound = bound;
      }
