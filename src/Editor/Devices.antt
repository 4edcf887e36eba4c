-- ===== src/Editor/Devices.antt =====
-- What deleting a device leaves in the file.
use pointer_force.Prelude.{
  returns_inj, Selects, ends_here, takes, leaves, String, ◌≡◌, refl, sym, ap, subst, ◌∙◌, ◌⊎◌, inl,
  inr, Bool, true, false, Option, some, List, [], ◌∷◌, ◌++◌, append_assoc, append-nil, arith,
  if◌then◌else◌, Bool-cases, Option-cases, In, returns, >>=-eq-returns, ◌>>=◌, string_eq, int_eq,
  nat_eq,
}
use pointer_force.Json.{Json, Bytes, IsBuilding}
use pointer_force.Assoc.{find}
use pointer_force.ConfigStore.{valid, validate, content, read}
use pointer_force.ConfigStore.Disk.{on_disk, Faults, Files}
use pointer_force.Editor.{
  Response, save, read_config, has_id, lists_devices, remove_id, delete_device,
}
use pointer_force.Editor.Saving.{is_ok, save_ok}
use pointer_force.Editor.Steps.{listed_devices, listed_array, with_config_ok}

module _ (J : Json) where
  open J use {Value}

  abbrev pub LacksId : String → Value → Type 0
  LacksId id d = has_id J id d ≡ returns false

  -- A device of the id is among these.
  abbrev pub HasOne : String → List Value → Type 0
  HasOne id ds = (d : Value) × In d ds × (has_id J id d ≡ returns true)

  not_lacks : (id : String) (d : Value) → has_id J id d ≡ returns true → ¬ LacksId id d
  not_lacks id d h l = absurd (ground (arith, h, l))

module _ (J : Json) (building : IsBuilding J) where
  open J use {
    Value, parse, at, set_member, is_array, is_object, elements, append, array_value, write_string,
  }

  pub read-object :
      (files : String → Option Bytes) (path : String) (cfg : Value)
      → read J files path ≡ content cfg
      → is_object cfg ≡ true
  unfolding read
  read-object files path cfg h = elim (Option-cases (files path)) [
    | inl e ↦ absurd (ground (arith, e))
    | inr (text, e) ↦ elim (Option-cases (parse text)) [
      | inl f ↦ absurd (ground (arith, e, f))
      | inr (out, f) ↦ elim (Bool-cases (is_object out)) [
        | inl o ↦ ground (arith, e, f, o)
        | inr n ↦ absurd (ground (arith, e, f, n))
      ]
    ]
  ]

  -- What the loop over the devices leaves: those without the id, after the ones that were there.
  record IsLeft (id : String) (ds : List Value) (found : Bool) (remaining : Value)
      (r : Bool × Value) : Type 0 where
    news : List Value
    chosen : Selects (LacksId J id) ds news
    added : elements r.1 ≡ elements remaining ++ news
    one : r.0 ≡ true → (found ≡ true) ⊎ HasOne J id ds

  remove_id-IsLeft :
      (id : String) (ds : List Value) (found : Bool) (remaining : Value) (r : Bool × Value)
      → is_array remaining ≡ true
      → remove_id J id ds found remaining ≡ returns r
      → IsLeft id ds found remaining r
  unfolding remove_id
  remove_id-IsLeft id [] found remaining r a h =
      let same : (found, remaining) ≡ r = returns_inj h in
      subst (IsLeft id [] found remaining) same (record {
        news = [];
        chosen = ends_here;
        added = sym (append-nil (elements remaining));
        one = λ t. inl t;
      })
  remove_id-IsLeft id (d ∷ ds) found remaining r a h =
      let (same, e, f) = >>=-eq-returns (has_id J id d) _ h in
      elim (Bool-cases same) [
        | inl there ↦
            let has : has_id J id d ≡ returns true = e ∙ ap returns there in
            let l = remove_id-IsLeft id ds true remaining r a (rw there at f) in
            record {
              news = l.news;
              chosen = leaves (not_lacks J id d has) l.chosen;
              added = l.added;
              one = λ t. inr (d, inl refl, has);
            }
        | inr lacks ↦
            let (w, g, k) = >>=-eq-returns (append remaining d) _ (rw lacks at f) in
            let (v, g', b, more) = building.append-Returns remaining d a in
            let same_array : v ≡ w = returns_inj (sym g' ∙ g) in
            let l =
              remove_id-IsLeft id ds found w r (subst (λ u. is_array u ≡ true) same_array b) k in
            record {
              news = d ∷ l.news;
              chosen = takes (e ∙ ap returns lacks) l.chosen;
              added =
                  l.added
                  ∙ ap (λ x. x ++ l.news) (ap elements (sym same_array) ∙ more)
                  ∙ append_assoc (elements remaining) (d ∷ []) l.news;
              one = λ t. elim (l.one t) [ inl b' ↦ inl b' | inr (x, i, hx) ↦ inr (x, inr i, hx) ];
            }
      ]

  -- What a deletion that reports success leaves.
  pub record IsRemoved (faults : Faults) (path id : String) (cfg : Value) (files' : Files)
      : Type 0 where
    pub olds : List Value
    pub news : List Value
    pub saved : Value
    pub devices : Value
    pub before : listed_devices J cfg ≡ returns olds
    pub one : HasOne J id olds
    pub chosen : Selects (LacksId J id) olds news
    pub stored : find path files' ≡ some (on_disk faults (write_string saved))
    pub is_valid : validate J saved ≡ returns valid
    pub there : at saved "devices" ≡ returns devices
    pub left : elements devices ≡ news

  saved-IsRemoved :
      (faults : Faults) (path id : String) (cfg : Value) (olds : List Value) (kept : Bool × Value)
      (files files' : Files) (r : Response)
      → is_object cfg ≡ true
      → listed_devices J cfg ≡ returns olds
      → IsLeft id olds false array_value kept
      → kept.0 ≡ true
      → (do cfg' ← set_member cfg "devices" kept.1; save J faults path cfg' files)
        ≡ returns (r, files')
      → is_ok r ≡ true
      → IsRemoved faults path id cfg files'
  saved-IsRemoved faults path id cfg olds kept files files' r o before l found h success =
      let (cfg', e, f) = >>=-eq-returns (set_member cfg "devices" kept.1) _ h in
      let (v, e', _, there, _) = building.set_member-Returns cfg "devices" kept.1 (inl o) in
      let (is_valid, stored) = save_ok J faults path cfg' files files' r f success in
      let one : HasOne J id olds = elim (l.one found) [
        | inl b ↦ absurd (ground (arith, b))
        | inr x ↦ x
      ] in
      record {
        olds = olds;
        news = l.news;
        saved = cfg';
        devices = kept.1;
        before = before;
        one = one;
        chosen = l.chosen;
        stored = stored;
        is_valid = is_valid;
        there = subst (λ c. at c "devices" ≡ returns kept.1) (returns_inj (sym e' ∙ e)) there;
        left = l.added ∙ ap (λ x. x ++ l.news) building.array_value-Empty.1;
      }

  -- A DELETE that reports success found a device of the id, and saves a valid document whose devices
  -- are those of the document before that do not have the id, each once and in order; the file
  -- holds it, whole unless the flush at the closing of the file failed.
  pub delete_device_removes :
      (faults : Faults) (path id : String) (files files' : Files) (r : Response)
      → delete_device J faults path id files ≡ returns (r, files')
      → is_ok r ≡ true
      → (cfg : Value) × (read_config J path files ≡ content cfg)
        × IsRemoved faults path id cfg files'
  unfolding delete_device
  delete_device_removes faults path id files files' r h success =
      let (cfg, c, f) = with_config_ok J (read_config J path files) files files' _ r h success in
      let o = read-object (λ p. find p files) path cfg c in
      let (listed, e1, f1) = >>=-eq-returns (lists_devices J cfg) _ f in
      let (kept, e2, f2) =
        >>=-eq-returns
          (if listed
            then (do ds ← at cfg "devices"; remove_id J id (elements ds) false array_value)
            else returns (false, array_value))
          _ f1 in
      elim (Bool-cases kept.0) [
        | inr none_found ↦ absurd (ground (arith, rw none_found at f2, success))
        | inl found ↦ elim (Bool-cases listed) [
          | inl present ↦
              let (ds, there, array) = listed_array J cfg (e1 ∙ ap returns present) in
              let g : remove_id J id (elements ds) false array_value ≡ returns kept =
                rw (present, there) at e2 in
              let l =
                remove_id-IsLeft id (elements ds) false array_value kept
                  building.array_value-Empty.0 g in
              (
                cfg,
                c,
                saved-IsRemoved faults path id cfg (elements ds) kept files files' r o
                    (rw (e1, present, there) refl) l found (rw found at f2) success,
              )
          | inr missing ↦
              let same : (false, array_value) ≡ kept = returns_inj (rw missing at e2) in
              absurd (ground (arith, found, ap (λ (k : Bool × Value). k.0) same))
        ]
      ]
