-- ===== src/Editor/Saving.antt =====
-- What the end of a handler that has a new document leaves on the disk.
use pointer_force.Prelude.{
  String, ◌≡◌, refl, ◌⊎◌, inl, inr, Bool, true, false, some, arith, returns, >>=-eq-returns,
  Ensures, Ensures-returns, Ensures-bind, string_eq, int_eq, nat_eq,
}
use pointer_force.Json.{Json}
use pointer_force.Assoc.{find}
use pointer_force.ConfigStore.{valid, validate}
use pointer_force.ConfigStore.Disk.{
  Faults, on_disk, WriteResult, written, refused, cannot_open_tmp, write_failed, rename_failed,
  Files, write, write_atomic, written_valid,
}
use pointer_force.Editor.{Response, ok, fails, response, save}

abbrev pub is_ok : Response → Bool
is_ok ok = true
is_ok (fails f) = false

written-or-not : (w : WriteResult) → (w ≡ written) ⊎ (is_ok (response w) ≡ false)
written-or-not written = inl refl
written-or-not (refused x) = inr refl
written-or-not cannot_open_tmp = inr refl
written-or-not write_failed = inr refl
written-or-not rename_failed = inr refl

module _ (J : Json) where
  open J use {
    Value, write_string, at, as_string, elements, append, set_member, set_element, array_value,
  }

  -- A success wrote a valid document, as far as the flush went, a failure nothing.
  abbrev pub IsSaved : Faults → String → Files → Response × Files → Type 0
  IsSaved faults path files r =
      (is_ok r.0 ≡ true
        → (cfg : Value) × (validate J cfg ≡ returns valid)
          × (find path r.1 ≡ some (on_disk faults (write_string cfg))))
      × (is_ok r.0 ≡ false → find path r.1 ≡ find path files)

  result-IsSaved :
      (faults : Faults) (path : String) (cfg : Value) (files files' : Files) (r : WriteResult)
      → write J faults path cfg files ≡ returns (r, files')
      → IsSaved faults path files (response r, files')
  result-IsSaved faults path cfg files files' written e = (
    (λ h. (
      cfg,
      written_valid J faults path cfg files files' e,
      write_atomic J faults path cfg files files' written e,
    )),
    λ h. cc,
  )
  result-IsSaved faults path cfg files files' (refused x) e =
      ((λ h. cc), λ h. write_atomic J faults path cfg files files' (refused x) e)
  result-IsSaved faults path cfg files files' cannot_open_tmp e =
      ((λ h. cc), λ h. write_atomic J faults path cfg files files' cannot_open_tmp e)
  result-IsSaved faults path cfg files files' write_failed e =
      ((λ h. cc), λ h. write_atomic J faults path cfg files files' write_failed e)
  result-IsSaved faults path cfg files files' rename_failed e =
      ((λ h. cc), λ h. write_atomic J faults path cfg files files' rename_failed e)

  pub save-IsSaved :
      (faults : Faults) (path : String) (cfg : Value) (files : Files)
      → Ensures (IsSaved faults path files) (save J faults path cfg files)
  unfolding save
  save-IsSaved faults path cfg files =
      Ensures-bind (write J faults path cfg files) _
        λ result e. Ensures-returns _ (result-IsSaved faults path cfg files result.1 result.0 e)

  -- What a save that succeeds wrote.
  pub save_ok :
      (faults : Faults) (path : String) (cfg : Value) (files files' : Files) (r : Response)
      → save J faults path cfg files ≡ returns (r, files')
      → is_ok r ≡ true
      → (validate J cfg ≡ returns valid)
        × (find path files' ≡ some (on_disk faults (write_string cfg)))
  unfolding save
  save_ok faults path cfg files files' r h o =
      let ((result, after), e, f) = >>=-eq-returns (write J faults path cfg files) _ h in
      elim (written-or-not result) [
        | inl w ↦
            let e' : write J faults path cfg files ≡ returns (written, files') =
              ground (arith, e, f, w) in
            (
              written_valid J faults path cfg files files' e',
              write_atomic J faults path cfg files files' written e',
            )
        | inr n ↦ absurd (ground (arith, f, n, o))
      ]
