-- ===== src/ConfigStore/Disk.antt =====
-- ConfigStore::write against a file system whose calls may fail.
use Prim.Native.String.{◌++◌ as str_append}
use text.Mathlib.TextLemmas.{append_cancel_left, append-nil as append-empty}
use pointer_force.Socket.{split}
use pointer_force.Prelude.{
  ℕ, String, ◌≡◌, refl, ap, ◌∙◌, ◌≢◌, inl, inr, Bool, true, false, Option, some, arith, eq_iff,
  eq_refl, if◌then◌else◌, ◌==◌, Bool-cases, Outcome, returns, >>=-eq-returns, Ensures,
  Ensures-returns, ◌>>=◌, string_eq, int_eq, nat_eq,
}
use pointer_force.Assoc.{Assoc, find, assign, erase, find-assign, find-erase}
use pointer_force.Json.{Json, Bytes}
use pointer_force.ConfigStore.Agreement.Inversion.{valid_config}
use pointer_force.ConfigStore.{Verdict, valid, invalid, Refusal, validate, content, read}

-- What the calls of one `write` meet: the temporary file cannot be opened, the stream fails, the
-- text that it holds back cannot be flushed when it is closed, which nothing tests, or the rename
-- is refused; and how many bytes get to the disk where the stream or the flush fails.
pub record Faults : Type 0 where
  pub open_fails : Bool
  pub write_fails : Bool
  pub flush_fails : Bool
  pub rename_fails : Bool
  pub kept : ℕ

pub data WriteResult : Type 0 where
  written : WriteResult
  refused : Refusal → WriteResult
  cannot_open_tmp write_failed rename_failed : WriteResult

abbrev pub Files : Type 0
Files = Assoc String Bytes

abbrev pub tmp_path : String → String
tmp_path path = str_append path ".tmp"

-- What the closed file holds of the text.
abbrev pub on_disk : Faults → Bytes → Bytes
on_disk faults text = if faults.flush_fails then (split faults.kept text).0 else text

-- Opening with ios::trunc leaves an empty file, which the stream fills; the rename moves it.
unfoldable pub replace_file : Faults → String → Bytes → Files → WriteResult × Files
replace_file faults path text files =
    if faults.open_fails
    then (cannot_open_tmp, files)
    else if faults.write_fails
    then (write_failed, assign (tmp_path path) (split faults.kept text).0 files)
    else if faults.rename_fails
    then (rename_failed, erase (tmp_path path) files)
    else (written, assign path (on_disk faults text) (erase (tmp_path path) files))

module _ (J : Json) where
  open J use {Value, parse, write_string, is_object}

  abbrev finish : Faults → String → Value → Files → Verdict → Outcome (WriteResult × Files)
  finish faults path config files valid =
      returns (replace_file faults path (write_string config) files)
  finish faults path config files (invalid r) = returns (refused r, files)

  unfoldable pub write : Faults → String → Value → Files → Outcome (WriteResult × Files)
  write faults path config files = do
    verdict ← validate J config
    finish faults path config files verdict

tmp_not_empty : ◌≢◌ {A = String} "" ".tmp"
tmp_not_empty = ground (arith, eq_iff "" ".tmp")

path-ne-tmp_path : (path : String) → (path == tmp_path path) ≡ false
path-ne-tmp_path path = elim (Bool-cases (path == tmp_path path)) [
  | inl e ↦ absurd (
      tmp_not_empty
        (append_cancel_left path "" ".tmp" (append-empty path ∙ (eq_iff path (tmp_path path)).0 e)))
  | inr e ↦ e
]

abbrev pub is_written : WriteResult → Bool
is_written written = true
is_written _ = false

module _ (J : Json) where
  open J use {Value, parse, write_string, is_object}

  replace_file_atomic :
      (faults : Faults) (path : String) (text : Bytes) (files : Files)
      → find path (replace_file faults path text files).1 ≡ (
          if is_written (replace_file faults path text files).0
          then some (on_disk faults text)
          else find path files)
  unfolding replace_file
  replace_file_atomic faults path text files =
      let t = tmp_path path in
      ground (
        arith,
        eq_refl path,
        eq_iff path t,
        eq_iff t path,
        path-ne-tmp_path path,
        find-assign t path (split faults.kept text).0 files,
        find-erase t path files,
        find-assign path path (on_disk faults text) (erase t files),
      )

  finish_atomic :
      (faults : Faults) (path : String) (config : Value) (files : Files) (verdict : Verdict)
      → Ensures
          (λ (p : WriteResult × Files). find path p.1 ≡ (
            if is_written p.0
            then some (on_disk faults (write_string config))
            else find path files))
          (finish J faults path config files verdict)
  finish_atomic faults path config files valid =
      Ensures-returns _ (replace_file_atomic faults path (write_string config) files)
  finish_atomic faults path config files (invalid x) = Ensures-returns _ refl

  -- Whatever fails, the file at `path` holds what the closed file held of the new document if the
  -- write reports success, and what it held before if not.
  pub write_atomic :
      (faults : Faults) (path : String) (config : Value) (files files' : Files) (r : WriteResult)
      → write J faults path config files ≡ returns (r, files')
      → find path files'
        ≡ (if is_written r then some (on_disk faults (write_string config)) else find path files)
  unfolding write
  write_atomic faults path config files files' r h =
      let (verdict, e, f) = >>=-eq-returns (validate J config) _ h in
      (finish_atomic faults path config files verdict).at_return (r, files') f

  finish_valid :
      (faults : Faults) (path : String) (config : Value) (files : Files) (verdict : Verdict)
      → Ensures
          (λ (p : WriteResult × Files). is_written p.0 ≡ true → verdict ≡ valid)
          (finish J faults path config files verdict)
  finish_valid faults path config files valid = Ensures-returns _ (λ _. refl)
  finish_valid faults path config files (invalid x) = Ensures-returns _ (λ h. cc)

  pub written_valid :
      (faults : Faults) (path : String) (config : Value) (files files' : Files)
      → write J faults path config files ≡ returns (written, files')
      → validate J config ≡ returns valid
  unfolding write
  written_valid faults path config files files' h =
      let (verdict, e, f) = >>=-eq-returns (validate J config) _ h in
      e
      ∙ ap returns
          ((finish_valid faults path config files verdict).at_return (written, files') f refl)

  read_found :
      (files : String → Option Bytes) (path : String) (text : Bytes) (v : Value)
      → files path ≡ some text
      → parse text ≡ some v
      → is_object v ≡ true
      → read J files path ≡ content v
  unfolding read
  read_found files path text v e f o = ground arith

  -- Only a valid document is written, and reading the file back gives that document, if the flush
  -- at the closing of the file did not fail and the JSON library parses what it wrote.
  pub read-write :
      (faults : Faults) (path : String) (config : Value) (files files' : Files)
      → faults.flush_fails ≡ false
      → parse (write_string config) ≡ some config
      → write J faults path config files ≡ returns (written, files')
      → (validate J config ≡ returns valid) × (read J (λ p. find p files') path ≡ content config)
  read-write faults path config files files' flushed round h =
      let ok = written_valid faults path config files files' h in
      (
        ok,
        read_found (λ p. find p files') path (write_string config) config
            (write_atomic faults path config files files' written h ∙ rw flushed refl) round
            (valid_config J config ok).0,
      )
