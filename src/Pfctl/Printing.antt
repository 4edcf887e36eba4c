-- ===== src/Pfctl/Printing.antt =====
-- What pfctl writes to its standard output.
use Prim.Native.String.{◌++◌ as str_append}
use pointer_force.Prelude.{
  ℕ, zero, suc, String, Bool, Option, none, some, List, [], ◌∷◌, ◌++◌, nat_beq, if◌then◌else◌,
  is_empty, Outcome, returns, ◌>>=◌, ℤ, string_eq, int_eq, nat_eq,
}
use pointer_force.Json.{Json, Bytes}
use pointer_force.Control.{text_at}
use pointer_force.Pfctl.{read_line}

-- A text, or a line as it was received.
pub data Piece : Type 0 where
  text : String → Piece
  raw : Bytes → Piece

-- The texts of one chain of `<<`.
unfoldable pub concat : List String → String
concat [] = ""
concat (s ∷ ss) = str_append s (concat ss)

abbrev pub yes_or_no : Bool → String
yes_or_no b = if b then "yes" else "no"

-- What is left after the line that `read_line` takes.
unfoldable pub after_line : Bytes → Bytes
after_line [] = []
after_line (c ∷ cs) = let rest = after_line cs in if nat_beq c 10 then cs else rest

abbrev pub binding_line : String → String → String → String
binding_line device key command =
    concat ("  [" ∷ device ∷ "] " ∷ key ∷ "  →  " ∷ command ∷ "\n" ∷ [])

module _ (J : Json) where
  open J use {Value, parse, at, empty, as_bool, as_int, elements}

  -- One after the other, for each of the elements.
  unfoldable pub print_all : (Value → Outcome String) → List Value → Outcome (List Piece)
  print_all print [] = returns []
  print_all print (v ∷ vs) = do
    line ← print v
    lines ← print_all print vs
    returns (text line ∷ lines)

  -- `decimal` writes an int.
  unfoldable pub print_status : (ℤ → String) → Value → Outcome (List Piece)
  print_status decimal v = do
    version ← text_at J v "version"
    r ← at v "running"
    running ← as_bool r
    d ← at v "device_count"
    device_count ← as_int d
    b ← at v "binding_count"
    binding_count ← as_int b
    config ← text_at J v "config"
    returns (
        text (
          concat (
            "Version    : "
            ∷ version
            ∷ "\n"
            ∷ "Running    : "
            ∷ yes_or_no running
            ∷ "\n"
            ∷ "Devices    : "
            ∷ decimal device_count
            ∷ "\n"
            ∷ "Bindings   : "
            ∷ decimal binding_count
            ∷ "\n"
            ∷ "Config     : "
            ∷ config
            ∷ "\n"
            ∷ []))
        ∷ [])

  unfoldable pub device_text : Value → Outcome String
  device_text d = do
    id ← text_at J d "id"
    path ← text_at J d "path"
    name ← text_at J d "name"
    a ← at d "active"
    active ← as_bool a
    returns (
        concat (
          "  ["
          ∷ id
          ∷ "]\n"
          ∷ "    path   : "
          ∷ path
          ∷ "\n"
          ∷ "    name   : "
          ∷ name
          ∷ "\n"
          ∷ "    active : "
          ∷ yes_or_no active
          ∷ "\n"
          ∷ []))

  unfoldable pub print_devices : Value → Outcome (List Piece)
  print_devices v = do ds ← at v "devices"; print_all device_text (elements ds)

  unfoldable pub binding_text : Value → Outcome String
  binding_text b = do
    device ← text_at J b "device"
    key ← text_at J b "key"
    command ← text_at J b "command"
    returns (binding_line device key command)

  unfoldable pub print_bindings : Value → Outcome (List Piece)
  print_bindings v = do
    bs ← at v "bindings"
    if empty bs then returns (text "(no bindings)\n" ∷ []) else print_all binding_text (elements bs)

  -- The text of an event: the arrow only with a command.
  unfoldable pub event_text : Value → Outcome String
  event_text msg = do
    device ← text_at J msg "device"
    key ← text_at J msg "key"
    command ← text_at J msg "command"
    returns (
        concat (
          "["
          ∷ device
          ∷ "] "
          ∷ key
          ∷ (if is_empty command then "\n" else concat ("  →  " ∷ command ∷ "\n" ∷ []))
          ∷ []))

  abbrev pub event_piece : Bytes → Option Value → Outcome (List Piece)
  event_piece line none = returns (raw line ∷ text "\n" ∷ [])
  event_piece line (some msg) = do s ← event_text msg; returns (text s ∷ [])

  -- The stream of events, up to its end or an empty line; on fuel.
  unfoldable pub print_events : ℕ → Bytes → Outcome (List Piece)
  print_events zero received = returns []
  print_events (suc n) received =
      let later = print_events n (after_line received) in
      elim (read_line received) [
        | [] ↦ returns []
        | c ∷ cs ↦ do
          piece ← event_piece (c ∷ cs) (parse (c ∷ cs))
          pieces ← later
          returns (piece ++ pieces)
      ]
