-- ===== src/Control/Client.antt =====
-- ControlServer::handle_client in src/control.cpp: the loop that cuts the stream of a connection
-- into lines, over any handling of one line.
pub mod Framing
use pointer_force.Prelude.{
  ℕ, zero, suc, ◌+◌, ◌-◌, ◌*◌, ◌%◌, ◌≤◌, ◌<◌, min, String, ◌≡◌, refl, sym, ap, subst, ◌∙◌, ◌≢◌, ◌↔◌,
  ◌⊎◌, inl, inr, Bool, true, false, not, ◌&&◌, ◌||◌, Option, none, some, List, [], ◌∷◌, ◌++◌, map,
  append_assoc, append-nil, arith, eq_iff, eq_refl, ltb, leb, nat_beq, nat_beq_iff, if◌then◌else◌,
  Eq, ◌==◌, is_empty, Bool-cases, Option-cases, length, length-append, get_elem?, In,
  In-append_left, In-append_right, In-append, All, All-append, Outcome, returns, throws,
  Outcome-cases, >>=-eq-returns, Ensures, Ensures-returns, Ensures-if, Ensures-bind, Returns,
  Returns-bind, Returns-if, Returns-after, ◌>>=◌, ◌>>◌, ℤ, pos, negsuc, is_negative, int_beq,
  int_beq_iff, string_eq, int_eq, nat_eq,
}
use pointer_force.Json.{Bytes}

abbrev pub newline : ℕ
newline = 10

abbrev pub before : ℕ → Option (Bytes × Bytes) → Option (Bytes × Bytes)
before b none = none
before b (some (line, rest)) = some (b ∷ line, rest)

-- buf.find('\n'), buf.substr(0, nl) and buf.erase(0, nl + 1); `none` if there is no newline.
unfoldable pub cut_line : Bytes → Option (Bytes × Bytes)
cut_line [] = none
cut_line (b ∷ bs) = if nat_beq b newline then some ([], bs) else before b (cut_line bs)

-- A handled line: what it wrote, the state, and whether the loop goes on.
abbrev pub Handled : Type 0 → Type 0
Handled S = List Bytes × S × Bool

module _ {S : Type 0} (handle : Bytes → S → Outcome (Handled S)) where
  abbrev pub and_then :
      List Bytes → Option (Outcome (List Bytes × S)) → Option (Outcome (List Bytes × S))
  and_then out none = none
  and_then out (some throws) = some throws
  and_then out (some (returns (more, s))) = some (returns (out ++ more, s))

  -- `reads` are the chunks that ::read gives until it gives nothing. `none` if the fuel ran out.
  unfoldable pub handle_client : ℕ → List Bytes → Bytes → S → Option (Outcome (List Bytes × S))
  handle_client zero reads buf s = none
  handle_client (suc n) reads buf s = elim (cut_line buf) [
    | none ↦ elim reads [
      | [] ↦ some (returns ([], s))
      | chunk ∷ rest ↦ handle_client n rest (buf ++ chunk) s
    ]
    | some ([], buf') ↦ handle_client n reads buf' s
    | some (b ∷ line, buf') ↦ elim (handle (b ∷ line) s) [
      | throws ↦ some throws
      | returns (out, s', stays) ↦ elim stays [
        | true ↦ and_then out (handle_client n reads buf' s')
        | false ↦ some (returns (out, s'))
      ]
    ]
  ]
