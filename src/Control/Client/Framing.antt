-- ===== src/Control/Client/Framing.antt =====
-- How a connection's bytes are cut into lines, independently of the reads.
use pointer_force.Prelude.{
  ℕ, zero, suc, ◌+◌, ◌<◌, ◌≡◌, refl, sym, ap, ◌∙◌, inl, inr, true, false, none, some, List, [], ◌∷◌,
  ◌++◌, append_assoc, append-nil, arith, nat_beq, if◌then◌else◌, Bool-cases, Option-cases, length,
  length-append, Outcome, returns, throws, Outcome-cases, string_eq, int_eq, nat_eq,
}
use pointer_force.Json.{Bytes}
use pointer_force.Control.Client.{newline, cut_line, Handled, handle_client}

abbrev pub prepend : ℕ → List Bytes → List Bytes
prepend b [] = []
prepend b (line ∷ lines) = (b ∷ line) ∷ lines

-- The lines of a stream that a newline ends, without it.
abbrev pub lines_of : Bytes → List Bytes
lines_of [] = []
lines_of (b ∷ bs) = if nat_beq b newline then [] ∷ lines_of bs else prepend b (lines_of bs)

abbrev pub concat : List Bytes → Bytes
concat [] = []
concat (chunk ∷ reads) = chunk ++ concat reads

pub cut_line-none : (buf : Bytes) → cut_line buf ≡ none → lines_of buf ≡ []
unfolding cut_line
cut_line-none [] h = refl
cut_line-none (b ∷ bs) h = elim (Option-cases (cut_line bs)) [
  | inl e ↦ ground (arith, e, cut_line-none bs e)
  | inr (p, e) ↦ absurd (ground (arith, e))
]

-- A line that is cut off is the first line, however the stream goes on.
pub cut_line-some :
    (buf line rest more : Bytes)
    → cut_line buf ≡ some (line, rest)
    → (lines_of (buf ++ more) ≡ line ∷ lines_of (rest ++ more)) × (length rest < length buf)
unfolding cut_line
cut_line-some [] line rest more h = cc
cut_line-some (b ∷ bs) line rest more h = elim (Bool-cases (nat_beq b newline)) [
  | inl e ↦ ground (arith, e)
  | inr n ↦ elim (Option-cases (cut_line bs)) [
    | inl f ↦ absurd (ground (arith, n, f))
    | inr ((l, r), f) ↦ ground (arith, n, f, cut_line-some bs l r more f)
  ]
]

module _ {S : Type 0} (handle : Bytes → S → Outcome (Handled S)) where
  abbrev pub followed : List Bytes → Outcome (List Bytes × S) → Outcome (List Bytes × S)
  followed out throws = throws
  followed out (returns (more, s)) = returns (out ++ more, s)

  abbrev pub handled :
      Outcome (Handled S) → (S → Outcome (List Bytes × S)) → Outcome (List Bytes × S)
  handled throws rest = throws
  handled (returns (out, s, true)) rest = followed out (rest s)
  handled (returns (out, s, false)) rest = returns (out, s)

  -- The lines are handled one after the other, empty ones left out, until one closes the
  -- connection.
  unfoldable pub handle_lines : List Bytes → S → Outcome (List Bytes × S)
  handle_lines [] s = returns ([], s)
  handle_lines ([] ∷ lines) s = handle_lines lines s
  handle_lines ((b ∷ line) ∷ lines) s = handled (handle (b ∷ line) s) (handle_lines lines)

  -- One round on a line, if the rounds after it do the other lines.
  line_round :
      (n : ℕ) (reads : List Bytes) (buf line rest : Bytes) (lines : List Bytes) (s : S)
      → cut_line buf ≡ some (line, rest)
      → ((t : S) → handle_client handle n reads rest t ≡ some (handle_lines lines t))
      → handle_client handle (suc n) reads buf s ≡ some (handle_lines (line ∷ lines) s)
  unfolding handle_client handle_lines
  line_round n reads buf [] rest lines s e ih = rw (e, handle_client) (ih s)
  line_round n reads buf (b ∷ line) rest lines s e ih = elim (Outcome-cases (handle (b ∷ line) s)) [
    | inl ((out, t, stays), f) ↦ elim (Bool-cases stays) [
      | inl on ↦ elim (Outcome-cases (handle_lines lines t)) [
        | inl (r, g) ↦ rw (e, f, on, ih t, g, handle_client)
        | inr g ↦ rw (e, f, on, ih t, g, handle_client)
      ]
      | inr off ↦ rw (e, f, off, handle_client)
    ]
    | inr f ↦ rw (e, f, handle_client)
  ]

  -- A round that reads, and the round that ends the connection.
  read_round :
      (n : ℕ) (chunk : Bytes) (reads : List Bytes) (buf : Bytes) (s : S)
      → cut_line buf ≡ none
      → handle_client handle (suc n) (chunk ∷ reads) buf s
        ≡ handle_client handle n reads (buf ++ chunk) s
  unfolding handle_client
  read_round n chunk reads buf s e = ground (arith, e)

  last_round :
      (n : ℕ) (buf : Bytes) (s : S)
      → cut_line buf ≡ none
      → handle_client handle (suc n) [] buf s ≡ some (returns ([], s))
  unfolding handle_client
  last_round n buf s e = ground (arith, e)

  nothing_left :
      (buf : Bytes) (s : S)
      → cut_line buf ≡ none
      → handle_lines (lines_of (buf ++ [])) s ≡ returns ([], s)
  unfolding handle_lines
  nothing_left buf s e = rw (append-nil buf, cut_line-none buf e) refl

  same_bytes :
      (n : ℕ) (buf chunk : Bytes) (reads : List Bytes)
      → suc (length reads) + length (buf ++ (chunk ++ concat reads)) < suc n
      → length reads + length ((buf ++ chunk) ++ concat reads) < n
  same_bytes n buf chunk reads h = rw (append_assoc buf chunk (concat reads)) (omega arith)

  fewer_bytes :
      (n : ℕ) (buf rest : Bytes) (reads : List Bytes)
      → length rest < length buf
      → length reads + length (buf ++ concat reads) < suc n
      → length reads + length (rest ++ concat reads) < n
  fewer_bytes n buf rest reads shorter h =
      omega (arith, shorter, h, length-append buf (concat reads), length-append rest (concat reads))

  abbrev Agrees : ℕ → List Bytes → Bytes → S → Type 0
  Agrees n reads buf s =
      handle_client handle n reads buf s ≡ some (handle_lines (lines_of (buf ++ concat reads)) s)

  -- A round on a buffer without a newline, if the rounds after it do the rest.
  no_line :
      (n : ℕ) (reads : List Bytes) (buf : Bytes) (s : S)
      → cut_line buf ≡ none
      → length reads + length (buf ++ concat reads) < suc n
      → ((reads' : List Bytes) (buf' : Bytes) (t : S)
          → length reads' + length (buf' ++ concat reads') < n
          → Agrees n reads' buf' t)
      → Agrees (suc n) reads buf s
  no_line n [] buf s e h ih = last_round n buf s e ∙ ap some (sym (nothing_left buf s e))
  no_line n (chunk ∷ reads) buf s e h ih =
      read_round n chunk reads buf s e
      ∙ ih reads (buf ++ chunk) s (same_bytes n buf chunk reads h)
      ∙ ap (λ bs. some (handle_lines (lines_of bs) s)) (append_assoc buf chunk (concat reads))

  -- However a stream is split into reads, its lines are handled as they stand in it, each once, in
  -- order, and what follows the last newline is not; one round more than there are bytes and reads
  -- is enough.
  pub handle_client-eq-handle_lines :
      (n : ℕ) (reads : List Bytes) (buf : Bytes) (s : S)
      → length reads + length (buf ++ concat reads) < n
      → handle_client handle n reads buf s ≡ some (handle_lines (lines_of (buf ++ concat reads)) s)
  handle_client-eq-handle_lines zero reads buf s h = absurd (omega arith)
  handle_client-eq-handle_lines (suc n) reads buf s h = elim (Option-cases (cut_line buf)) [
    | inl e ↦ no_line n reads buf s e h (handle_client-eq-handle_lines n)
    | inr ((line, rest), e) ↦
        let (first, shorter) = cut_line-some buf line rest (concat reads) e in
        rw first (
          line_round n reads buf line rest _ s e λ t.
            handle_client-eq-handle_lines n reads rest t (fewer_bytes n buf rest reads shorter h))
  ]
