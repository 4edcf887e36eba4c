-- ===== src/ControlClient/Stream.antt =====
-- The events that a stream delivers, independently of the reads.
use pointer_force.Prelude.{
  ℕ, zero, suc, ◌+◌, ◌<◌, ◌≡◌, refl, sym, ap, ◌∙◌, inl, inr, List, [], ◌∷◌, ◌++◌, append_assoc,
  append-nil, arith, Option-cases, length, string_eq,
}
use pointer_force.Json.{Json, Bytes}
use pointer_force.Control.Client.{cut_line}
use pointer_force.Control.Client.Framing.{lines_of, cut_line-none, cut_line-some}
use pointer_force.ControlClient.{
  PollAnswer, nothing, bytes, closed, hung_up, cut_lines, events_of, stream,
}

-- The bytes that the polls bring, up to the end of the stream.
abbrev pub received : List PollAnswer → Bytes
received [] = []
received (nothing ∷ polls) = received polls
received (bytes chunk ∷ polls) = chunk ++ received polls
received (closed ∷ polls) = []
received (hung_up ∷ polls) = []

-- With enough fuel the inner loop takes every complete line, however the stream goes on.
cut_lines-cuts :
    (n : ℕ) (buf more : Bytes)
    → length buf < n
    → (lines_of (buf ++ more) ≡ (cut_lines n buf).0 ++ lines_of ((cut_lines n buf).1 ++ more))
      × (lines_of (cut_lines n buf).1 ≡ [])
unfolding cut_lines
cut_lines-cuts zero buf more h = absurd (omega arith)
cut_lines-cuts (suc n) buf more h = elim (Option-cases (cut_line buf)) [
  | inl e ↦ (ground (arith, e), ground (arith, e, cut_line-none buf e))
  | inr ((line, rest), e) ↦
      let (first, shorter) = cut_line-some buf line rest more e in
      let (ih, left) = cut_lines-cuts n rest more (omega (arith, shorter)) in
      (ground (arith, e, first, ih), ground (arith, e, left))
]

module _ (J : Json) where
  open J use {Value, parse}

  events_of-append :
      (xs ys : List Bytes) → events_of J (xs ++ ys) ≡ events_of J xs ++ events_of J ys
  events_of-append [] ys = refl
  events_of-append ([] ∷ xs) ys = events_of-append xs ys
  events_of-append ((b ∷ x) ∷ xs) ys = elim (Option-cases (parse (b ∷ x))) [
    | inl e ↦ ground (arith, e, events_of-append xs ys)
    | inr (v, e) ↦ ground (arith, e, events_of-append xs ys)
  ]

  ended : (leftover : Bytes) → lines_of leftover ≡ [] → [] ≡ events_of J (lines_of (leftover ++ []))
  ended leftover h = rw (append-nil leftover, h) refl

  -- The callback gets the event of every complete line that parses, each once and in order,
  -- however the stream is cut into reads, and whatever a read leaves behind.
  pub stream-eq-events_of :
      (polls : List PollAnswer) (leftover : Bytes)
      → lines_of leftover ≡ []
      → stream J polls leftover ≡ events_of J (lines_of (leftover ++ received polls))
  unfolding stream
  stream-eq-events_of [] leftover h = ended leftover h
  stream-eq-events_of (nothing ∷ polls) leftover h = stream-eq-events_of polls leftover h
  stream-eq-events_of (bytes chunk ∷ polls) leftover h =
      let all = leftover ++ chunk in
      let (whole, none_left) = cut_lines-cuts (length all + 1) all (received polls) (omega arith) in
      let (lines, left) = cut_lines (length all + 1) all in
      ap (λ vs. events_of J lines ++ vs) (stream-eq-events_of polls left none_left)
      ∙ sym (events_of-append lines (lines_of (left ++ received polls)))
      ∙ ap (events_of J) (sym whole)
      ∙ ap (λ bs. events_of J (lines_of bs)) (append_assoc leftover chunk (received polls))
  stream-eq-events_of (closed ∷ polls) leftover h = ended leftover h
  stream-eq-events_of (hung_up ∷ polls) leftover h = ended leftover h
