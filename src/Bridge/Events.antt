-- ===== src/Bridge/Events.antt =====
-- frontend/main.cpp: one open stream of events, between the thread that reads the control socket
-- and the callback that writes to the page. Both hold the lock of the queue, so that what they do
-- is a sequence.
use pointer_force.Prelude.{
  returns_inj, ℕ, String, ◌≡◌, sym, ap, subst, ◌∙◌, Option, none, some, List, [], ◌∷◌, ◌++◌,
  append_assoc, append-nil, Outcome, returns, >>=-eq-returns, ◌>>=◌, string_eq, int_eq, nat_eq,
}
use pointer_force.Json.{Json, Bytes}
use pointer_force.Bridge.{enqueue, take_line, next_chunk, format_event_line}
use pointer_force.Bridge.Queue.{enqueue-drops}

-- An event that the thread formats and puts into the queue, or a call of the callback.
pub data StreamCall (V : Type 0) : Type 0 where
  arrives : V → StreamCall V
  pulls : ℕ → StreamCall V

-- A line that was taken, in front of the others.
abbrev pub with_taken : Option String → List String → List String
with_taken none lines = lines
with_taken (some line) lines = line ∷ lines

pub record Delivery : Type 0 where
  pub chunks : List Bytes
  pub taken : List String
  pub queue : List String

module _ (J : Json) (bytes : String → Bytes) where
  open J use {Value}

  -- What the page gets, the lines that were taken for it, and the queue at the end.
  unfoldable pub stream_calls : List (StreamCall Value) → List String → Outcome Delivery
  stream_calls [] queue = returns (record { chunks = []; taken = []; queue = queue })
  stream_calls (arrives event ∷ calls) queue = do
    line ← format_event_line J event
    stream_calls calls (enqueue line queue)
  stream_calls (pulls max_len ∷ calls) queue =
      let (chunk, rest) = next_chunk bytes max_len queue in
      let later = stream_calls calls rest in
      do
        d ← later
        returns (record {
          chunks = chunk ∷ d.chunks;
          taken = with_taken (take_line queue).0 d.taken;
          queue = d.queue;
        })

  -- The lines of the events that arrive.
  unfoldable pub arrivals : List (StreamCall Value) → Outcome (List String)
  arrivals [] = returns []
  arrivals (arrives event ∷ calls) = do
    line ← format_event_line J event
    lines ← arrivals calls
    returns (line ∷ lines)
  arrivals (pulls max_len ∷ calls) = arrivals calls

-- The second list has the elements of the first, in order, and perhaps others between them.
pub data IsWithin : List String → List String → Type 0 where
  ends : IsWithin [] []
  keeps : {x : String} {xs ys : List String} → IsWithin xs ys → IsWithin (x ∷ xs) (x ∷ ys)
  skips : {y : String} {xs ys : List String} → IsWithin xs ys → IsWithin xs (y ∷ ys)

itself-IsWithin : (xs : List String) → IsWithin xs xs
itself-IsWithin [] = ends
itself-IsWithin (x ∷ xs) = keeps (itself-IsWithin xs)

IsWithin-behind : (front xs ys : List String) → IsWithin xs ys → IsWithin xs (front ++ ys)
IsWithin-behind [] xs ys h = h
IsWithin-behind (x ∷ front) xs ys h = skips (IsWithin-behind front xs ys h)

-- What was taken and what waits, of what waited and what arrived.
abbrev Remains : List String → List String → Delivery → Type 0
Remains queue lines d = IsWithin (d.taken ++ d.queue) (queue ++ lines)

module _ (J : Json) (bytes : String → Bytes) where
  open J use {Value}

  -- However arrivals and calls of the callback interleave, the lines that were taken and those that
  -- still wait are lines that waited first or arrived, each once and in that order.
  pub stream_calls-IsWithin :
      (calls : List (StreamCall Value)) (queue lines : List String) (d : Delivery)
      → arrivals J bytes calls ≡ returns lines
      → stream_calls J bytes calls queue ≡ returns d
      → IsWithin (d.taken ++ d.queue) (queue ++ lines)
  unfolding stream_calls arrivals next_chunk
  stream_calls-IsWithin [] queue lines d a h = subst (Remains queue lines) (returns_inj h) (
      subst (λ l. IsWithin queue (queue ++ l)) (returns_inj a)
        (subst (IsWithin queue) (sym (append-nil queue)) (itself-IsWithin queue)))
  stream_calls-IsWithin (arrives event ∷ calls) queue lines d a h =
      let (line, e, f) = >>=-eq-returns (format_event_line J event) _ h in
      let (line', e', f') = >>=-eq-returns (format_event_line J event) _ a in
      let (more, g, k) = >>=-eq-returns (arrivals J bytes calls) _ f' in
      let (dropped, left) = enqueue-drops line queue in
      subst (IsWithin (d.taken ++ d.queue))
        (sym (append_assoc dropped (enqueue line queue) more)
          ∙ ap (λ l. l ++ more) left
          ∙ append_assoc queue (line ∷ []) more
          ∙ ap (λ l. queue ++ l ∷ more) (returns_inj (sym e ∙ e'))
          ∙ ap (λ l. queue ++ l) (returns_inj k))
        (IsWithin-behind dropped _ _ (stream_calls-IsWithin calls (enqueue line queue) more d g f))
  stream_calls-IsWithin (pulls max_len ∷ calls) [] lines d a h =
      let (later, e, f) = >>=-eq-returns (stream_calls J bytes calls []) _ h in
      subst (Remains [] lines) (returns_inj f) (stream_calls-IsWithin calls [] lines later a e)
  stream_calls-IsWithin (pulls max_len ∷ calls) (front ∷ queue) lines d a h =
      let (later, e, f) = >>=-eq-returns (stream_calls J bytes calls queue) _ h in
      subst (Remains (front ∷ queue) lines) (returns_inj f)
        (keeps (stream_calls-IsWithin calls queue lines later a e))
