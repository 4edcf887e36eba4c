-- ===== src/Bridge/Queue.antt =====
-- The queue of an event stream.
use pointer_force.Prelude.{
  String, ◌≡◌, refl, inl, inr, List, [], ◌∷◌, ◌++◌, arith, ltb, Bool-cases, length, string_eq,
}
use pointer_force.Bridge.{enqueue}

-- Lines that arrive while nobody reads.
abbrev pub enqueue_all : List String → List String → List String
enqueue_all [] queue = queue
enqueue_all (line ∷ lines) queue = enqueue_all lines (enqueue line queue)

-- Nothing but the oldest line is dropped.
pub enqueue-drops :
    (line : String) (queue : List String)
    → (dropped : List String) × (dropped ++ enqueue line queue ≡ queue ++ line ∷ [])
unfolding enqueue
enqueue-drops line [] = ([], refl)
enqueue-drops line (front ∷ queue) = elim (Bool-cases (ltb 500 (length (front ∷ queue)))) [
  | inl e ↦ (front ∷ [], ground (arith, e))
  | inr e ↦ ([], ground (arith, e))
]
