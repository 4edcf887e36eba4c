-- ===== src/Prelude/Selection.antt =====
-- What a filter has to choose: the elements with a property, each once and in order.
use mathlib.Core.List.{List, [], ◌∷◌}

pub data Selects {A : Type 0} (Q : A → Type 0) : List A → List A → Type 0 where
  ends_here : Selects Q [] []
  takes : {x : A} {xs ys : List A} → Q x → Selects Q xs ys → Selects Q (x ∷ xs) (x ∷ ys)
  leaves : {x : A} {xs ys : List A} → ¬ Q x → Selects Q xs ys → Selects Q (x ∷ xs) ys
