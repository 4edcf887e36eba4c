-- ===== src/Assoc.antt =====
-- std::unordered_map and std::map as association lists: the entries in the order of iteration.
pub mod Keys
pub mod Values
use pointer_force.Prelude.{
  ℕ, Bool, true, false, ◌≡◌, refl, Option, none, some, List, [], ◌∷◌, arith, Eq, ◌==◌,
  if◌then◌else◌, length, Bool-cases, inl, inr, ◌⊎◌,
}

abbrev pub Assoc {ℓ κ} : Type ℓ → Type κ → Type (ℓ ⊔ κ)
Assoc K V = List (K × V)

module _ {ℓ κ} {K : Type ℓ} {V : Type κ} ⦃e : Eq K⦄ where
  -- m.find(k)
  unfoldable pub find : K → Assoc K V → Option V
  find k [] = none
  find k ((i, x) ∷ m) = if i == k then some x else find k m

  -- m[k] = v
  unfoldable pub assign : K → V → Assoc K V → Assoc K V
  assign k v [] = (k, v) ∷ []
  assign k v ((i, x) ∷ m) = if i == k then (i, v) ∷ m else (i, x) ∷ assign k v m

  -- m.erase(k)
  unfoldable pub erase : K → Assoc K V → Assoc K V
  erase k [] = []
  erase k ((i, x) ∷ m) = let rest = erase k m in if i == k then rest else (i, x) ∷ rest

  pub find-assign :
      (k j : K) (v : V) (m : Assoc K V)
      → find j (assign k v m) ≡ (if k == j then some v else find j m)
  unfolding find assign
  find-assign k j v [] = refl
  find-assign k j v ((i, w) ∷ m) =
      ground (arith, e.same_iff k j, e.same_iff i k, e.same_iff i j, find-assign k j v m)

  pub find-erase :
      (k j : K) (m : Assoc K V) → find j (erase k m) ≡ (if k == j then none else find j m)
  unfolding find erase
  find-erase k j [] = ground arith
  find-erase k j ((i, v) ∷ m) =
      ground (arith, e.same_iff k j, e.same_iff i k, e.same_iff i j, find-erase k j m)
