-- ===== src/Assoc/Values.antt =====
-- A property of each value of a map.
use pointer_force.Prelude.{
  ◌≡◌, subst, inl, inr, some, [], ◌∷◌, arith, Eq, ◌==◌, Bool-cases, In, string_eq, int_eq, nat_eq,
}
use pointer_force.Assoc.{Assoc, find, assign}

module _ {K V : Type 0} ⦃e : Eq K⦄ (Q : V → Type 0) where
  abbrev pub AllValues : Assoc K V → Type 0
  AllValues [] = Unit
  AllValues ((k, v) ∷ m) = Q v × AllValues m

  pub assign-AllValues :
      (k : K) (v : V) (m : Assoc K V) → Q v → AllValues m → AllValues (assign k v m)
  unfolding assign
  assign-AllValues k v [] q a = (q, tt)
  assign-AllValues k v ((j, w) ∷ m) q a = ground (arith, assign-AllValues k v m q a.1)

  pub find-AllValues : (k : K) (v : V) (m : Assoc K V) → AllValues m → find k m ≡ some v → Q v
  unfolding find
  find-AllValues k v [] a h = cc
  find-AllValues k v ((j, w) ∷ m) a h = elim (Bool-cases (j == k)) [
    | inl same ↦ subst Q (ground (arith, same)) a.0
    | inr other ↦ find-AllValues k v m a.1 (ground (arith, other))
  ]

  pub In-AllValues : (k : K) (v : V) (m : Assoc K V) → AllValues m → In (k, v) m → Q v
  In-AllValues k v [] a i = absurd i
  In-AllValues k v ((j, w) ∷ m) a (inl p) = subst Q (ground arith) a.0
  In-AllValues k v ((j, w) ∷ m) a (inr i) = In-AllValues k v m a.1 i
