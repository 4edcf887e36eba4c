-- ===== src/Assoc/Keys.antt =====
-- No key stands twice in a map.
use pointer_force.Prelude.{false, ◌≡◌, ◌≢◌, refl, none, some, [], ◌∷◌, arith, Eq, ◌==◌, In}
use pointer_force.Assoc.{Assoc, find, assign, erase, find-assign, find-erase}

module _ {K V : Type 0} ⦃e : Eq K⦄ where
  -- Each key is found nowhere behind its entry.
  abbrev pub IsUnique : Assoc K V → Type 0
  IsUnique [] = Unit
  IsUnique ((k, v) ∷ m) = (find k m ≡ none) × IsUnique m

  find-assign-none :
      (k j : K) (v : V) (m : Assoc K V)
      → (k == j) ≡ false
      → find j m ≡ none
      → find j (assign k v m) ≡ none
  find-assign-none k j v m h n = ground (arith, find-assign k j v m)

  find-erase-none : (k j : K) (m : Assoc K V) → find j m ≡ none → find j (erase k m) ≡ none
  find-erase-none k j m n = ground (arith, find-erase k j m)

  pub assign-IsUnique : (k : K) (v : V) (m : Assoc K V) → IsUnique m → IsUnique (assign k v m)
  unfolding assign find
  assign-IsUnique k v [] u = (refl, tt)
  assign-IsUnique k v ((j, w) ∷ m) u =
      ground
        (arith, e.same_iff k j, e.same_iff j k, find-assign-none k j v m, assign-IsUnique k v m u.1)

  pub erase-IsUnique : (k : K) (m : Assoc K V) → IsUnique m → IsUnique (erase k m)
  unfolding erase
  erase-IsUnique k [] u = tt
  erase-IsUnique k ((j, w) ∷ m) u = ground (arith, find-erase-none k j m, erase-IsUnique k m u.1)

  In-found : (k : K) (v : V) (m : Assoc K V) → In (k, v) m → find k m ≢ none
  unfolding find
  In-found k v [] h = elim h [ ]
  In-found k v ((j, w) ∷ m) h = ground (arith, e.same_iff j k, In-found k v m)

  -- With unique keys the entries are the pairs that `find` returns.
  pub In-find : (k : K) (v : V) (m : Assoc K V) → IsUnique m → In (k, v) m → find k m ≡ some v
  unfolding find
  In-find k v [] u h = elim h [ ]
  In-find k v ((j, w) ∷ m) u h = ground (arith, e.same_iff j k, In-found k v m, In-find k v m u.1)

  pub find-In : (k : K) (v : V) (m : Assoc K V) → find k m ≡ some v → In (k, v) m
  unfolding find
  find-In k v [] h = ground arith
  find-In k v ((j, w) ∷ m) h = ground (arith, e.same_iff j k, find-In k v m)
