-- ===== src/Keys/RoundTrip.antt =====
-- Key names and key codes correspond.
use pointer_force.Prelude.{
  ℕ, String, ◌≡◌, refl, ◌≢◌, ◌⊎◌, inl, inr, Option, none, some, List, [], ◌∷◌, arith, eq_iff,
  if◌then◌else◌, In, ℤ, pos, negsuc, int_beq, int_beq_iff, string_eq, int_eq, nat_eq,
}
use pointer_force.Assoc.{Assoc, find, find-assign}
use pointer_force.Keys.{
  key_names, entries, name_table, emplace, invert, code_table, name_to_code, code_to_name,
  unknown_key,
}

abbrev pub kept_or : Option String → String → Option String
kept_or none name = some name
kept_or (some old) name = some old

pub find-emplace :
    (c k : ℤ) (v : String) (t : Assoc ℤ String)
    → find c (emplace k v t) ≡ (if int_beq k c then kept_or (find c t) v else find c t)
unfolding emplace
find-emplace c k v t = ground (arith, int_beq_iff k c, find-assign k c v t)

module _ (input_code : String → ℕ) where
  find-entries :
      (n : String) (ns : List String)
      → In n ns
      → find n (entries input_code ns) ≡ some (pos (input_code n))
  unfolding find
  find-entries n [] h = elim h [ ]
  find-entries n (m ∷ ns) h = ground (arith, eq_iff m n, find-entries n ns)

  not_found-entries :
      (n : String) (ns : List String) → ¬ In n ns → find n (entries input_code ns) ≡ none
  unfolding find
  not_found-entries n [] h = refl
  not_found-entries n (m ∷ ns) h = ground (arith, eq_iff m n, not_found-entries n ns)

  find-name_table :
      (n : String) → In n key_names → find n (name_table input_code) ≡ some (pos (input_code n))
  unfolding name_table
  find-name_table n h = find-entries n key_names h

  not_found-name_table : (n : String) → ¬ In n key_names → find n (name_table input_code) ≡ none
  unfolding name_table
  not_found-name_table n h = not_found-entries n key_names h

  -- A name of the table has the code of its constant, which is no negative number.
  pub name_to_code_known :
      (n : String) → In n key_names → name_to_code input_code n ≡ pos (input_code n)
  unfolding name_to_code
  name_to_code_known n h = rw (find-name_table n h)

  -- Any other name has code -1.
  pub name_to_code_unknown : (n : String) → ¬ In n key_names → name_to_code input_code n ≡ negsuc 0
  unfolding name_to_code
  name_to_code_unknown n h = rw (not_found-name_table n h)

  abbrev IsFreeFor : String → Option String → Type 0
  IsFreeFor n r = (r ≡ none) ⊎ (r ≡ some n)

  step_here :
      (n m : String) (ns : List String) (t : Assoc ℤ String)
      → ((k : String) → In k (m ∷ ns) → input_code k ≡ input_code n → k ≡ n)
      → In n (m ∷ ns) ⊎ (find (pos (input_code n)) t ≡ some n)
      → IsFreeFor n (find (pos (input_code n)) t)
      → (In n ns ⊎ (find (pos (input_code n)) (emplace (pos (input_code m)) m t) ≡ some n))
        × IsFreeFor n (find (pos (input_code n)) (emplace (pos (input_code m)) m t))
  step_here n m ns t distinct i free =
      ground
        (arith, find-emplace (pos (input_code n)) (pos (input_code m)) m t, distinct m (inl refl))

  find-invert :
      (n : String) (ns : List String) (t : Assoc ℤ String)
      → ((m : String) → In m ns → input_code m ≡ input_code n → m ≡ n)
      → In n ns ⊎ (find (pos (input_code n)) t ≡ some n)
      → IsFreeFor n (find (pos (input_code n)) t)
      → find (pos (input_code n)) (invert (entries input_code ns) t) ≡ some n
  unfolding invert
  find-invert n [] t distinct i free = ground arith
  find-invert n (m ∷ ns) t distinct i free =
      let (i', free') = step_here n m ns t distinct i free in
      find-invert n ns (emplace (pos (input_code m)) m t) (λ k j. distinct k (inr j)) i' free'

  find-code_table :
      (n : String)
      → ((m : String) → In m key_names → input_code m ≡ input_code n → m ≡ n)
      → In n key_names
      → find (pos (input_code n)) (code_table input_code) ≡ some n
  unfolding code_table name_table find
  find-code_table n distinct h = find-invert n key_names [] distinct (inl h) (inl refl)

  -- With distinct constants, the code of a name of the table translates back to that name.
  pub code_to_name-name_to_code :
      ((m k : String) → In m key_names → In k key_names → input_code m ≡ input_code k → m ≡ k)
      → (n : String) → In n key_names
      → code_to_name input_code (name_to_code input_code n) ≡ n
  unfolding code_to_name
  code_to_name-name_to_code distinct n h =
      rw (name_to_code_known n h, code_to_name, find-code_table n (λ m i. distinct m n i h) h)

  not_found-invert :
      (c : ℤ) (ns : List String) (t : Assoc ℤ String)
      → ((m : String) → In m ns → pos (input_code m) ≢ c)
      → find c t ≡ none
      → find c (invert (entries input_code ns) t) ≡ none
  unfolding invert
  not_found-invert c [] t other free = free
  not_found-invert c (m ∷ ns) t other free =
      not_found-invert c ns (emplace (pos (input_code m)) m t) (λ k j. other k (inr j))
        (ground (arith, find-emplace c (pos (input_code m)) m t, other m (inl refl)))

  not_found-code_table :
      (c : ℤ)
      → ((m : String) → In m key_names → pos (input_code m) ≢ c)
      → find c (code_table input_code) ≡ none
  unfolding code_table name_table find
  not_found-code_table c other = not_found-invert c key_names [] other refl

  -- A code that no constant of the table has is written as KEY_UNKNOWN with its number.
  pub code_to_name_unknown :
      (c : ℤ)
      → ((m : String) → In m key_names → pos (input_code m) ≢ c)
      → code_to_name input_code c ≡ unknown_key c
  unfolding code_to_name
  code_to_name_unknown c other = rw (code_to_name, not_found-code_table c other)
