-- ===== src/Keys/Named.antt =====
-- The codes that a name of the table has, and the name that is written for one.
use pointer_force.Prelude.{
  ℕ, String, ◌≡◌, refl, subst, ◌⊎◌, inl, inr, false, Option, none, some, List, [], ◌∷◌, arith,
  eq_iff, ◌==◌, Bool-cases, Option-cases, In, ℤ, pos, is_negative, int_beq, int_beq_iff, string_eq,
  int_eq, nat_eq,
}
use pointer_force.Assoc.{Assoc, find}
use pointer_force.Keys.{
  key_names, entries, name_table, emplace, invert, code_table, name_to_code, code_to_name,
}
use pointer_force.Keys.RoundTrip.{find-emplace, kept_or, name_to_code_known}

module _ (input_code : String → ℕ) where
  -- A name of the table has this code.
  abbrev pub IsNameOf : ℤ → String → Type 0
  IsNameOf c name = In name key_names × (pos (input_code name) ≡ c)

  abbrev pub IsNamed : ℤ → Type 0
  IsNamed c = (name : String) × IsNameOf c name

  found-entries :
      (n : String) (ns : List String) (c : ℤ)
      → find n (entries input_code ns) ≡ some c
      → In n ns × (pos (input_code n) ≡ c)
  unfolding find
  found-entries n [] c h = cc
  found-entries n (m ∷ ns) c h = elim (Bool-cases (m == n)) [
    | inl same ↦ ground (arith, eq_iff m n, same)
    | inr other ↦ let (i, e) = found-entries n ns c (ground (arith, other)) in (inr i, e)
  ]

  -- A code that a translation gives and that is not negative is that of a name.
  pub name_to_code-IsNamed :
      (name : String)
      → is_negative (name_to_code input_code name) ≡ false
      → IsNamed (name_to_code input_code name)
  unfolding name_to_code name_table
  name_to_code-IsNamed name h = elim (Option-cases (find name (name_table input_code))) [
    | inl e ↦ absurd (ground (arith, e))
    | inr (c, e) ↦
        let (i, p) = found-entries name key_names c e in (name, (i, ground (arith, e, p)))
  ]

  -- What is found is a name of the code.
  abbrev IsGood : ℤ → Option String → Type 0
  IsGood c none = Unit
  IsGood c (some name) = IsNameOf c name

  -- Something is found, and it is a name of the code.
  abbrev HasName : ℤ → Option String → Type 0
  HasName c o = (name : String) × (o ≡ some name) × IsNameOf c name

  kept_or-HasName :
      (c : ℤ) (o : Option String) (m : String) → IsGood c o → IsNameOf c m → HasName c (kept_or o m)
  kept_or-HasName c none m g i = (m, refl, i)
  kept_or-HasName c (some old) m g i = (old, refl, g)

  IsGood-HasName : (c : ℤ) (o : Option String) → HasName c o → IsGood c o
  IsGood-HasName c none h = tt
  IsGood-HasName c (some old) (name, e, i) = subst (IsNameOf c) (ground (arith, e)) i

  abbrev IsAmong : ℤ → List String → Type 0
  IsAmong c ns = (name : String) × In name ns × (pos (input_code name) ≡ c)

  emplaced :
      (c : ℤ) (m : String) (ns : List String) (t : Assoc ℤ String)
      → In m key_names
      → IsGood c (find c t)
      → IsAmong c (m ∷ ns) ⊎ HasName c (find c t)
      → IsGood c (find c (emplace (pos (input_code m)) m t))
        × (IsAmong c ns ⊎ HasName c (find c (emplace (pos (input_code m)) m t)))
  emplaced c m ns t i g h =
      rw (find-emplace c (pos (input_code m)) m t)
        (elim (Bool-cases (int_beq (pos (input_code m)) c)) [
          | inl same ↦
              let kept =
                kept_or-HasName c (find c t) m g (i, (int_beq_iff (pos (input_code m)) c).0 same) in
              rw same (IsGood-HasName c _ kept, inr kept)
          | inr other ↦ rw other (
            g,
            elim h [
              | inl (n, j, e) ↦ elim j [
                | inl p ↦ absurd (ground (arith, int_beq_iff (pos (input_code m)) c, p, e, other))
                | inr k ↦ inl (n, k, e)
              ]
              | inr found ↦ inr found
            ],
          )
        ])

  invert-HasName :
      (c : ℤ) (ns : List String) (t : Assoc ℤ String)
      → ((m : String) → In m ns → In m key_names)
      → IsGood c (find c t)
      → IsAmong c ns ⊎ HasName c (find c t)
      → HasName c (find c (invert (entries input_code ns) t))
  unfolding invert
  invert-HasName c [] t sub g (inl (n, i, e)) = absurd i
  invert-HasName c [] t sub g (inr h) = h
  invert-HasName c (m ∷ ns) t sub g h =
      let (g', h') = emplaced c m ns t (sub m (inl refl)) g h in
      invert-HasName c ns _ (λ k j. sub k (inr j)) g' h'

  -- The name that is written for a code that some name has translates back to the code, even if
  -- two names have it.
  pub name_to_code-code_to_name :
      (c : ℤ) → IsNamed c → name_to_code input_code (code_to_name input_code c) ≡ c
  unfolding code_to_name code_table name_table find
  name_to_code-code_to_name c (n, (i, e)) =
      let (m, found, (j, p)) = invert-HasName c key_names [] (λ k j. j) tt (inl (n, i, e)) in
      ground (arith, found, name_to_code_known input_code m j, p)
