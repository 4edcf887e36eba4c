-- ===== src/Keys/Decimal.antt =====
-- std::to_string of an int.
use Prim.Native.String.{◌++◌ as str_append}
use Prim.Native.Nat.{◌/◌}
use pointer_force.Prelude.{
  ℕ, zero, suc, ◌+◌, ◌%◌, String, ltb, if◌then◌else◌, ℤ, pos, negsuc, get_elem?, List, [], ◌∷◌,
  none, some, ◌≡◌, refl,
}

abbrev numerals : List String
numerals = "0" ∷ "1" ∷ "2" ∷ "3" ∷ "4" ∷ "5" ∷ "6" ∷ "7" ∷ "8" ∷ "9" ∷ []

abbrev digit : ℕ → String
digit n = elim (get_elem? numerals n) [ none ↦ "" | some s ↦ s ]

-- A number below 10 ^ fuel is written whole.
decimal : ℕ → ℕ → String
decimal zero n = ""
decimal (suc fuel) n =
    let rest = decimal fuel (n / 10) in
    if ltb n 10 then digit n else str_append rest (digit (n % 10))

-- An int has at most ten digits.
unfoldable pub to_string : ℤ → String
unfolding decimal
to_string (pos n) = decimal 10 n
to_string (negsuc n) = str_append "-" (decimal 10 (n + 1))

to_string_runs : to_string (negsuc 2147483647) ≡ "-2147483648"
unfolding to_string
to_string_runs = refl
