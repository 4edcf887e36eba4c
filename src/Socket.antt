-- ===== src/Socket.antt =====
-- send_str in src/control.cpp, send_all in src/pfctl.cpp and sendAll in
-- frontend/services/ControlClient.cc: the loop that writes a string to a descriptor.
use pointer_force.Prelude.{
  ℕ, zero, suc, ◌≡◌, refl, ap, ◌∙◌, Bool, true, false, Option, none, some, List, [], ◌∷◌, ◌++◌,
  append_assoc, string_eq,
}
use pointer_force.Json.{Bytes}

abbrev pub cons_first : ℕ → Bytes × Bytes → Bytes × Bytes
cons_first b (front, back) = (b ∷ front, back)

-- The first `n` bytes, and the bytes after them.
unfoldable pub split : ℕ → Bytes → Bytes × Bytes
split zero s = ([], s)
split (suc n) [] = ([], [])
split (suc n) (b ∷ s) = cons_first b (split n s)

-- `writes` are the answers of ::write, the number of bytes that it took, or none for an error or
-- for nothing taken. The result, and the bytes that the descriptor took.
unfoldable pub send_all : List (Option ℕ) → Bytes → Bool × Bytes
send_all writes [] = (true, [])
send_all [] (b ∷ s) = (false, [])
send_all (none ∷ writes) (b ∷ s) = (false, [])
send_all (some n ∷ writes) (b ∷ s) =
    let (now, left) = split n (b ∷ s) in
    let (done, later) = send_all writes left in (done, now ++ later)

split-append : (n : ℕ) (s : Bytes) → (split n s).0 ++ (split n s).1 ≡ s
unfolding split
split-append zero s = refl
split-append (suc n) [] = refl
split-append (suc n) (b ∷ s) = ap (λ t. b ∷ t) (split-append n s)

-- Whatever part of the bytes each write takes, what the descriptor took is the front of the
-- string, in order and without a gap, and all of it if the loop reports success.
pub send_all-sends :
    (writes : List (Option ℕ)) (s : Bytes)
    → (back : Bytes) × ((send_all writes s).1 ++ back ≡ s)
      × ((send_all writes s).0 ≡ true → back ≡ [])
unfolding send_all
send_all-sends writes [] = ([], refl, λ h. refl)
send_all-sends [] (b ∷ s) = (b ∷ s, refl, λ h. cc)
send_all-sends (none ∷ writes) (b ∷ s) = (b ∷ s, refl, λ h. cc)
send_all-sends (some n ∷ writes) (b ∷ s) =
    let (now, left) = split n (b ∷ s) in
    let (back, whole, done) = send_all-sends writes left in
    (
      back,
      append_assoc now (send_all writes left).1 back
          ∙ ap (λ t. now ++ t) whole
          ∙ split-append n (b ∷ s),
      done,
    )
