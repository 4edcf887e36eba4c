-- ===== src/Control/Shaped.antt =====
-- Requests whose members have the kinds that the server reads, and the replies to them.
use pointer_force.Prelude.{
  String, ◌≡◌, refl, ap, ◌∙◌, ◌≢◌, inl, inr, Bool, true, false, List, [], ◌∷◌, map, eq_iff,
  if◌then◌else◌, ◌==◌, Bool-cases, length, All, Outcome, returns, Returns, ◌>>=◌, string_eq, int_eq,
  nat_eq,
}
use pointer_force.Json.{Json, Bytes, IsBuilding, IsTotalOnKinds}
use pointer_force.Multiplexer.{Shared}
use pointer_force.Control.{
  Turn, replied, set_members, ok_response, err_response, ok_or, text_at, append_all,
}
use pointer_force.Control.Replies.{
  set_members-Returns, ok_response-Returns, err_response-Returns, ok_or-Returns, append_all-Returns,
}

pub is_other :
    (m : Outcome String) (cmd k : String) → m ≡ returns cmd → m ≢ returns k → (cmd == k) ≡ false
is_other m cmd k e n = elim (Bool-cases (cmd == k)) [
  | inl same ↦ absurd (n (e ∙ ap returns ((eq_iff cmd k).0 same)))
  | inr other ↦ other
]

-- One reply, and the connection stays.
abbrev pub IsReplied : Turn → Type 0
IsReplied turn = (length turn.replies ≡ 1) × (turn.stays ≡ true)

abbrev pub RepliedBy : Outcome Turn → Type 0
RepliedBy m = (turn : Turn) × (m ≡ returns turn) × IsReplied turn

pub reply-with :
    (m : Outcome Bytes) (s : Shared)
    → Returns m
    → RepliedBy (do reply ← m; returns (replied s reply))
reply-with m s (reply, e) = (replied s reply, rw e refl, (refl, refl))

pub after :
    {A : Type 0} (m : Outcome A) (f : A → Outcome Turn) {a : A}
    → m ≡ returns a
    → RepliedBy (f a)
    → RepliedBy (m >>= f)
after m f e h = rw e h

pub branch :
    (b : Bool) {m n : Outcome Turn}
    → (b ≡ true → RepliedBy m)
    → (b ≡ false → RepliedBy n)
    → RepliedBy (if b then m else n)
branch true hm hn = hm refl
branch false hm hn = hn refl

module _ (J : Json) where
  open J use {Value, is_member, at, is_object, is_string}

  -- An object whose member of that name, if it has one, is a string.
  abbrev pub IsTextIfThere : Value → String → Type 0
  IsTextIfThere req k =
      is_member req k ≡ returns true → (x : Value) × (at req k ≡ returns x) × (is_string x ≡ true)

  -- An object whose members that the server reads are strings.
  pub record IsWellShaped (req : Value) : Type 0 where
    pub object : is_object req ≡ true
    pub cmd : IsTextIfThere req "cmd"
    pub device : IsTextIfThere req "device"
    pub key : IsTextIfThere req "key"
    pub command : IsTextIfThere req "command"

module _ (J : Json) (total : IsTotalOnKinds J) (building : IsBuilding J) where
  open J use {
    Value, parse, write, is_member, at, is_object, is_array, null_value, object_value, array_value,
  }

  pub err-Returns : (msg : String) → Returns (err_response J msg)
  err-Returns msg = let (v, e, _, _) = err_response-Returns J building msg in (write v, e)

  pub ok_or-total : (ok : Bool) (msg : String) → Returns (ok_or J ok msg)
  ok_or-total ok msg = let (v, e, _, _) = ok_or-Returns J building ok msg in (write v, e)

  pub members-Returns : (fields : List (String × Value)) → Returns (set_members J fields null_value)
  members-Returns fields =
      let (v, e, _, _) = set_members-Returns J building fields null_value (inr refl) in (v, e)

  pub payload-Returns :
      (fields : List (String × Value))
      → Returns (do resp ← set_members J fields null_value; ok_response J resp)
  payload-Returns fields =
      let (v, e, a, _) = set_members-Returns J building fields null_value (inr refl) in
      let (w, f, _, _) = ok_response-Returns J building v a in (write w, rw (e, f))

  pub text_at-Returns :
      (req : Value) (k : String)
      → IsTextIfThere J req k
      → is_member req k ≡ returns true
      → Returns (text_at J req k)
  unfolding text_at
  text_at-Returns req k t h =
      let (x, e, s) = t h in let (text, f) = total.as_string-Returns x s in (text, rw (e, f))

  pub rows-Returns :
      {A : Type 0} (row : A → Outcome Value) (xs : List A)
      → ((x : A) → Returns (row x))
      → All Returns (map row xs)
  rows-Returns row [] h = tt
  rows-Returns row (x ∷ xs) h = (h x, rows-Returns row xs h)

  pub array-Returns :
      (k : String) (rows : List (Outcome Value))
      → All Returns rows
      → Returns (do
        arr ← append_all J rows array_value
        resp ← set_members J ((k, arr) ∷ []) null_value
        ok_response J resp)
  array-Returns k rows r =
      let (arr, e, _, _) =
        append_all-Returns J building rows array_value r building.array_value-Empty.0 in
      let (reply, f) = payload-Returns ((k, arr) ∷ []) in (reply, rw (e, f) refl)
