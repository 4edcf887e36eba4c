-- ===== src/Control/Texts.antt =====
-- Requests are built by setting members to texts.
use pointer_force.Prelude.{
  String, ◌≡◌, ◌∙◌, ◌⊎◌, true, false, ◌==◌, returns, string_eq, int_eq, nat_eq,
}
use pointer_force.Json.{Json, IsBuilding, IsReadable}
use pointer_force.Control.{text_at}
use pointer_force.Control.Requests.{HasText}

module _ (J : Json) (building : IsBuilding J) (readable : IsReadable J) where
  open J use {Value, is_member, at, set_member, is_object, as_string, null_value, of_string}

  -- Setting a member to a text: it can be read back, and texts of the other members too.
  pub set_text :
      (v : Value) (k text : String)
      → (is_object v ≡ true) ⊎ (v ≡ null_value)
      → (v' : Value) × (set_member v k (of_string text) ≡ returns v')
        × (is_object v' ≡ true)
        × HasText J v' k text
        × ((j other : String) → (j == k) ≡ false → HasText J v j other → HasText J v' j other)
  unfolding text_at
  set_text v k text o =
      let (v', e, o', same, others) = building.set_member-Returns v k (of_string text) o in
      let (there, rest) = readable.is_member-set_member v k (of_string text) v' o e in
      (
        v',
        e,
        o',
        (there, rw same (readable.as_string-of_string text)),
        λ j other n h. (rest j n ∙ h.0, rw (others j n) h.1),
      )
