-- ===== src/Device/Sysfs.antt =====
-- The text handling of src/device.cpp and src/devicemanager.cpp around sysfs: the node of an event
-- path, lower case, and trimming.
use Prim.Native.Char.{Char, code}
use Prim.Native.String.{String, [], ◌∷◌}
use pointer_force.Prelude.{Bool, true, false, ◌||◌, if◌then◌else◌, nat_beq, is_empty, ◌≡◌, refl}

after_slash : String → String → String
after_slash [] best = best
after_slash (c ∷ rest) best = after_slash rest (if nat_beq (code c) b'/' then rest else best)

-- What follows the last '/', or the whole path.
unfoldable pub node_of : String → String
unfolding after_slash
node_of path = after_slash path path

lower_of : Char → String → String → Char
lower_of c [] ls = c
lower_of c (u ∷ us) [] = c
lower_of c (u ∷ us) (l ∷ ls) = if nat_beq (code u) (code c) then l else lower_of c us ls

-- std::tolower of each byte, in the C locale.
unfoldable pub to_lower : String → String
unfolding lower_of
to_lower [] = []
to_lower (c ∷ s) = lower_of c "ABCDEFGHIJKLMNOPQRSTUVWXYZ" "abcdefghijklmnopqrstuvwxyz" ∷ to_lower s

is_trimmed : Char → Bool
is_trimmed c =
    nat_beq (code c) 10 || nat_beq (code c) 13 || nat_beq (code c) 32 || nat_beq (code c) 9

drop_if : Bool → Char → String → String
drop_if true c rest = if is_empty rest then [] else c ∷ rest
drop_if false c rest = c ∷ rest

-- The text without the blanks at its end.
unfoldable pub trim_end : String → String
unfolding is_trimmed drop_if
trim_end [] = []
trim_end (c ∷ s) = let rest = trim_end s in drop_if (is_trimmed c) c rest

node_of_event : node_of "/dev/input/event7" ≡ "event7"
unfolding node_of
node_of_event = refl

lower_of_id : to_lower "046D:c08B" ≡ "046d:c08b"
unfolding to_lower
lower_of_id = refl

trim_of_line : trim_end "  BT5.1 Mouse \t" ≡ "  BT5.1 Mouse"
unfolding trim_end
trim_of_line = refl
