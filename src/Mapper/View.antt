-- ===== src/Mapper/View.antt =====
-- What a table says of a device and a key, with no wildcard.
use pointer_force.Prelude.{
  String, ◌≡◌, Option, none, some, arith, if◌then◌else◌, ◌==◌, ℤ, string_eq, int_eq, nat_eq,
}
use pointer_force.Assoc.{Assoc, find, assign, find-assign}
use pointer_force.Mapper.{Table, sub_table, lookup_in, lookup}

unfoldable pub view : Table → String → ℤ → Option String
view t device_id keycode = lookup_in (find device_id t) keycode

pub view-assign :
    (d d' : String) (c : ℤ) (sub : Assoc ℤ String) (t : Table)
    → view (assign d sub t) d' c ≡ (if d == d' then find c sub else view t d' c)
unfolding view lookup_in
view-assign d d' c sub t = ground (arith, find-assign d d' sub t)

pub view-sub_table : (d : String) (c : ℤ) (t : Table) → find c (sub_table d t) ≡ view t d c
unfolding view lookup_in sub_table find
view-sub_table d c t = ground arith

-- The first command of two, if any.
abbrev pub or_else {ℓ} : {A : Type ℓ} → Option A → Option A → Option A
or_else none o = o
or_else (some a) o = some a

-- `lookup` is the view of the exact device, or else the view of the wildcard.
pub lookup-eq-view :
    (t : Table) (d : String) (c : ℤ) → lookup t d c ≡ or_else (view t d c) (view t "*" c)
unfolding lookup view
lookup-eq-view t d c = ground arith
