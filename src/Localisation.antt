-- ===== src/Localisation.antt =====
-- localisation/NSLocalizedCollectionImpl.cpp: the collection of localised texts. The map `strings_`
-- is the list of its assignments, the newest first. Log output is left out but for the line number.
pub mod Strings
pub mod Objects
pub mod Format
pub mod Po
use libappupdater.Prelude.{
  Bytes, List, [], ◌∷◌, Option, none, some, str_eq, str_eq_iff, is_empty, if◌then◌else◌, ◌≡◌, refl,
  false,
}

abbrev pub Collection : Type 0
Collection = List (Bytes × Bytes)

-- `strings_[key] = value`
abbrev pub assign : Bytes → Bytes → Collection → Collection
assign key value c = (key, value) ∷ c

-- The assignments of some entries, in order.
abbrev pub assign_each : Collection → Collection → Collection
assign_each [] c = c
assign_each ((key, value) ∷ es) c = assign_each es (assign key value c)

-- `strings_.find`
unfoldable pub find : Bytes → Collection → Option Bytes
unfolding str_eq
find key [] = none
find key ((k, value) ∷ c) = if str_eq k key then some value else find key c

-- `lookup`: an unknown text, or an empty one, is the key itself.
unfoldable pub lookup : Collection → Bytes → Bytes
unfolding find
lookup c key = elim (find key c) [ none ↦ key | some value ↦ if is_empty value then key else value ]

pub lookup-assign :
    (key value : Bytes) (c : Collection)
    → is_empty value ≡ false
    → lookup (assign key value c) key ≡ value
unfolding lookup find
lookup-assign key value c h = rw (lookup, find, (str_eq_iff key key).1 refl, h)
