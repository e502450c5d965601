-- ===== src/Localisation/Objects.antt =====
-- localisation/NSLocalizedCollectionImpl.cpp: `load_object`, of a compiled collection. A pointer
-- into the data is what follows it.
pub mod Progress
pub mod RoundTrip
use libappupdater.Localisation.{Collection, assign}
use libappupdater.Prelude.{
  ℕ, zero, suc, ◌+◌, ◌*◌, Bytes, List, [], ◌∷◌, Option, none, some, ltb, leb, codes, str_eq, length,
  take, drop, if◌then◌else◌,
}

-- A key, a value, and what follows them.
abbrev pub Entry : Type 0
Entry = Bytes × Bytes × Bytes

-- The texts behind their lengths, each with its NUL; none if the data ends before.
unfoldable pub read_texts : ℕ → ℕ → Bytes → Option Entry
read_texts length1 length2 s =
    let behind = drop (length1 + 1) s in
    if leb (length1 + length2 + 2) (length s)
    then some (take length1 s, take length2 behind, drop (length2 + 1) behind)
    else none

-- The lengths, and the texts.
abbrev pub read_lengths : Bytes → Option Entry
read_lengths (a ∷ b ∷ x ∷ y ∷ s) = read_texts (a * 256 + b) (x * 256 + y) s
read_lengths _ = none

-- One round of the loop: none where it ends.
unfoldable pub read_entry : Bytes → Option Entry
unfolding read_texts
read_entry s = if ltb 6 (length s) then read_lengths s else none

unfoldable pub object_loop : ℕ → Bytes → Collection → Collection
unfolding read_entry
object_loop zero s c = c
object_loop (suc fuel) s c = elim (read_entry s) [
  | none ↦ c
  | some (key, value, rest) ↦ object_loop fuel rest (assign key value c)
]

-- `load_object`: `strings_` after it, or none where it returns false and leaves them.
unfoldable pub load_object : Bytes → Collection → Option Collection
unfolding object_loop str_eq
load_object s c =
    if ltb 4 (length s)
    then if str_eq (take 4 s) (codes "NSMO")
      then some (object_loop (length s) (drop 4 s) c)
      else none
    else none
