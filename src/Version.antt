-- ===== src/Version.antt =====
-- src/AutoVersion.cpp and src/AutoVersion.h: the class `AutoVersion`. The results -1, 0 and 1 of
-- the comparisons are `lt`, `eq` and `gt`. A text is the bytes before its terminator.
pub mod Keys
pub mod Order
mod Refinement
pub mod Laws
pub mod RoundTrip
use Prim.Native.Nat.{Ordering, lt, eq, gt}
use libappupdater.CLib.{strtol, atoi, print_int}
use libappupdater.Prelude.{
  ℕ, suc, ◌+◌, ◌%◌, Bytes, Bool, true, false, not, ◌&&◌, ◌||◌, [], ◌∷◌, ◌++◌, Option, none, some,
  ltb, ◌==◌, is_digit, str_eq, codes, length, if◌then◌else◌,
}
use libappupdater.Prelude.Int.{ℤ, pos, eq_ℤ, lt_ℤ}

pub record AutoVersion : Type 0 where
  pub epoch : ℤ
  pub upstream : Bytes
  pub revision : Bytes

-- `strchr(s, c)`: what follows the first `c`.
unfoldable pub after_first : ℕ → Bytes → Option Bytes
after_first c [] = none
after_first c (x ∷ s) = if x == c then some s else after_first c s

-- `strrchr(s, c)`: what precedes and what follows the last `c`.
unfoldable pub split_last : ℕ → Bytes → Option (Bytes × Bytes)
split_last c [] = none
split_last c (x ∷ s) = elim (split_last c s) [
  | some (u, r) ↦ some (x ∷ u, r)
  | none ↦ if x == c then some ([], s) else none
]

split_upstream : ℤ → Bytes → AutoVersion
unfolding split_last
split_upstream e s = elim (split_last b'-' s) [
  | none ↦ record { epoch = e; upstream = s; revision = codes "0" }
  | some (u, r) ↦ record { epoch = e; upstream = u; revision = r }
]

-- `AutoVersion(const char *)`
unfoldable pub new_version : Bytes → AutoVersion
unfolding after_first split_upstream atoi
new_version version = elim (after_first b':' version) [
  | none ↦ split_upstream (pos 0) version
  | some rest ↦ split_upstream (atoi version) rest
]

-- A `char` is signed: its order, from 0.
abbrev pub schar : ℕ → ℕ
schar c = (c + 128) % 256

abbrev pub first_difference : ℕ → ℕ → Ordering
first_difference x y =
    if x == b'~' then lt else if y == b'~' then gt else if ltb (schar x) (schar y) then lt else gt

pub data Texts : Type 0 where
  differ : Ordering → Texts
  reached : Bytes → Bytes → Texts

-- The inner `while`: over equal characters that are no digits.
unfoldable pub compare_texts : Bytes → Bytes → Texts
compare_texts [] b = reached [] b
compare_texts (x ∷ a) [] = reached (x ∷ a) []
compare_texts (x ∷ a) (y ∷ b) =
    if not (is_digit x) && not (is_digit y)
    then (if x == y then compare_texts a b else differ (first_difference x y))
    else reached (x ∷ a) (y ∷ b)

pub data Round : Type 0 where
  returned : Ordering → Round
  continued : Bytes → Bytes → Round

unfoldable pub compare_numbers : Bytes → Bytes → Round
unfolding strtol
compare_numbers a b =
    let (num_a, next_a) = strtol a in
    let (num_b, next_b) = strtol b in
    if not (eq_ℤ num_a num_b)
    then returned (if lt_ℤ num_a num_b then lt else gt)
    else continued next_a next_b

-- Behind the inner `while`.
unfoldable pub after_texts : Bytes → Bytes → Round
unfolding compare_numbers
after_texts [] b = compare_numbers [] b
after_texts (x ∷ a) [] = compare_numbers (x ∷ a) []
after_texts (x ∷ a) (y ∷ b) =
    if not (is_digit x) || not (is_digit y)
    then returned
        (if x == b'~' then lt else if y == b'~' then gt else if is_digit x then lt else gt)
    else compare_numbers (x ∷ a) (y ∷ b)

unfoldable pub end_round : Texts → Round
unfolding after_texts
end_round (differ o) = returned o
end_round (reached a b) = after_texts a b

-- The body of the outer `while`.
unfoldable pub round : Bytes → Bytes → Round
unfolding compare_texts end_round
round a b = end_round (compare_texts a b)

-- Behind the outer `while`.
unfoldable pub after_loop : Bytes → Bytes → Ordering
after_loop [] [] = eq
after_loop (x ∷ a) b = if x == b'~' then lt else gt
after_loop [] (y ∷ b) = if y == b'~' then gt else lt

-- The outer `while`. Each round but the last shortens `a`, so its length is enough fuel.
unfoldable pub compare_loop : ℕ → Bytes → Bytes → Ordering
unfolding round after_loop
compare_loop (suc f) (x ∷ a) (y ∷ b) = elim (round (x ∷ a) (y ∷ b)) [
  | returned o ↦ o
  | continued a' b' ↦ compare_loop f a' b'
]
compare_loop _ a b = after_loop a b

-- `CompareComponent`
unfoldable pub compare_component : Bytes → Bytes → Ordering
unfolding compare_loop
compare_component a b = compare_loop (length a) a b

abbrev pub is_zero : Ordering → Bool
is_zero eq = true
is_zero _ = false

-- `cmp`
unfoldable pub cmp : AutoVersion → AutoVersion → Ordering
unfolding compare_component
cmp v w =
    let result = compare_component v.upstream w.upstream in
    if not (eq_ℤ v.epoch w.epoch)
    then (if lt_ℤ v.epoch w.epoch then lt else gt)
    else if is_zero result
    then compare_component v.revision w.revision
    else result

-- `operator<<`
unfoldable pub to_text : AutoVersion → Bytes
unfolding print_int
to_text v =
    (if not (eq_ℤ v.epoch (pos 0)) then print_int v.epoch ++ codes ":" else [])
    ++ (v.upstream ++ (if not (str_eq v.revision (codes "0")) then b'-' ∷ v.revision else []))

-- `operator<`
unfoldable pub is_less : AutoVersion → AutoVersion → Bool
unfolding cmp
is_less v w = elim (cmp v w) [ lt ↦ true | _ ↦ false ]

-- `operator==`
unfoldable pub is_equal : AutoVersion → AutoVersion → Bool
unfolding str_eq
is_equal v w = eq_ℤ v.epoch w.epoch && str_eq v.upstream w.upstream && str_eq v.revision w.revision

-- `Compare`
unfoldable pub compare : Bytes → Bytes → Ordering
unfolding cmp new_version
compare v1 v2 = cmp (new_version v1) (new_version v2)
