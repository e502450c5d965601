-- ===== src/Version/Keys.antt =====
-- An independent description of the order of `CompareComponent`: a component is a sequence of
-- numbers, its keys, and the order is lexicographic with a padding of ones. This is the order of the
-- code, in which the bytes of texts count as they are, but for the tilde; the comments of
-- src/AutoVersion.h describe another.
use Prim.Native.Nat.{Ordering, lt, eq, gt, compare}
use libappupdater.CLib.{saturate}
use libappupdater.Prelude.{
  ℕ, ◌+◌, ◌-◌, ◌*◌, ◌<◌, Bytes, false, List, [], ◌∷◌, Option, none, some, ◌≡◌, ◌==◌, is_digit,
  is_space, All, if◌then◌else◌,
}
use libappupdater.Version.{schar}

-- A tilde is below the end of a text, which is 1; 2 is a number at the very start.
abbrev pub rank : ℕ → ℕ
rank c = if c == b'~' then 0 else 3 + schar c

-- The keys after a text (`none`), or after digits of the value `n`.
unfoldable pub keys_after : Option ℕ → Bytes → List ℕ
keys_after none [] = []
keys_after none (c ∷ s) =
    let in_number = 1 ∷ keys_after (some (c - b'0')) s in
    let in_text = rank c ∷ keys_after none s in if is_digit c then in_number else in_text
keys_after (some n) [] = (saturate n + 1) ∷ []
keys_after (some n) (c ∷ s) =
    let in_number = keys_after (some (n * 10 + (c - b'0'))) s in
    let in_text = (saturate n + 1) ∷ rank c ∷ keys_after none s in
    if is_digit c then in_number else in_text

unfoldable pub keys : Bytes → List ℕ
unfolding keys_after
keys [] = []
keys (c ∷ s) = if is_digit c then 2 ∷ keys_after (some (c - b'0')) s else rank c ∷ keys_after none s

abbrev pub and_then : Ordering → Ordering → Ordering
and_then lt o = lt
and_then eq o = o
and_then gt o = gt

unfoldable pub compare_keys : List ℕ → List ℕ → Ordering
compare_keys [] [] = eq
compare_keys [] (y ∷ ys) = and_then (compare 1 y) (compare_keys [] ys)
compare_keys (x ∷ xs) [] = and_then (compare x 1) (compare_keys xs [])
compare_keys (x ∷ xs) (y ∷ ys) = and_then (compare x y) (compare_keys xs ys)

-- Bytes that `strtol` does not skip or take for a sign.
pub record IsPlainByte (c : ℕ) : Type 0 where
  pub in_range : c < 256
  pub no_space : is_space c ≡ false
  pub no_minus : (c == b'-') ≡ false
  pub no_plus : (c == b'+') ≡ false

abbrev pub IsPlain : Bytes → Type 0
IsPlain = All IsPlainByte
