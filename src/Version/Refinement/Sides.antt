-- ===== src/Version/Refinement/Sides.antt =====
-- `compare_numbers` and the keys of the two sides behind the inner loop.
use Prim.Native.Nat.{Ordering, lt, gt, compare}
use libappupdater.CLib.{saturate, digits_from}
use libappupdater.Prelude.{
  ℕ, ◌+◌, Bytes, not, true, List, [], ◌∷◌, none, ◌≡◌, refl, inl, inr, arith, is_digit,
  if◌then◌else◌, Bool-cases,
}
use libappupdater.Prelude.Int.{pos, eq_ℤ, lt_ℤ}
use libappupdater.Version.Keys.{keys_after, compare_keys, and_then, IsPlain}
use libappupdater.Version.{returned, continued, compare_numbers}
use libappupdater.Version.Refinement.Numbers.{number_of, strtol-number_of}
use libappupdater.Version.Refinement.Inner.{order_of_round, keys_after-nil, keys_after-digit}

-- At most one side is left, or both are at a digit.
abbrev pub Settled : Bytes → Bytes → Type 0
Settled (x ∷ a) (y ∷ b) = (is_digit x ≡ true) × (is_digit y ≡ true)
Settled _ _ = Unit {0}

pub numbers_decide :
    (n m : ℕ) (a b : Bytes)
    → order_of_round (
        if not (eq_ℤ (pos n) (pos m))
        then returned (if lt_ℤ (pos n) (pos m) then lt else gt)
        else continued a b)
      ≡ and_then (compare n m) (compare_keys (keys_after none a) (keys_after none b))
numbers_decide n m a b = ground arith

pub compare_numbers-number_of :
    (a b : Bytes)
    → IsPlain a
    → IsPlain b
    → order_of_round (compare_numbers a b)
      ≡ and_then
          (compare (saturate (number_of a).0) (saturate (number_of b).0))
          (compare_keys (keys_after none (number_of a).1) (keys_after none (number_of b).1))
unfolding compare_numbers
compare_numbers-number_of a b h k =
    rw (strtol-number_of a h, strtol-number_of b k) (numbers_decide _ _ _ _)

abbrev pub value_of : Bytes → ℕ
value_of s = saturate (digits_from 0 s).0

abbrev pub keys_behind : Bytes → List ℕ
keys_behind s = keys_after none (digits_from 0 s).1

pub compare_suc :
    (n m : ℕ) (o : Ordering) → and_then (compare n m) o ≡ and_then (compare (n + 1) (m + 1)) o
compare_suc n m o = ground arith

-- What `compare_numbers` looks at, in terms of keys.
pub Settled-keys :
    (a b : Bytes)
    → Settled a b
    → and_then
        (compare (saturate (number_of a).0) (saturate (number_of b).0))
        (compare_keys (keys_after none (number_of a).1) (keys_after none (number_of b).1))
      ≡ compare_keys (keys_after none a) (keys_after none b)
unfolding compare_keys
Settled-keys [] [] t = refl
Settled-keys [] (y ∷ b) t = elim (Bool-cases (is_digit y)) [
  | inl d ↦
      rw (keys_after-nil, keys_after-digit y b d, d)
        (compare_suc 0 (value_of (y ∷ b)) (compare_keys [] (keys_behind (y ∷ b))))
  | inr u ↦ rw u
]
Settled-keys (x ∷ a) [] t = elim (Bool-cases (is_digit x)) [
  | inl d ↦
      rw (keys_after-nil, keys_after-digit x a d, d)
        (compare_suc (value_of (x ∷ a)) 0 (compare_keys (keys_behind (x ∷ a)) []))
  | inr u ↦ rw u
]
Settled-keys (x ∷ a) (y ∷ b) (d, e) =
    rw (keys_after-digit x a d, keys_after-digit y b e, d, e)
      (compare_suc (value_of (x ∷ a)) (value_of (y ∷ b))
        (compare_keys (keys_behind (x ∷ a)) (keys_behind (y ∷ b))))
