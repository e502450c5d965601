-- ===== src/Version/Refinement/Numbers.antt =====
-- The numbers in a version text, and the keys behind them.
use libappupdater.CLib.{saturate, digits_from, strtol}
use libappupdater.CLib.Decimal.{StartsText}
use libappupdater.Prelude.{
  ℕ, ◌+◌, ◌-◌, ◌*◌, ◌≤◌, Bytes, true, [], ◌∷◌, none, some, ◌≡◌, refl, inl, inr, arith, is_digit,
  length, if◌then◌else◌, Bool-cases,
}
use libappupdater.Prelude.Int.{pos}
use libappupdater.Version.Keys.{keys_after, IsPlain}

pub digits_from-StartsText : (n : ℕ) (s : Bytes) → StartsText (digits_from n s).1
unfolding digits_from
digits_from-StartsText n [] = tt
digits_from-StartsText n (c ∷ s) = ground (arith, digits_from-StartsText (n * 10 + (c - b'0')) s)

pub digits_from-IsPlain : (n : ℕ) (s : Bytes) → IsPlain s → IsPlain (digits_from n s).1
unfolding digits_from
digits_from-IsPlain n [] h = tt
digits_from-IsPlain n (c ∷ s) h = elim (Bool-cases (is_digit c)) [
  | inl d ↦ rw d (digits_from-IsPlain (n * 10 + (c - b'0')) s h.1)
  | inr t ↦ rw t h
]

pub length-digits_from : (n : ℕ) (s : Bytes) → length (digits_from n s).1 ≤ length s
unfolding digits_from
length-digits_from n [] = omega arith
length-digits_from n (c ∷ s) = ground (arith, length-digits_from (n * 10 + (c - b'0')) s)

-- The keys behind a number are its value and the keys of what follows it.
pub keys_after-digits_from :
    (n : ℕ) (s : Bytes)
    → keys_after (some n) s
      ≡ (saturate (digits_from n s).0 + 1) ∷ keys_after none (digits_from n s).1
unfolding keys_after digits_from
keys_after-digits_from n [] = refl
keys_after-digits_from n (c ∷ s) = ground (arith, keys_after-digits_from (n * 10 + (c - b'0')) s)

-- `strtol` on plain text: at a digit the number there, and nothing elsewhere.
abbrev pub number_of : Bytes → ℕ × Bytes
number_of [] = (0, [])
number_of (c ∷ s) = if is_digit c then digits_from 0 (c ∷ s) else (0, c ∷ s)

pub strtol-number_of :
    (s : Bytes) → IsPlain s → strtol s ≡ (pos (saturate (number_of s).0), (number_of s).1)
unfolding strtol digits_from
strtol-number_of [] h = refl
strtol-number_of (c ∷ s) (p, _) = ground arith

pub number_of-IsPlain : (s : Bytes) → IsPlain s → IsPlain (number_of s).1
number_of-IsPlain [] h = tt
number_of-IsPlain (c ∷ s) h = elim (Bool-cases (is_digit c)) [
  | inl d ↦ rw d (digits_from-IsPlain 0 (c ∷ s) h)
  | inr u ↦ rw u h
]

pub number_of-StartsText : (s : Bytes) → StartsText (number_of s).1
number_of-StartsText [] = tt
number_of-StartsText (c ∷ s) = elim (Bool-cases (is_digit c)) [
  | inl d ↦ rw d (digits_from-StartsText 0 (c ∷ s))
  | inr u ↦ rw u u
]

pub length-number_of : (s : Bytes) → length (number_of s).1 ≤ length s
length-number_of [] = omega arith
length-number_of (c ∷ s) = ground (arith, length-digits_from 0 (c ∷ s))

-- A number at the front is not empty.
pub length-number_of-digit :
    (c : ℕ) (s : Bytes) → is_digit c ≡ true → length (number_of (c ∷ s)).1 ≤ length s
unfolding digits_from
length-number_of-digit c s d = rw d (length-digits_from (0 * 10 + (c - b'0')) s)
