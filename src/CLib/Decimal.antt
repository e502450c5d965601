-- ===== src/CLib/Decimal.antt =====
-- Printing a number in decimal and reading it back.
use mathlib.Core.List.{append-nil}
use libappupdater.CLib.{
  long_max, number_at, digits_from, strtol, atoi, digits_onto, print_unsigned, print_int, signed,
}
use libappupdater.Prelude.{
  ℕ, zero, suc, ◌+◌, ◌*◌, ◌/◌, ◌%◌, ◌≤◌, ◌<◌, Bytes, Bool, true, false, [], ◌∷◌, ◌++◌, ◌≡◌, refl,
  ap, ◌∙◌, inl, inr, ltb, ltb→lt, ◌-◌, Bool-cases, arith, is_digit,
}
use libappupdater.Prelude.Int.{ℤ, pos, negsuc}

digits_from-digit :
    (m d : ℕ) (s : Bytes) → d < 10 → digits_from m ((d + b'0') ∷ s) ≡ digits_from (m * 10 + d) s
unfolding digits_from
digits_from-digit m d s h =
    let e : d + b'0' - b'0' ≡ d = omega arith in
    let t : is_digit (d + b'0') ≡ true = ground arith in rw t (rw e)

digits_from-digits_onto :
    (f n : ℕ) (s : Bytes) → n < f → digits_from 0 (digits_onto f n s) ≡ digits_from n s
unfolding digits_onto
digits_from-digits_onto zero n s h = absurd (omega arith)
digits_from-digits_onto (suc f) n s h = elim (Bool-cases (ltb n 10)) [
  | inl small ↦
      rw small
        (digits_from-digit 0 n s (ltb→lt n 10 small) ∙ ap (λ k. digits_from k s) (omega arith))
  | inr big ↦ rw big (
      digits_from-digits_onto f (n / 10) ((n % 10 + b'0') ∷ s) (ground arith)
      ∙ digits_from-digit (n / 10) (n % 10) s (omega arith)
      ∙ ap (λ k. digits_from k s) (omega arith))
]

-- The first byte that is printed is a digit.
abbrev pub StartsNumber : Bytes → Type 0
StartsNumber [] = ⊥
StartsNumber (c ∷ s) = is_digit c ≡ true

digits_onto-StartsNumber : (f n : ℕ) (s : Bytes) → n < f → StartsNumber (digits_onto f n s)
unfolding digits_onto
digits_onto-StartsNumber zero n s h = absurd (omega arith)
digits_onto-StartsNumber (suc f) n s h = elim (Bool-cases (ltb n 10)) [
  | inl small ↦ rw small (ground arith)
  | inr big ↦ rw big (digits_onto-StartsNumber f (n / 10) ((n % 10 + b'0') ∷ s) (ground arith))
]

digits_onto-append : (f n : ℕ) (s t : Bytes) → digits_onto f n s ++ t ≡ digits_onto f n (s ++ t)
unfolding digits_onto
digits_onto-append zero n s t = refl
digits_onto-append (suc f) n s t = elim (Bool-cases (ltb n 10)) [
  | inl small ↦ rw small
  | inr big ↦ rw big (digits_onto-append f (n / 10) ((n % 10 + b'0') ∷ s) t)
]

-- A value that a 32-bit `int` holds.
abbrev pub FitsInt : ℤ → Type 0
FitsInt (pos n) = n ≤ long_max
FitsInt (negsuc n) = n ≤ long_max

number_at_start :
    (whole : Bytes) (minus : Bool) (s : Bytes)
    → StartsNumber s
    → number_at whole minus s ≡ (signed minus (digits_from 0 s).0, (digits_from 0 s).1)
number_at_start whole minus [] h = absurd h
number_at_start whole minus (c ∷ s) h = unfold number_at in rw h

strtol_start : (s : Bytes) → StartsNumber s → strtol s ≡ number_at s false s
strtol_start [] h = absurd h
strtol_start (c ∷ s) h = unfold strtol in ground arith

-- No digit at the front.
abbrev pub StartsText : Bytes → Type 0
StartsText [] = Unit {0}
StartsText (c ∷ s) = is_digit c ≡ false

digits_from-StartsText : (n : ℕ) (s : Bytes) → StartsText s → digits_from n s ≡ (n, s)
unfolding digits_from
digits_from-StartsText n [] t = refl
digits_from-StartsText n (c ∷ s) t = rw t

number_at-print_unsigned :
    (whole : Bytes) (minus : Bool) (n : ℕ) (s : Bytes)
    → StartsText s
    → number_at whole minus (print_unsigned n ++ s) ≡ (signed minus n, s)
unfolding print_unsigned
number_at-print_unsigned whole minus n s t = rw (digits_onto-append (n + 1) n [] s) (
    number_at_start whole minus _ (digits_onto-StartsNumber (n + 1) n s (omega arith))
    ∙ ap (λ (p : ℕ × Bytes). (signed minus p.0, p.1))
        (digits_from-digits_onto (n + 1) n s (omega arith) ∙ digits_from-StartsText n s t))

pub StartsNumber-print_unsigned : (n : ℕ) (s : Bytes) → StartsNumber (print_unsigned n ++ s)
unfolding print_unsigned
StartsNumber-print_unsigned n s =
    rw (digits_onto-append (n + 1) n [] s) (digits_onto-StartsNumber (n + 1) n s (omega arith))

-- `strtol` reads back what `%d` printed, whatever text that starts with no digit follows it.
pub strtol-print_int :
    (i : ℤ) (s : Bytes) → FitsInt i → StartsText s → strtol (print_int i ++ s) ≡ (i, s)
unfolding print_int
strtol-print_int (pos n) s h t =
    strtol_start (print_unsigned n ++ s) (StartsNumber-print_unsigned n s)
    ∙ number_at-print_unsigned (print_unsigned n ++ s) false n s t
    ∙ ap (λ (i : ℤ). (i, s)) (ground arith)
strtol-print_int (negsuc n) s h t =
    unfold strtol in
    (number_at-print_unsigned (b'-' ∷ (print_unsigned (n + 1) ++ s)) true (n + 1) s t
      ∙ ap (λ (i : ℤ). (i, s)) (ground arith))

-- `atoi` reads back every `int` that `%d` prints.
pub atoi-print_int : (i : ℤ) → FitsInt i → atoi (print_int i) ≡ i
unfolding atoi
atoi-print_int i h =
    rw (← append-nil (print_int i)) (ap (λ (p : ℤ × Bytes). p.0) (strtol-print_int i [] h tt))

pub digits_from-print_unsigned :
    (n : ℕ) (s : Bytes) → StartsText s → digits_from 0 (print_unsigned n ++ s) ≡ (n, s)
unfolding print_unsigned
digits_from-print_unsigned n s t =
    rw (digits_onto-append (n + 1) n [] s)
      (digits_from-digits_onto (n + 1) n s (omega arith) ∙ digits_from-StartsText n s t)
