-- ===== src/CLib/Scanned.antt =====
-- What `strtol` of any base and `sscanf` read of a number that was printed in decimal.
use mathlib.Core.List.{append-nil}
use libappupdater.CLib.{
  digits_from, digits_onto, print_unsigned, value_in, strtol_auto, saturate, scan_unsigned,
  scan_pair,
}
use libappupdater.CLib.Decimal.{
  StartsNumber, StartsNumber-print_unsigned, digits_from-print_unsigned,
}
use libappupdater.Prelude.{
  ℕ, zero, suc, ◌+◌, ◌-◌, ◌*◌, ◌/◌, ◌%◌, ◌^◌, ◌≤◌, ◌<◌, Bytes, true, [], ◌∷◌, ◌++◌, some, ◌≡◌, ◌≢◌,
  refl, ap, sym, subst, ◌∙◌, inl, inr, ltb, Bool-cases, arith, is_digit, codes,
}
use libappupdater.Prelude.Int.{pos}

value_in-digits_from : (n : ℕ) (s : Bytes) → value_in 10 n s ≡ (digits_from n s).0
unfolding value_in digits_from
value_in-digits_from n [] = refl
value_in-digits_from n (c ∷ s) = ground (arith, value_in-digits_from (n * 10 + (c - b'0')) s)

-- The first byte is a digit and no zero.
abbrev StartsPositive : Bytes → Type 0
StartsPositive [] = ⊥
StartsPositive (c ∷ s) = (is_digit c ≡ true) × (c ≢ b'0')

digits_onto-StartsPositive :
    (f n : ℕ) (s : Bytes) → n < f → 0 < n → StartsPositive (digits_onto f n s)
unfolding digits_onto
digits_onto-StartsPositive zero n s h p = absurd (omega arith)
digits_onto-StartsPositive (suc f) n s h p = elim (Bool-cases (ltb n 10)) [
  | inl small ↦ rw small (ground arith, ground arith)
  | inr big ↦
      rw big
        (digits_onto-StartsPositive f (n / 10) ((n % 10 + b'0') ∷ s) (ground arith) (ground arith))
]

strtol_auto_start :
    (s : Bytes) → StartsPositive s → strtol_auto s ≡ pos (saturate (digits_from 0 s).0)
strtol_auto_start [] h = absurd h
strtol_auto_start (c ∷ s) h = unfold strtol_auto in ground (arith, value_in-digits_from 0 (c ∷ s))

read_back : (n : ℕ) → digits_from 0 (print_unsigned n) ≡ (n, [])
read_back n =
    ap (digits_from 0) (sym (append-nil (print_unsigned n))) ∙ digits_from-print_unsigned n [] tt

-- `strtol` with base 0 reads back a positive number.
pub strtol_auto-print_unsigned :
    (n : ℕ) → 0 < n → n ≤ 2147483647 → strtol_auto (print_unsigned n) ≡ pos n
strtol_auto-print_unsigned n p h =
    strtol_auto_start (print_unsigned n)
      (unfold print_unsigned in digits_onto-StartsPositive (n + 1) n [] (omega arith) p)
    ∙ ap (λ k. pos (saturate k)) (ap (λ (r : ℕ × Bytes). r.0) (read_back n))
    ∙ ap pos (ground arith)

scan_unsigned_start :
    (s : Bytes)
    → StartsNumber s
    → scan_unsigned s ≡ some ((digits_from 0 s).0 % 2 ^ 32, (digits_from 0 s).1)
scan_unsigned_start [] h = absurd h
scan_unsigned_start (c ∷ s) h = unfold scan_unsigned in ground arith

scan_unsigned-print_unsigned :
    (n : ℕ) → n < 2 ^ 32 → scan_unsigned (print_unsigned n) ≡ some (n, [])
scan_unsigned-print_unsigned n h =
    scan_unsigned_start (print_unsigned n)
      (subst StartsNumber (append-nil (print_unsigned n)) (StartsNumber-print_unsigned n []))
    ∙ ap (λ (r : ℕ × Bytes). some (r.0 % 2 ^ 32, r.1)) (read_back n)
    ∙ ap (λ (k : ℕ). some (k, [])) (omega arith)

-- `sscanf` with `%u.%u` reads back the version of an ed25519 key.
pub scan_pair-print_unsigned :
    (n : ℕ) → n < 2 ^ 32 → scan_pair (codes "1." ++ print_unsigned n) ≡ some (1, n)
unfolding scan_pair digits_from
scan_pair-print_unsigned n h = rw (scan_unsigned-print_unsigned n h)
