-- ===== src/CLib.antt =====
-- The C library's `strtol` and `atoi`, as the Windows builds of the program have them: `long` has
-- 32 bits, and a value out of its range saturates.
pub mod Decimal
pub mod Scanned
use mathlib.Core.Option
use libappupdater.Prelude.{
  ℕ, zero, suc, ◌^◌, Option, none, some, ◌+◌, ◌-◌, ◌*◌, ◌/◌, ◌%◌, min, ltb, Bytes, Bool, true,
  false, [], ◌∷◌, leb, ◌==◌, is_digit, is_space, ◌&&◌, ◌||◌, if◌then◌else◌, ◌≡◌, refl, arith,
  length,
}
use libappupdater.Prelude.Int.{ℤ, pos, negsuc}

abbrev pub long_max : ℕ
long_max = 2147483647

abbrev pub saturate : ℕ → ℕ
saturate n = if leb n long_max then n else long_max

-- The value of the digits at the front, after those that gave `n`, and what follows them.
unfoldable pub digits_from : ℕ → Bytes → ℕ × Bytes
digits_from n [] = (n, [])
digits_from n (c ∷ s) =
    let more = digits_from (n * 10 + (c - b'0')) s in if is_digit c then more else (n, c ∷ s)

unfoldable pub skip_space : Bytes → Bytes
skip_space [] = []
skip_space (c ∷ s) = if is_space c then skip_space s else c ∷ s

abbrev pub signed : Bool → ℕ → ℤ
signed false n = pos (saturate n)
signed true n = if n == 0 then pos 0 else negsuc (if leb n (long_max + 1) then n - 1 else long_max)

-- `whole` is the text that `strtol` was given: `*endptr` if there is no number.
unfoldable pub number_at : Bytes → Bool → Bytes → ℤ × Bytes
unfolding digits_from
number_at whole minus [] = (pos 0, whole)
number_at whole minus (c ∷ s) =
    let (n, rest) = digits_from 0 (c ∷ s) in
    if is_digit c then (signed minus n, rest) else (pos 0, whole)

unfoldable pub after_sign : Bytes → Bytes → ℤ × Bytes
unfolding number_at
after_sign whole [] = (pos 0, whole)
after_sign whole (c ∷ s) =
    if c == b'-'
    then number_at whole true s
    else if c == b'+'
    then number_at whole false s
    else number_at whole false (c ∷ s)

-- `strtol(s, &end, 10)`: the value, and the text at `end`.
unfoldable pub strtol : Bytes → ℤ × Bytes
unfolding after_sign skip_space
strtol s = after_sign s (skip_space s)

unfoldable pub atoi : Bytes → ℤ
unfolding strtol
atoi s = (strtol s).0

-- The decimal digits of `n` before `s`; `n + 1` is enough fuel.
unfoldable pub digits_onto : ℕ → ℕ → Bytes → Bytes
digits_onto zero n s = s
digits_onto (suc f) n s =
    let more = digits_onto f (n / 10) ((n % 10 + b'0') ∷ s) in
    if ltb n 10 then (n + b'0') ∷ s else more

-- `%u` and `%lu`
unfoldable pub print_unsigned : ℕ → Bytes
unfolding digits_onto
print_unsigned n = digits_onto (n + 1) n []

-- `%d`
unfoldable pub print_int : ℤ → Bytes
unfolding print_unsigned
print_int (pos n) = print_unsigned n
print_int (negsuc n) = b'-' ∷ print_unsigned (n + 1)

-- The text of a C string: what stands before its NUL.
abbrev pub c_string : Bytes → Bytes
c_string [] = []
c_string (c ∷ s) = if c == 0 then [] else c ∷ c_string s

-- What `sprintf_s` writes to a buffer of some size; none if the text and its NUL do not fit, where
-- the C library ends the program.
unfoldable pub sprintf_s : ℕ → Bytes → Option Bytes
sprintf_s size text = if ltb (length text) size then some text else none

pub sprintf_s_text : (size : ℕ) (text line : Bytes) → sprintf_s size text ≡ some line → line ≡ text
unfolding sprintf_s
sprintf_s_text size text line h = ground (arith, h)

-- `tolower` in the C locale.
abbrev pub tolower : ℕ → ℕ
tolower c = if leb b'A' c && leb c b'Z' then c + 32 else c

-- `_stricmp(a, b) == 0`
unfoldable pub stricmp_eq : Bytes → Bytes → Bool
stricmp_eq [] [] = true
stricmp_eq (x ∷ xs) (y ∷ ys) = tolower x == tolower y && stricmp_eq xs ys
stricmp_eq _ _ = false

pub stricmp_eq_refl : (s : Bytes) → stricmp_eq s s ≡ true
unfolding stricmp_eq
stricmp_eq_refl [] = refl
stricmp_eq_refl (x ∷ s) = ground (arith, stricmp_eq_refl s)

-- The digits at the front, if there is one.
abbrev pub scan_digits : Bytes → Option (ℕ × Bytes)
scan_digits [] = none
scan_digits (c ∷ s) = if is_digit c then some (digits_from 0 (c ∷ s)) else none

-- `%u` of `sscanf`: a number with an optional sign, to 32 bits, and what follows it.
unfoldable pub scan_unsigned : Bytes → Option (ℕ × Bytes)
unfolding skip_space digits_from
scan_unsigned s = elim (skip_space s) [
  | [] ↦ none
  | c ∷ t ↦
      if c == b'-'
      then Option.map (λ (r : ℕ × Bytes). ((2 ^ 32 - r.0 % 2 ^ 32) % 2 ^ 32, r.1)) (scan_digits t)
      else if c == b'+'
      then Option.map (λ (r : ℕ × Bytes). (r.0 % 2 ^ 32, r.1)) (scan_digits t)
      else Option.map (λ (r : ℕ × Bytes). (r.0 % 2 ^ 32, r.1)) (scan_digits (c ∷ t))
]

-- `sscanf(s, "%u.%u", &a, &b)`: the two numbers, if both are there.
abbrev pub after_dot : ℕ → Bytes → Option (ℕ × ℕ)
after_dot a [] = none
after_dot a (c ∷ s) =
    if c == b'.' then Option.map (λ (r : ℕ × Bytes). (a, r.0)) (scan_unsigned s) else none

unfoldable pub scan_pair : Bytes → Option (ℕ × ℕ)
unfolding scan_unsigned
scan_pair s = elim (scan_unsigned s) [ none ↦ none | some (a, rest) ↦ after_dot a rest ]

-- What a letter or digit counts for in bases above 10, and 36 for other characters.
abbrev pub digit_value : ℕ → ℕ
digit_value c =
    if is_digit c
    then c - b'0'
    else if leb b'a' c && leb c b'z'
    then c - b'a' + 10
    else if leb b'A' c && leb c b'Z'
    then c - b'A' + 10
    else 36

-- The value of the digits of a base at the front, after those that gave `n`.
unfoldable pub value_in : ℕ → ℕ → Bytes → ℕ
value_in base n [] = n
value_in base n (c ∷ s) =
    let more = value_in base (n * base + digit_value c) s in
    if ltb (digit_value c) base then more else n

-- A number of any base, told by its prefix: `0x`, `0` or none.
abbrev pub after_zero : Bytes → ℕ
after_zero [] = 0
after_zero (c ∷ s) = if c == b'x' || c == b'X' then value_in 16 0 s else value_in 8 0 (c ∷ s)

abbrev pub value_auto : Bytes → ℕ
value_auto [] = 0
value_auto (c ∷ s) = if c == b'0' then after_zero s else value_in 10 0 (c ∷ s)

abbrev signed_auto : Bytes → ℤ
signed_auto [] = pos 0
signed_auto (c ∷ s) =
    if c == b'-'
    then signed true (value_auto s)
    else if c == b'+'
    then signed false (value_auto s)
    else signed false (value_auto (c ∷ s))

-- `strtol(s, NULL, 0)`
unfoldable pub strtol_auto : Bytes → ℤ
unfolding skip_space
strtol_auto s = signed_auto (skip_space s)

abbrev unsigned_auto : Bytes → ℕ
unsigned_auto [] = 0
unsigned_auto (c ∷ s) =
    if c == b'-'
    then (2 ^ 32 - min (value_auto s) (2 ^ 32 - 1)) % 2 ^ 32
    else min (value_auto (if c == b'+' then s else c ∷ s)) (2 ^ 32 - 1)

-- `strtoul(s, NULL, 0)`
unfoldable pub strtoul_auto : Bytes → ℕ
unfolding skip_space
strtoul_auto s = unsigned_auto (skip_space s)

-- A number as an unsigned one of 32 bits.
abbrev pub to_unsigned : ℤ → ℕ
to_unsigned (pos n) = n % 2 ^ 32
to_unsigned (negsuc n) = (2 ^ 32 - (n + 1) % 2 ^ 32) % 2 ^ 32
