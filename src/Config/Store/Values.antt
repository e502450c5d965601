-- ===== src/Config/Store/Values.antt =====
-- Values are read back as they were written.
use mathlib.Core.List.{append-nil}
use native.Mathlib.Nat.{pow-suc}
use libappupdater.CLib.{
  c_string, stricmp_eq, stricmp_eq_refl, print_int, print_unsigned, digits_onto, digits_from,
  skip_space,
}
use libappupdater.CLib.Decimal.{
  StartsNumber, StartsNumber-print_unsigned, digits_from-print_unsigned,
}
use libappupdater.Config.Store.{
  ConfigStore, longest_value, Storable, in_range, extract_digits, extract_signed, extract_int,
  time_max, read_int, read_bool, read_string, write_int, write_bool,
}
use libappupdater.Prelude.{
  ℕ, zero, suc, ◌+◌, ◌/◌, ◌%◌, ◌^◌, ◌≤◌, ◌<◌, inl, inr, ltb, Bool-cases, Bytes, Bool, true, false,
  [], ◌∷◌, ◌++◌, ◌≡◌, refl, ap, ◌∙◌, arith, if◌then◌else◌, is_empty, codes, length,
}
use libappupdater.Prelude.Int.{ℤ, pos, negsuc}

-- A value in the range of the type that it is read as.
abbrev pub FitsMax : ℕ → ℤ → Type 0
FitsMax max (pos n) = n ≤ max
FitsMax max (negsuc n) = n ≤ max

FitsMax-mono : (max : ℕ) (i : ℤ) → FitsMax max i → max ≤ time_max → FitsMax time_max i
FitsMax-mono max (pos n) h le = omega arith
FitsMax-mono max (negsuc n) h le = omega arith

extract_digits_start :
    (max : ℕ) (minus : Bool) (s : Bytes)
    → StartsNumber s
    → extract_digits max minus s ≡ in_range max minus (digits_from 0 s).0
extract_digits_start max minus [] h = absurd h
extract_digits_start max minus (c ∷ s) h = unfold extract_digits in rw h

extract_int_start :
    (max : ℕ) (s : Bytes) → StartsNumber s → extract_int max s ≡ extract_digits max false s
unfolding extract_signed skip_space
extract_int_start max [] h = absurd h
extract_int_start max (c ∷ s) h = ground arith

extract_digits-print_unsigned :
    (max : ℕ) (minus : Bool) (n : ℕ)
    → extract_digits max minus (print_unsigned n) ≡ in_range max minus n
extract_digits-print_unsigned max minus n = rw (← append-nil (print_unsigned n)) (
    extract_digits_start max minus (print_unsigned n ++ []) (StartsNumber-print_unsigned n [])
    ∙ ap (λ (r : ℕ × Bytes). in_range max minus r.0) (digits_from-print_unsigned n [] tt))

extract_int-minus : (max : ℕ) (s : Bytes) → extract_int max (b'-' ∷ s) ≡ extract_digits max true s
unfolding extract_signed skip_space
extract_int-minus max s = refl

-- What is printed for a number in range is read back, and the stream is good.
pub extract_int-print_int :
    (max : ℕ) (i : ℤ) → FitsMax max i → extract_int max (print_int i) ≡ (i, true)
unfolding print_int
extract_int-print_int max (pos n) h =
    extract_int_start max (print_unsigned n)
      (rw (append-nil (print_unsigned n)) at (StartsNumber-print_unsigned n []))
    ∙ extract_digits-print_unsigned max false n
    ∙ ground arith
extract_int-print_int max (negsuc n) h =
    extract_int-minus max (print_unsigned (n + 1))
    ∙ extract_digits-print_unsigned max true (n + 1)
    ∙ ground arith

length-digits_onto :
    (k f n : ℕ) (s : Bytes) → n < 10 ^ suc k → length (digits_onto f n s) ≤ suc k + length s
unfolding digits_onto
length-digits_onto k zero n s h = omega arith
length-digits_onto zero (suc f) n s h =
    let small : ltb n 10 ≡ true = ground arith in rw small (omega arith)
length-digits_onto (suc k) (suc f) n s h = elim (Bool-cases (ltb n 10)) [
  | inl small ↦ rw small (omega arith)
  | inr big ↦
      let less : n / 10 < 10 ^ suc k = omega (arith, pow-suc 10 (suc k)) in
      rw big (omega (arith, length-digits_onto k f (n / 10) ((n % 10 + b'0') ∷ s) less))
]

length-print_int : (i : ℤ) → FitsMax time_max i → length (print_int i) ≤ longest_value
unfolding print_int print_unsigned
length-print_int (pos n) h = omega (arith, length-digits_onto 19 (n + 1) n [] (omega arith))
length-print_int (negsuc n) h =
    omega (arith, length-digits_onto 19 (n + 1 + 1) (n + 1) [] (omega arith))

c_string-digits_onto :
    (f n : ℕ) (s : Bytes) → c_string s ≡ s → c_string (digits_onto f n s) ≡ digits_onto f n s
unfolding digits_onto
c_string-digits_onto zero n s h = h
c_string-digits_onto (suc f) n s h =
    go (c_string-digits_onto f (n / 10) ((n % 10 + b'0') ∷ s) (digit (n % 10))) (ltb n 10)
  where
    digit : (d : ℕ) → c_string ((d + b'0') ∷ s) ≡ (d + b'0') ∷ s
    digit d = ground (arith, h)

    go :
        c_string (digits_onto f (n / 10) ((n % 10 + b'0') ∷ s))
          ≡ digits_onto f (n / 10) ((n % 10 + b'0') ∷ s)
        → (b : Bool)
        → c_string (if b then (n + b'0') ∷ s else digits_onto f (n / 10) ((n % 10 + b'0') ∷ s))
          ≡ (if b then (n + b'0') ∷ s else digits_onto f (n / 10) ((n % 10 + b'0') ∷ s))
    go ih true = digit n
    go ih false = ih

c_string-print_int : (i : ℤ) → c_string (print_int i) ≡ print_int i
unfolding print_int print_unsigned
c_string-print_int (pos n) = c_string-digits_onto (n + 1) n [] refl
c_string-print_int (negsuc n) =
    ap (λ s. b'-' ∷ s) (c_string-digits_onto (n + 1 + 1) (n + 1) [] refl)

-- A printed time is stored as it is.
pub Storable-print_int : (i : ℤ) → FitsMax time_max i → Storable (print_int i)
Storable-print_int i h = (length-print_int i h, c_string-print_int i)

StartsNumber-nonempty : (s : Bytes) → StartsNumber s → is_empty s ≡ false
StartsNumber-nonempty [] h = absurd h
StartsNumber-nonempty (c ∷ s) h = refl

print_int-nonempty : (i : ℤ) → is_empty (print_int i) ≡ false
unfolding print_int
print_int-nonempty (pos n) =
    StartsNumber-nonempty (print_unsigned n)
      (rw (append-nil (print_unsigned n)) at (StartsNumber-print_unsigned n []))
print_int-nonempty (negsuc n) = refl

module _ (c : ConfigStore) where
  open c use {State, read, write, read_write}

  -- A number that fits its type, which is a `time_t` or shorter, is read back from the setting that
  -- it was written to.
  pub read_int-write_int :
      (max : ℕ) (s : State) (name : Bytes) (i : ℤ)
      → FitsMax max i
      → max ≤ time_max
      → read_int c max (write_int c s name i) name ≡ (i, true)
  unfolding read_int write_int
  read_int-write_int max s name i h le =
      let short = Storable-print_int i (FitsMax-mono max i h le) in
      let same = stricmp_eq_refl name in
      rw (read_write s name name (print_int i) short, same, print_int-nonempty i)
        (extract_int-print_int max i h)

  pub read_bool-write_bool :
      (s : State) (name : Bytes) (b : Bool) → read_bool c (write_bool c s name b) name ≡ (b, true)
  unfolding read_bool write_bool digits_from
  read_bool-write_bool s name true =
      let same = stricmp_eq_refl name in
      rw (read_write s name name (codes "1") (omega arith, refl), same) refl
  read_bool-write_bool s name false =
      let same = stricmp_eq_refl name in
      rw (read_write s name name (codes "0") (omega arith, refl), same) refl

  -- A write of another name.
  module _ (s : State) (name other value : Bytes) (differ : stricmp_eq name other ≡ false)
      (short : Storable value) where
    pub read-write_ne : read (write s name value) other ≡ read s other
    read-write_ne = rw (read_write s name other value short, differ) refl

    pub read_int-write_ne :
        (max : ℕ) → read_int c max (write s name value) other ≡ read_int c max s other
    unfolding read_int
    read_int-write_ne max = rw read-write_ne refl

    pub read_bool-write_ne : read_bool c (write s name value) other ≡ read_bool c s other
    unfolding read_bool
    read_bool-write_ne = rw read-write_ne refl

    pub read_string-write_ne : read_string c (write s name value) other ≡ read_string c s other
    unfolding read_string
    read_string-write_ne = rw read-write_ne refl
