-- ===== src/Sign/Plain.antt =====
-- sign/signmanifest.cpp: texts that stand in XML for themselves; the tool escapes nothing.
use Prim.Native.Nat.{bit_or}
use libappupdater.CLib.{digits_onto, print_unsigned}
use libappupdater.Manifest.Parser.{strip_prefix}
use libappupdater.Prelude.{
  ℕ, zero, suc, ◌+◌, ◌*◌, ◌/◌, ◌%◌, ◌^◌, ◌<◌, Bytes, Bool, true, false, not, ◌&&◌, [], ◌∷◌, ◌++◌,
  Option, none, some, ◌≡◌, refl, subst, All, arith, ltb, leb, ◌==◌, Bool-cases, inl, inr, length,
  if◌then◌else◌,
}
use libappupdater.Sign.{split_at, replace_string, snprintf}
use libappupdater.Util.Base64.{encode_char, encode_text}
use libappupdater.Util.Base64.RoundTrip.{bit_or-add}
use libappupdater.Util.Hex.{digits, to_string}
use libappupdater.Util.Tables.{byte_at, passes_under, passes_under_each, IsByte}

-- A printable ASCII character that is no mark of XML in a text or an attribute.
abbrev pub is_plain : ℕ → Bool
is_plain c =
    leb b' ' c
    && ltb c 127
    && not (c == b'"')
    && not (c == b'&')
    && not (c == b'<')
    && not (c == b'>')

abbrev pub IsPlain : Bytes → Type 0
IsPlain s = All (λ c. is_plain c ≡ true) s

-- A test of a given text.
unfoldable pub all_plain : Bytes → Bool
all_plain [] = true
all_plain (c ∷ s) = is_plain c && all_plain s

pub all_plain-IsPlain : (s : Bytes) → all_plain s ≡ true → IsPlain s
unfolding all_plain
all_plain-IsPlain [] h = tt
all_plain-IsPlain (c ∷ s) h = ground (arith, h, all_plain-IsPlain s)

pub IsPlain-append : (s t : Bytes) → IsPlain s → IsPlain t → IsPlain (s ++ t)
IsPlain-append [] t h k = k
IsPlain-append (c ∷ s) t h k = (h.0, IsPlain-append s t (h.1) k)

IsPlain-digits_onto : (f n : ℕ) (s : Bytes) → IsPlain s → IsPlain (digits_onto f n s)
unfolding digits_onto
IsPlain-digits_onto zero n s h = h
IsPlain-digits_onto (suc f) n s h = elim (Bool-cases (ltb n 10)) [
  | inl small ↦ rw small (ground arith, h)
  | inr big ↦ rw big (IsPlain-digits_onto f (n / 10) ((n % 10 + b'0') ∷ s) (ground arith, h))
]

pub IsPlain-print_unsigned : (n : ℕ) → IsPlain (print_unsigned n)
unfolding print_unsigned
IsPlain-print_unsigned n = IsPlain-digits_onto (n + 1) n [] tt

digits_table : passes_under (λ n. is_plain (byte_at digits n)) 16 ≡ true
unfolding passes_under
digits_table = refl

digits-IsPlain : (n : ℕ) → n < 16 → is_plain (byte_at digits n) ≡ true
digits-IsPlain n h = passes_under_each (λ n. is_plain (byte_at digits n)) 16 digits_table n h

pub IsPlain-to_string : (s : Bytes) → All IsByte s → IsPlain (to_string s)
unfolding to_string
IsPlain-to_string [] h = tt
IsPlain-to_string (c ∷ s) (b, h) = (
  digits-IsPlain (c / 16) (omega arith),
  (digits-IsPlain (c % 16) (omega arith), IsPlain-to_string s h),
)

encode_table : passes_under (λ n. is_plain (encode_char n)) 64 ≡ true
unfolding passes_under encode_char
encode_table = refl

encode_char-IsPlain : (n : ℕ) → n < 64 → is_plain (encode_char n) ≡ true
encode_char-IsPlain n h = passes_under_each (λ n. is_plain (encode_char n)) 64 encode_table n h

pub IsPlain-encode_text : (s : Bytes) → All IsByte s → IsPlain (encode_text s)
unfolding encode_text
IsPlain-encode_text [] h = tt
IsPlain-encode_text (a ∷ []) (ha, _) = (
  encode_char-IsPlain (a / 4) (omega arith),
  (encode_char-IsPlain (a % 4 * 16) (omega arith), (refl, (refl, tt))),
)
IsPlain-encode_text (a ∷ b ∷ []) (ha, (hb, _)) = (
  encode_char-IsPlain (a / 4) (omega arith),
  (
    encode_char-IsPlain (bit_or (a % 4 * 16) (b / 16)) (rw (bit_or-add a b hb) (omega arith)),
    (encode_char-IsPlain (b % 16 * 4) (omega arith), (refl, tt)),
  ),
)
IsPlain-encode_text (a ∷ b ∷ c ∷ s) (ha, (hb, (hc, hs))) =
    let t = a * 2 ^ 16 + b * 2 ^ 8 + c in
    (
      encode_char-IsPlain (t / 2 ^ 18 % 64) (omega arith),
      (
        encode_char-IsPlain (t / 2 ^ 12 % 64) (omega arith),
        (
          encode_char-IsPlain (t / 2 ^ 6 % 64) (omega arith),
          (encode_char-IsPlain (t % 64) (omega arith), IsPlain-encode_text s hs),
        ),
      ),
    )

IsPlain-strip_prefix :
    (p s : Bytes) {rest : Bytes} → strip_prefix p s ≡ some rest → IsPlain s → IsPlain rest
unfolding strip_prefix
IsPlain-strip_prefix [] s e h = subst IsPlain (ground (arith, e)) h
IsPlain-strip_prefix (p ∷ ps) [] e h = absurd (ground (arith, e))
IsPlain-strip_prefix (p ∷ ps) (c ∷ s) e h = elim (Bool-cases (p == c)) [
  | inl same ↦ IsPlain-strip_prefix ps s (rw same at e) (h.1)
  | inr other ↦ absurd (ground (arith, e, other))
]

-- The parts of a text around another one.
abbrev ArePlain : Option (Bytes × Bytes) → Type 0
ArePlain none = Unit {0}
ArePlain (some (before, after)) = IsPlain before × IsPlain after

found :
    (orig : Bytes) (s : Bytes) (rest : Option (Bytes × Bytes))
    → IsPlain s
    → ArePlain rest
    → ArePlain (elim (strip_prefix orig s) [ none ↦ rest | some after ↦ some ([], after) ])
found orig s rest h k = go (strip_prefix orig s) refl
  where
    go :
        (o : Option Bytes)
        → strip_prefix orig s ≡ o
        → ArePlain (elim o [ none ↦ rest | some after ↦ some ([], after) ])
    go none e = k
    go (some after) e = (tt, IsPlain-strip_prefix orig s e h)

ArePlain-cons :
    (c : ℕ) (o : Option (Bytes × Bytes))
    → is_plain c ≡ true
    → ArePlain o
    → ArePlain (elim o [ none ↦ none | some (before, after) ↦ some (c ∷ before, after) ])
ArePlain-cons c none h k = tt
ArePlain-cons c (some (before, after)) h k = ((h, k.0), k.1)

ArePlain-split_at : (orig s : Bytes) → IsPlain s → ArePlain (split_at orig s)
unfolding split_at
ArePlain-split_at orig [] h = found orig [] none h tt
ArePlain-split_at orig (c ∷ s) h =
    found orig (c ∷ s)
      (elim (split_at orig s) [ none ↦ none | some (before, after) ↦ some (c ∷ before, after) ]) h
      (ArePlain-cons c (split_at orig s) (h.0) (ArePlain-split_at orig s (h.1)))

-- The address with the name of the file in it.
pub IsPlain-replace_string :
    (str orig rep : Bytes) (buflen : ℕ) {r : Bytes}
    → replace_string str orig rep buflen ≡ some r
    → IsPlain str
    → IsPlain rep
    → IsPlain r
unfolding replace_string
IsPlain-replace_string str orig rep buflen {r} e h k =
    go (split_at orig str) (ArePlain-split_at orig str h) e
  where
    fitted : (b : Bool) (s : Bytes) → (if b then some s else none) ≡ some r → IsPlain s → IsPlain r
    fitted true s q p = subst IsPlain (ground (arith, q)) p
    fitted false s q p = absurd (ground (arith, q))

    go :
        (o : Option (Bytes × Bytes))
        → ArePlain o
        → (elim o [
          | none ↦ snprintf buflen str
          | some (before, after) ↦
              if leb buflen (length before) then none else snprintf buflen (before ++ rep ++ after)
        ])
          ≡ some r
        → IsPlain r
    go none p q = fitted (ltb (length str) buflen) str q h
    go (some (before, after)) p q = elim (Bool-cases (leb buflen (length before))) [
      | inl long ↦ absurd (ground (arith, q, long))
      | inr short ↦
          fitted (ltb (length (before ++ rep ++ after)) buflen) (before ++ rep ++ after)
            (rw short at q)
            (IsPlain-append (before ++ rep) after (IsPlain-append before rep (p.0) k) (p.1))
    ]
