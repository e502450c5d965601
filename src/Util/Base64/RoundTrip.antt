-- ===== src/Util/Base64/RoundTrip.antt =====
-- Decoding gives back what was encoded, in buffers of the sizes that the class computes.
use Prim.Native.Nat.{bit_or}
use libappupdater.Prelude.{
  ℕ, suc, ◌+◌, ◌-◌, ◌*◌, ◌/◌, ◌%◌, ◌^◌, ◌<◌, ◌≤◌, Bytes, [], ◌∷◌, ◌≡◌, refl, ap, ap₂, sym, ◌∙◌,
  Bool, true, false, ◌&&◌, not, All, arith, ◌==◌, ==_iff, length, if◌then◌else◌, some, ltb,
}
use libappupdater.Util.Base64.{
  encode_char, decode_char, encode_text, encode, encode_dstlength, decode_padded, decode_quad,
  decode_loop, decode_dstlength, decode,
}
use libappupdater.Util.Tables.{byte_at, passes_under, passes_under_each, IsByte}

char_table :
    passes_under (λ n. decode_char (encode_char n) == n && not (encode_char n == b'=')) 64 ≡ true
unfolding passes_under encode_char decode_char
char_table = refl

char_facts :
    (n : ℕ) → n < 64 → (decode_char (encode_char n) ≡ n) × ((encode_char n == b'=') ≡ false)
char_facts n h = go (decode_char (encode_char n)) (encode_char n == b'=') (
    passes_under_each (λ n. decode_char (encode_char n) == n && not (encode_char n == b'=')) 64
      char_table n h)
  where
    go : (m : ℕ) (b : Bool) → (m == n && not b) ≡ true → (m ≡ n) × (b ≡ false)
    go m b e = ground arith

or_table : passes_under (λ n. bit_or (n / 16 * 16) (n % 16) == n) 64 ≡ true
unfolding passes_under
or_table = refl

bit_or_disjoint : (n : ℕ) → n < 64 → bit_or (n / 16 * 16) (n % 16) ≡ n
bit_or_disjoint n h =
    (==_iff _ n).0 (passes_under_each (λ n. bit_or (n / 16 * 16) (n % 16) == n) 64 or_table n h)

-- The second value of a group of two bytes.
pub bit_or-add : (a b : ℕ) → b < 256 → bit_or (a % 4 * 16) (b / 16) ≡ a % 4 * 16 + b / 16
bit_or-add a b h =
    let n = a % 4 * 16 + b / 16 in
    let hi : n / 16 * 16 ≡ a % 4 * 16 = omega arith in
    let lo : n % 16 ≡ b / 16 = omega arith in
    ap₂ bit_or (sym hi) (sym lo) ∙ bit_or_disjoint n (omega arith)

decode_quad-chars :
    (p q r s : ℕ) (rest : Bytes)
    → p < 64
    → q < 64
    → r < 64
    → s < 64
    → decode_quad (encode_char p ∷ encode_char q ∷ encode_char r ∷ encode_char s ∷ rest)
      ≡ ((p * 2 ^ 18 + q * 2 ^ 12 + r * 2 ^ 6 + s) % 2 ^ 32, rest)
unfolding decode_quad decode_padded
decode_quad-chars p q r s rest hp hq hr hs =
    let (dp, _) = char_facts p hp in
    let (dq, _) = char_facts q hq in
    let (dr, er) = char_facts r hr in let (ds, es) = char_facts s hs in rw (er, es, dp, dq, dr, ds)

decode_quad-one_pad :
    (p q r : ℕ)
    → p < 64
    → q < 64
    → r < 64
    → (decode_quad (encode_char p ∷ encode_char q ∷ encode_char r ∷ b'=' ∷ [])).0
      ≡ (p * 2 ^ 18 + q * 2 ^ 12 + r * 2 ^ 6 + 0) % 2 ^ 32
unfolding decode_quad decode_padded
decode_quad-one_pad p q r hp hq hr =
    let (dp, _) = char_facts p hp in
    let (dq, _) = char_facts q hq in let (dr, er) = char_facts r hr in rw (er, dp, dq, dr)

decode_quad-two_pads :
    (p q : ℕ)
    → p < 64
    → q < 64
    → (decode_quad (encode_char p ∷ encode_char q ∷ b'=' ∷ b'=' ∷ [])).0
      ≡ (p * 2 ^ 18 + q * 2 ^ 12 + 0 * 2 ^ 6 + 0) % 2 ^ 32
unfolding decode_quad decode_padded
decode_quad-two_pads p q hp hq =
    let (dp, _) = char_facts p hp in let (dq, _) = char_facts q hq in rw (dp, dq)

cons-congr : {x y : ℕ} {s t : Bytes} → x ≡ y → s ≡ t → x ∷ s ≡ y ∷ t
cons-congr e f = ap₂ (◌∷◌) e f

decode_loop-encode_text : (s : Bytes) → All IsByte s → decode_loop (length s) (encode_text s) ≡ s
unfolding decode_loop encode_text
decode_loop-encode_text [] h = refl
decode_loop-encode_text (a ∷ []) (ha, _) =
    rw (decode_quad-two_pads (a / 4) (a % 4 * 16) (omega arith) (omega arith))
      (cons-congr (omega arith) refl)
decode_loop-encode_text (a ∷ b ∷ []) (ha, (hb, _)) = rw (bit_or-add a b hb) (
    rw
      (decode_quad-one_pad (a / 4) (a % 4 * 16 + b / 16) (b % 16 * 4) (omega arith) (omega arith)
        (omega arith))
      (cons-congr (omega arith) (cons-congr (omega arith) refl)))
decode_loop-encode_text (a ∷ b ∷ c ∷ s) (ha, (hb, (hc, hs))) =
    let t = a * 2 ^ 16 + b * 2 ^ 8 + c in
    let quad =
      decode_quad-chars (t / 2 ^ 18 % 64) (t / 2 ^ 12 % 64) (t / 2 ^ 6 % 64) (t % 64)
        (encode_text s) (omega arith) (omega arith) (omega arith) (omega arith) in
    rw (ap (λ (r : ℕ × Bytes). r.0) quad, ap (λ (r : ℕ × Bytes). r.1) quad)
      (cons-congr (omega arith)
        (cons-congr (omega arith) (cons-congr (omega arith) (decode_loop-encode_text s hs))))

-- Four characters for three bytes or what is left of them.
pub length-encode_text : (s : Bytes) → length (encode_text s) ≡ (length s + 2) / 3 * 4
unfolding encode_text
length-encode_text [] = refl
length-encode_text (a ∷ []) = refl
length-encode_text (a ∷ b ∷ []) = refl
length-encode_text (a ∷ b ∷ c ∷ s) = omega (arith, length-encode_text s)

abbrev pad_at : Bytes → ℕ → ℕ
pad_at s i = if byte_at s i == b'=' then 1 else 0

-- A group in front moves the last two bytes.
pub decode_dstlength-group :
    (p q r u : ℕ) (s : Bytes)
    → 4 ≤ length s
    → decode_dstlength (p ∷ q ∷ r ∷ u ∷ s) ≡ decode_dstlength s + 3
unfolding decode_dstlength
decode_dstlength-group p q r u s h =
    let n = length s in
    let last : suc (suc (suc (suc n))) - 1 ≡ suc (suc (suc (suc (n - 1)))) = omega arith in
    let before : suc (suc (suc (suc n))) - 2 ≡ suc (suc (suc (suc (n - 2)))) = omega arith in
    rw (last, before) (go (pad_at s (n - 1)) (pad_at s (n - 2)) (ground arith) (ground arith))
  where
    go :
        (x y : ℕ)
        → x ≤ 1
        → y ≤ 1
        → suc (suc (suc (suc (length s)))) / 4 * 3 - x - y ≡ length s / 4 * 3 - x - y + 3
    go x y hx hy = omega arith

pub decode_dstlength-encode_text :
    (s : Bytes) → 0 < length s → decode_dstlength (encode_text s) ≡ length s
unfolding encode_text
decode_dstlength-encode_text [] h = absurd (omega arith)
decode_dstlength-encode_text (a ∷ []) h = unfold decode_dstlength in refl
decode_dstlength-encode_text (a ∷ b ∷ []) h =
    let (_, e) = char_facts (b % 16 * 4) (omega arith) in unfold decode_dstlength in rw e
decode_dstlength-encode_text (a ∷ b ∷ c ∷ []) h =
    let t = a * 2 ^ 16 + b * 2 ^ 8 + c in
    let (_, e) = char_facts (t / 2 ^ 6 % 64) (omega arith) in
    let (_, f) = char_facts (t % 64) (omega arith) in unfold decode_dstlength in rw (e, f)
decode_dstlength-encode_text (a ∷ b ∷ c ∷ d ∷ s) h =
    decode_dstlength-group _ _ _ _ (encode_text (d ∷ s)) (omega (arith, length-encode_text (d ∷ s)))
    ∙ omega (arith, decode_dstlength-encode_text (d ∷ s) (omega arith))

-- What `encode` writes fits in the buffer, with its NUL.
pub encode_fits :
    (s : Bytes) (room : ℕ)
    → encode_dstlength (length s) ≤ room
    → (encode s room ≡ some (encode_text s, length (encode_text s) + 1))
      × (length (encode_text s) + 1 ≤ room)
unfolding encode
encode_fits s room h = ground (arith, length-encode_text s)

-- What `encode` writes for one byte or more is decoded to these bytes, in every buffer that holds
-- them.
pub decode-encode_text :
    (s : Bytes) (room : ℕ)
    → All IsByte s
    → 0 < length s
    → length s ≤ room
    → decode (encode_text s) room ≡ some s
unfolding decode
decode-encode_text s room h ne fits =
    let whole : (length (encode_text s) % 4 == 0) ≡ true = ground (arith, length-encode_text s) in
    let long : ltb (length (encode_text s)) 4 ≡ false = ground (arith, length-encode_text s) in
    let enough : ltb room (length s) ≡ false = ground arith in
    rw (whole, long, decode_dstlength-encode_text s ne, enough)
      (ap some (decode_loop-encode_text s h))
