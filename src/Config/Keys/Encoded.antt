-- ===== src/Config/Keys/Encoded.antt =====
-- `SetPublicKey` in src/AutoConfig.cpp with util/Base64.h: the key that a text stands for.
use libappupdater.Config.Keys.{
  KeyTable, error_decoding, throws, public_length, set_ed25519_key, set_public_key,
}
use libappupdater.Config.Keys.Table.{zeros}
use libappupdater.Prelude.{
  ℕ, zero, suc, ◌+◌, ◌%◌, ◌<◌, Bytes, [], ◌∷◌, ◌++◌, ◌≡◌, ◌≢◌, refl, ap, ap₂, ◌∙◌, Bool, false, not,
  All, arith, ◌==◌, length, if◌then◌else◌, Option, some, none, ltb,
}
use libappupdater.Util.Base64.{encode_text, decode, decode_dstlength, decode_to_string, resize}
use libappupdater.Util.Base64.RoundTrip.{
  length-encode_text, decode_dstlength-group, decode_dstlength-encode_text, decode-encode_text,
}
use libappupdater.Util.Tables.{IsByte}

resize-length : (s : Bytes) → resize (length s) s ≡ s
resize-length [] = refl
resize-length (c ∷ s) = ap (λ r. c ∷ r) (resize-length s)

resize-zeros : (n : ℕ) → resize n [] ≡ zeros n
resize-zeros zero = refl
resize-zeros (suc n) = ap (λ r. 0 ∷ r) (resize-zeros n)

if-false : {A : Type 0} → (b : Bool) (x y : A) → b ≡ false → (if b then x else y) ≡ y
if-false b x y e = rw e refl

-- The bytes of a decoding, in a text of some size.
abbrev resized : ℕ → Option Bytes → Bytes
resized n o = elim o [ none ↦ resize n [] | some out ↦ resize n out ]

decode_to_string-resized :
    (s : Bytes) (n : ℕ) (o : Option Bytes)
    → ltb (length s) 4 ≡ false
    → decode_dstlength s ≡ n
    → decode s n ≡ o
    → decode_to_string s ≡ resized n o
unfolding decode_to_string
decode_to_string-resized s n o long size e =
    if-false (ltb (length s) 4) [] (resized (decode_dstlength s) (decode s (decode_dstlength s)))
      long
    ∙ ap₂ resized size (ap (decode s) size ∙ e)

decode_to_string-encode_text :
    (s : Bytes) → All IsByte s → 0 < length s → decode_to_string (encode_text s) ≡ s
decode_to_string-encode_text s h ne =
    let long : ltb (length (encode_text s)) 4 ≡ false = ground (arith, length-encode_text s) in
    decode_to_string-resized (encode_text s) (length s) (some s) long
      (decode_dstlength-encode_text s ne) (decode-encode_text s (length s) h ne (omega arith))
    ∙ resize-length s

-- A text with one more character behind it.
abbrev pub with_char : Bytes → ℕ → Bytes
with_char s c = s ++ (c ∷ [])

length-with_char : (s : Bytes) (c : ℕ) → length (with_char s c) ≡ length s + 1
length-with_char [] c = refl
length-with_char (d ∷ s) c = omega (arith, length-with_char s c)

decode_dstlength-with_char :
    (s : Bytes) (c : ℕ)
    → length s % 3 ≡ 2
    → (c == b'=') ≡ false
    → decode_dstlength (with_char (encode_text s) c) ≡ length s
unfolding encode_text
decode_dstlength-with_char [] c h e = absurd (omega arith)
decode_dstlength-with_char (x ∷ []) c h e = absurd (omega arith)
decode_dstlength-with_char (x ∷ y ∷ []) c h e = unfold decode_dstlength in rw e refl
decode_dstlength-with_char (x ∷ y ∷ z ∷ s) c h e =
    decode_dstlength-group _ _ _ _ (with_char (encode_text s) c)
      (omega (arith, length-with_char (encode_text s) c, length-encode_text s))
    ∙ omega (arith, decode_dstlength-with_char s c (omega arith) e)

decode_to_string-with_char :
    (s : Bytes) (c : ℕ)
    → length s % 3 ≡ 2
    → (c == b'=') ≡ false
    → decode_to_string (with_char (encode_text s) c) ≡ zeros (length s)
decode_to_string-with_char s c h e =
    let count = length-with_char (encode_text s) c in
    let size = length-encode_text s in
    let long : ltb (length (with_char (encode_text s) c)) 4 ≡ false = ground (arith, count, size) in
    decode_to_string-resized (with_char (encode_text s) c) (length s) none long
      (decode_dstlength-with_char s c h e) (refused (ground (arith, count, size)))
    ∙ resize-zeros (length s)
  where
    refused :
        (length (with_char (encode_text s) c) % 4 == 0) ≡ false
        → decode (with_char (encode_text s) c) (length s) ≡ none
    refused odd = unfold decode in rw odd refl

length_test : (n : ℕ) → n ≡ public_length → not (n == public_length) ≡ false
length_test n e = ground (arith, e)

set_public_key_decoded :
    (text key : Bytes) (v : ℕ) (t : KeyTable)
    → decode_to_string text ≡ key
    → length key ≡ public_length
    → set_public_key text v t ≡ set_ed25519_key key v t
unfolding set_public_key
set_public_key_decoded text key v t e right =
    ap
      (λ k.
        if not (length k == public_length) then throws error_decoding else set_ed25519_key k v t)
      e
    ∙ if-false (not (length key == public_length)) (throws error_decoding) (set_ed25519_key key v t)
        (length_test (length key) right)

-- From the base64 text of a key of 32 bytes `SetPublicKey` sets that key. With one character more
-- behind the text, whatever it is but `=`, it sets a key of 32 zero bytes instead.
pub set_public_key-encode_text :
    (key : Bytes) (v c : ℕ) (t : KeyTable)
    → All IsByte key
    → length key ≡ public_length
    → c ≢ b'='
    → (set_public_key (encode_text key) v t ≡ set_ed25519_key key v t)
      × (set_public_key (with_char (encode_text key) c) v t
          ≡ set_ed25519_key (zeros public_length) v t)
set_public_key-encode_text key v c t bytes right other = (
  set_public_key_decoded (encode_text key) key v t
      (decode_to_string-encode_text key bytes (omega (arith, right))) right,
  set_public_key_decoded (with_char (encode_text key) c) (zeros public_length) v t
      (decode_to_string-with_char key c (omega (arith, right)) (ground (arith, other))
        ∙ ap zeros right)
      refl,
)
