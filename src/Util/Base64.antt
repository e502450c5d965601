-- ===== src/Util/Base64.antt =====
-- util/Base64.h: the class `Base64`. A failed allocation of the decoding table is not modelled.
pub mod RoundTrip
use Prim.Native.Nat.{bit_or}
use libappupdater.Prelude.{
  ℕ, zero, suc, ◌+◌, ◌-◌, ◌*◌, ◌/◌, ◌%◌, ◌^◌, Bytes, [], ◌∷◌, Option, none, some, not, ltb, ◌==◌,
  codes, length, if◌then◌else◌,
}
use libappupdater.Util.Tables.{byte_at}

-- `b64encodetable`
abbrev pub encode_table : Bytes
encode_table = codes "ABCDEFGHIJKLMNOPQRSTUVWXYZabcdefghijklmnopqrstuvwxyz0123456789+/"

unfoldable pub encode_char : ℕ → ℕ
encode_char n = byte_at encode_table n

-- The loop of `b64decodetable` from index `n` on.
unfoldable pub fill_table : Bytes → ℕ → (ℕ → ℕ) → ℕ → ℕ
fill_table [] n table = table
fill_table (c ∷ cs) n table = fill_table cs (n + 1) (λ x. if x == c then n else table x)

-- `b64decodetable`: 0 for a byte that is not in the alphabet.
unfoldable pub decode_char : ℕ → ℕ
unfolding fill_table
decode_char = fill_table encode_table 0 (λ _. 0)

-- `encode_dstlength`
abbrev pub encode_dstlength : ℕ → ℕ
encode_dstlength n = n * 4 / 3 + 4 + 1

-- What `encode` writes before the NUL.
unfoldable pub encode_text : Bytes → Bytes
unfolding encode_char
encode_text (a ∷ b ∷ c ∷ rest) =
    let triple = a * 2 ^ 16 + b * 2 ^ 8 + c in
    encode_char (triple / 2 ^ 18 % 64)
    ∷ encode_char (triple / 2 ^ 12 % 64)
    ∷ encode_char (triple / 2 ^ 6 % 64)
    ∷ encode_char (triple % 64)
    ∷ encode_text rest
encode_text (a ∷ b ∷ []) =
    encode_char (a / 4)
    ∷ encode_char (bit_or (a % 4 * 16) (b / 16))
    ∷ encode_char (b % 16 * 4)
    ∷ b'='
    ∷ []
encode_text (a ∷ []) = encode_char (a / 4) ∷ encode_char (a % 4 * 16) ∷ b'=' ∷ b'=' ∷ []
encode_text [] = []

-- `encode`: the text written and the count returned, or `none` for -1.
unfoldable pub encode : Bytes → ℕ → Option (Bytes × ℕ)
unfolding encode_text
encode src dstlength =
    if ltb dstlength (encode_dstlength (length src))
    then none
    else some (encode_text src, length (encode_text src) + 1)

-- `decode_dstlength`, of a text of two bytes at least.
unfoldable pub decode_dstlength : Bytes → ℕ
decode_dstlength s =
    length s / 4 * 3
    - (if byte_at s (length s - 1) == b'=' then 1 else 0)
    - (if byte_at s (length s - 2) == b'=' then 1 else 0)

-- `*in++`
abbrev pub next : Bytes → ℕ × Bytes
next [] = (0, [])
next (c ∷ s) = (c, s)

-- `*in == '=' ? 0 : decodetable[*in++]`
unfoldable pub decode_padded : Bytes → ℕ × Bytes
unfolding decode_char
decode_padded [] = (decode_char 0, [])
decode_padded (c ∷ s) = if c == b'=' then (0, c ∷ s) else (decode_char c, s)

-- The four values of a round, as `triple`, and the input behind them.
unfoldable pub decode_quad : Bytes → ℕ × Bytes
unfolding decode_padded decode_char
decode_quad s =
    let (a, s1) = next s in
    let (b, s2) = next s1 in
    let (c, s3) = decode_padded s2 in
    let (d, s4) = decode_padded s3 in
    ((decode_char a * 2 ^ 18 + decode_char b * 2 ^ 12 + c * 2 ^ 6 + d) % 2 ^ 32, s4)

-- The loop of `decode`, with so many bytes still to write.
unfoldable pub decode_loop : ℕ → Bytes → Bytes
unfolding decode_quad
decode_loop zero s = []
decode_loop (suc zero) s = let (triple, rest) = decode_quad s in (triple / 2 ^ 16 % 256) ∷ []
decode_loop (suc (suc zero)) s =
    let (triple, rest) = decode_quad s in (triple / 2 ^ 16 % 256) ∷ (triple / 2 ^ 8 % 256) ∷ []
decode_loop (suc (suc (suc n))) s =
    let (triple, rest) = decode_quad s in
    (triple / 2 ^ 16 % 256) ∷ (triple / 2 ^ 8 % 256) ∷ (triple % 256) ∷ decode_loop n rest

-- `decode`: the bytes written, whose number it returns, or `none` for -1.
unfoldable pub decode : Bytes → ℕ → Option Bytes
unfolding decode_loop decode_dstlength
decode s dstlength =
    if not (length s % 4 == 0)
    then none
    else if ltb (length s) 4
    then some []
    else if ltb dstlength (decode_dstlength s)
    then none
    else some (decode_loop (decode_dstlength s) s)

-- `encode_to_string`
unfoldable pub encode_to_string : Bytes → Bytes
unfolding encode
encode_to_string src = elim (encode src (encode_dstlength (length src))) [
  | none ↦ []
  | some (text, count) ↦ text
]

-- `std::string::resize` of what was written, with NULs behind it.
abbrev pub resize : ℕ → Bytes → Bytes
resize zero s = []
resize (suc n) [] = 0 ∷ resize n []
resize (suc n) (c ∷ s) = c ∷ resize n s

-- `decode_to_string`: what a refused decoding leaves is the NULs.
unfoldable pub decode_to_string : Bytes → Bytes
unfolding decode decode_dstlength
decode_to_string s = if ltb (length s) 4 then [] else elim (decode s (decode_dstlength s)) [
  | none ↦ resize (decode_dstlength s) []
  | some out ↦ resize (decode_dstlength s) out
]
