-- ===== src/Util/Hex/Injective.antt =====
-- A hexadecimal text determines the bytes that it was made of.
use libappupdater.Prelude.{
  ℕ, ◌+◌, ◌-◌, ◌*◌, ◌/◌, ◌%◌, ◌<◌, Bytes, [], ◌∷◌, ◌≡◌, refl, ap, ap₂, sym, ◌∙◌, true, All, arith,
  leb, ◌==◌, ==_iff, length, if◌then◌else◌,
}
use libappupdater.Util.Hex.{digits, to_string}
use libappupdater.Util.Tables.{byte_at, passes_under, passes_under_each, IsByte}

digit_value : ℕ → ℕ
digit_value x = if leb x b'9' then x - b'0' else x - 87

digit_value_table : passes_under (λ n. digit_value (byte_at digits n) == n) 16 ≡ true
unfolding passes_under digit_value
digit_value_table = refl

digit_value-digits : (n : ℕ) → n < 16 → digit_value (byte_at digits n) ≡ n
digit_value-digits n h =
    (==_iff _ n).0
      (passes_under_each (λ n. digit_value (byte_at digits n) == n) 16 digit_value_table n h)

from_text : Bytes → Bytes
from_text (x ∷ y ∷ s) = (digit_value x * 16 + digit_value y) ∷ from_text s
from_text _ = []

from_text-to_string : (s : Bytes) → All IsByte s → from_text (to_string s) ≡ s
unfolding from_text to_string
from_text-to_string [] h = refl
from_text-to_string (c ∷ s) (b, h) =
    ap₂ (◌∷◌)
      (omega (
        arith,
        digit_value-digits (c / 16) (omega arith),
        digit_value-digits (c % 16) (omega arith),
      ))
      (from_text-to_string s h)

-- Bytes with the same text are the same.
to_string-injective :
    (s t : Bytes) → All IsByte s → All IsByte t → to_string s ≡ to_string t → s ≡ t
to_string-injective s t h k e =
    sym (from_text-to_string s h) ∙ ap from_text e ∙ from_text-to_string t k

-- The text has two digits for each byte.
pub length-to_string : (s : Bytes) → length (to_string s) ≡ 2 * length s
unfolding to_string
length-to_string [] = refl
length-to_string (c ∷ s) = omega (arith, length-to_string s)
