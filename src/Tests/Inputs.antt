-- ===== src/Tests/Inputs.antt =====
-- Inputs that the tests share: settings kept in a function, and plain version texts.
use libappupdater.CLib.{stricmp_eq}
use libappupdater.Config.Store.{ConfigStore}
use libappupdater.Prelude.{
  ℕ, Bytes, Bool, true, not, ◌&&◌, [], ◌∷◌, ◌≡◌, refl, arith, ltb, ◌==◌, is_space, if◌then◌else◌,
}
use libappupdater.Version.Keys.{IsPlain, IsPlainByte}

-- The settings as a function from names to values.
abbrev pub store : ConfigStore
store = record {
  State = Bytes → Bytes;
  read = λ s name. s name;
  write = λ s name value other. if stricmp_eq name other then value else s other;
  delete_value = λ s name other. if stricmp_eq name other then [] else s other;
  read_write = λ s name other value h. refl;
}

abbrev pub no_settings : Bytes → Bytes
no_settings _ = []

abbrev is_plain_byte : ℕ → Bool
is_plain_byte c = ltb c 256 && not (is_space c) && not (c == b'-') && not (c == b'+')

abbrev pub is_plain : Bytes → Bool
is_plain [] = true
is_plain (c ∷ s) = is_plain_byte c && is_plain s

IsPlainByte_of : (c : ℕ) → is_plain_byte c ≡ true → IsPlainByte c
IsPlainByte_of c h = record {
  in_range = ground arith;
  no_space = ground arith;
  no_minus = ground arith;
  no_plus = ground arith;
}

pub IsPlain-of : (s : Bytes) → is_plain s ≡ true → IsPlain s
IsPlain-of [] h = tt
IsPlain-of (c ∷ s) h = (
  IsPlainByte_of c (and_left (is_plain_byte c) (is_plain s) h),
  IsPlain-of s (and_right (is_plain_byte c) (is_plain s) h),
)
  where
    and_left : (a b : Bool) → (a && b) ≡ true → a ≡ true
    and_left a b e = ground (arith, e)

    and_right : (a b : Bool) → (a && b) ≡ true → b ≡ true
    and_right a b e = ground (arith, e)
