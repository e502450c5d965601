-- ===== src/Config/Store.antt =====
-- src/AutoConfig.h: `ReadConfigValue` and `WriteConfigValue`, over the texts that
-- `ReadConfigValueImpl` and `WriteConfigValueImpl` read and write.
pub mod Values
use libappupdater.CLib.{c_string, stricmp_eq, print_int, digits_from, skip_space}
use libappupdater.Prelude.{
  ℕ, ◌-◌, ◌^◌, ◌≤◌, Bytes, Bool, true, false, [], ◌∷◌, ◌≡◌, leb, ◌==◌, is_digit, is_space, is_empty,
  str_eq, codes, length, if◌then◌else◌,
}
use libappupdater.Prelude.Int.{ℤ, pos, negsuc}

-- The longest text that `ReadConfigValueImpl` has room for.
abbrev pub longest_value : ℕ
longest_value = 1024

-- The texts that are stored as they are: those that fit, as C strings.
abbrev pub Storable : Bytes → Type 0
Storable value = (length value ≤ longest_value) × (c_string value ≡ value)

-- The stored settings, as the rest of the program sees them. A missing value reads as the empty
-- text; names that differ in case are the same.
pub record ConfigStore : Type 1 where
  pub State : Type 0
  pub read : State → Bytes → Bytes
  pub write : State → Bytes → Bytes → State
  pub delete_value : State → Bytes → State
  pub read_write :
      (s : State) (name other value : Bytes)
      → Storable value
      → read (write s name value) other ≡ (if stricmp_eq name other then value else read s other)

-- `istringstream >> value` for a signed integer from -(max + 1) to max: the value, and whether the
-- stream is good.
abbrev pub in_range : ℕ → Bool → ℕ → ℤ × Bool
in_range max false n = if leb n max then (pos n, true) else (pos max, false)
in_range max true n =
    if n == 0
    then (pos 0, true)
    else if leb (n - 1) max
    then (negsuc (n - 1), true)
    else (negsuc max, false)

unfoldable pub extract_digits : ℕ → Bool → Bytes → ℤ × Bool
unfolding digits_from
extract_digits max minus [] = (pos 0, false)
extract_digits max minus (c ∷ s) =
    if is_digit c then in_range max minus (digits_from 0 (c ∷ s)).0 else (pos 0, false)

unfoldable pub extract_signed : ℕ → Bytes → ℤ × Bool
unfolding extract_digits
extract_signed max [] = (pos 0, false)
extract_signed max (c ∷ s) =
    if c == b'-'
    then extract_digits max true s
    else if c == b'+'
    then extract_digits max false s
    else extract_digits max false (c ∷ s)

abbrev pub extract_int : ℕ → Bytes → ℤ × Bool
extract_int max s = extract_signed max (skip_space s)

abbrev pub int_max : ℕ
int_max = 2147483647

abbrev pub time_max : ℕ
time_max = 2 ^ 63 - 1

-- A `bool` is read as a number: 0 and 1 are good, and any other is true and fails.
abbrev pub as_bool : ℤ × Bool → Bool × Bool
as_bool (pos ℕ.zero, good) = (false, good)
as_bool (pos (ℕ.suc ℕ.zero), good) = (true, good)
as_bool (_, good) = (true, false)

-- `istringstream >> value` for a string: the word at the front.
unfoldable pub word : Bytes → Bytes
word [] = []
word (c ∷ s) = if is_space c then [] else c ∷ word s

unfoldable pub extract_word : Bytes → Bytes × Bool
unfolding word skip_space
extract_word s = let w = word (skip_space s) in (w, if is_empty w then false else true)

module _ (c : ConfigStore) where
  open c use {State, read, write}

  -- `ReadConfigValue` of an `int` or a `time_t` that is 0 before.
  unfoldable pub read_int : ℕ → State → Bytes → ℤ × Bool
  unfolding extract_signed skip_space
  read_int max s name =
      let v = read s name in if is_empty v then (pos 0, false) else extract_int max v

  -- `ReadConfigValue` of a `bool` that is false before.
  unfoldable pub read_bool : State → Bytes → Bool × Bool
  unfolding extract_signed skip_space
  read_bool s name =
      let v = read s name in if is_empty v then (false, false) else as_bool (extract_int int_max v)

  -- `ReadConfigValue` of a string that is empty before.
  unfoldable pub read_string : State → Bytes → Bytes × Bool
  unfolding extract_word
  read_string s name = let v = read s name in if is_empty v then ([], false) else extract_word v

  -- `WriteConfigValue` of an `int` or a `time_t`.
  unfoldable pub write_int : State → Bytes → ℤ → State
  unfolding print_int
  write_int s name value = write s name (print_int value)

  -- `WriteConfigValue` of a `bool`.
  unfoldable pub write_bool : State → Bytes → Bool → State
  write_bool s name value = write s name (codes (if value then "1" else "0"))

  -- `WriteConfigValue` of a text.
  abbrev pub write_string : State → Bytes → Bytes → State
  write_string s name value = write s name value
