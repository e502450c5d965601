-- ===== src/Localisation/Strings.antt =====
-- localisation/NSLocalizedCollectionImpl.cpp: `load_strings` of a text, with `get_str`, `get_hex`
-- and `get_dem`. A pointer into the text is what follows it; what lies behind the text reads as a
-- NUL, as in a `std::string`. `utf8` is `WideCharToMultiByte` of one character.
pub mod Progress
pub mod RoundTrip
use libappupdater.CLib.{digit_value}
use libappupdater.Localisation.{Collection, assign}
use libappupdater.Prelude.{
  ℕ, zero, suc, ◌+◌, ◌*◌, ◌-◌, ◌%◌, ◌^◌, Bytes, Bool, true, false, not, ◌&&◌, ◌||◌, [], ◌∷◌, ◌++◌,
  Option, none, some, ltb, leb, ◌==◌, is_empty, length, if◌then◌else◌,
}

-- The blanks between the parts of an entry.
abbrev pub is_gap : ℕ → Bool
is_gap c = c == b' ' || c == 9

unfoldable pub skip_gap : Bytes → Bytes
skip_gap [] = []
skip_gap (c ∷ s) = if is_gap c then skip_gap s else c ∷ s

-- `get_dem`: what follows the delimiter.
unfoldable pub get_dem : ℕ → Bytes → Option Bytes
unfolding skip_gap
get_dem tok s = elim (skip_gap s) [ [] ↦ none | c ∷ rest ↦ if c == tok then some rest else none ]

-- The loop of `get_hex`, with the digits so far and their value; a limit of 0 is none.
unfoldable pub read_hex : ℕ → ℕ → ℕ → Bytes → Option (ℕ × Bytes)
read_hex limit count n [] = some (n, [])
read_hex limit count n (c ∷ s) =
    let more = read_hex limit (count + 1) ((n * 16 + digit_value c) % 2 ^ 32) s in
    if not (limit == 0) && not (ltb count limit)
    then some (n, c ∷ s)
    else if ltb (digit_value c) 16
    then more
    else if not (count == 0) && limit == 0
    then some (n, c ∷ s)
    else none

-- What the next characters of a string mean: its end, some bytes of it, or an error.
pub data Piece : Type 0 where
  illegal : Piece
  closed : Bytes → Piece
  bytes : Bytes → Bytes → Piece

-- `get_hex`
unfoldable pub get_hex : (ℕ → Bytes) → ℕ → Bytes → Piece
unfolding read_hex
get_hex utf8 limit s = elim (read_hex limit 0 0 s) [
  | none ↦ illegal
  | some (n, rest) ↦ bytes (if ltb n 255 then n ∷ [] else utf8 (n % 2 ^ 16)) rest
]

-- The escapes of one character.
abbrev pub control : ℕ → Option ℕ
control c =
    if c == b'\\' || c == b'"' || c == 39 || c == b'?'
    then some c
    else if c == b'a'
    then some 7
    else if c == b'b'
    then some 8
    else if c == b't'
    then some 9
    else if c == b'n'
    then some 10
    else if c == b'v'
    then some 11
    else if c == b'f'
    then some 12
    else if c == b'r'
    then some 13
    else if c == b'e'
    then some 27
    else none

abbrev pub is_octal : ℕ → Bool
is_octal c = leb b'0' c && leb c b'7'

-- The digits of an octal escape after the first: for each, the code adds `ch - '0'`, where `ch` is
-- still the backslash.
abbrev pub octal_third : ℕ → Bytes → Piece
octal_third n [] = bytes ((n % 256) ∷ []) []
octal_third n (c ∷ s) =
    if is_octal c
    then bytes (((n * 8 + (b'\\' - b'0')) % 256) ∷ []) s
    else bytes ((n % 256) ∷ []) (c ∷ s)

abbrev pub octal_second : ℕ → Bytes → Piece
octal_second n [] = bytes ((n % 256) ∷ []) []
octal_second n (c ∷ s) =
    if is_octal c then octal_third (n * 8 + (b'\\' - b'0')) s else bytes ((n % 256) ∷ []) (c ∷ s)

-- What follows a backslash.
unfoldable pub read_escape : (ℕ → Bytes) → ℕ → Bytes → Piece
unfolding get_hex
read_escape utf8 c s = elim (control c) [
  | some value ↦ bytes (value ∷ []) s
  | none ↦
      if is_octal c
      then octal_second (c - b'0') s
      else if c == b'x'
      then get_hex utf8 0 s
      else if c == b'u'
      then get_hex utf8 4 s
      else if c == b'U'
      then get_hex utf8 8 s
      else illegal
]

-- One round of the loop of `get_str`; a backslash at the end of the text stands for itself.
unfoldable pub read_piece : (ℕ → Bytes) → Bytes → Piece
unfolding read_escape
read_piece utf8 [] = illegal
read_piece utf8 (c ∷ []) = if c == b'"' then closed [] else bytes (c ∷ []) []
read_piece utf8 (c ∷ d ∷ s) =
    if c == b'"'
    then closed (d ∷ s)
    else if c == b'\\'
    then read_escape utf8 d s
    else bytes (c ∷ []) (d ∷ s)

-- The loop of `get_str`, with the string so far; an empty string is an error.
unfoldable pub read_string : (ℕ → Bytes) → ℕ → Bytes → Bytes → Option (Bytes × Bytes)
unfolding read_piece
read_string utf8 zero acc s = none
read_string utf8 (suc fuel) acc s = elim (read_piece utf8 s) [
  | illegal ↦ none
  | closed rest ↦ if is_empty acc then none else some (acc, rest)
  | bytes p rest ↦ read_string utf8 fuel (acc ++ p) rest
]

-- `get_str`: the string, and what follows it.
unfoldable pub get_str : (ℕ → Bytes) → Bytes → Option (Bytes × Bytes)
unfolding read_string skip_gap
get_str utf8 s = elim (skip_gap s) [
  | [] ↦ none
  | c ∷ rest ↦ if c == b'"' then read_string utf8 (length rest + 1) [] rest else none
]

-- The line comment and the block comment, from behind their start.
unfoldable pub skip_line : Bytes → Bytes
skip_line [] = []
skip_line (c ∷ s) = if c == 10 then c ∷ s else skip_line s

unfoldable pub skip_block : Bytes → Bytes
skip_block [] = []
skip_block (c ∷ []) = []
skip_block (c ∷ d ∷ s) = if c == b'*' && d == b'/' then s else skip_block (d ∷ s)

-- What one round of `load_strings` finds: an error, a part without meaning, the end of a line, or
-- an entry.
pub data Found : Type 0 where
  bad : Found
  nothing : Bytes → Found
  newline : Bytes → Found
  entry : Bytes → Bytes → Bytes → Found

-- An entry, from its first quotation mark on.
get_value : (ℕ → Bytes) → Bytes → Bytes → Found
unfolding get_str get_dem
get_value utf8 key s = elim (get_str utf8 s) [
  | none ↦ bad
  | some (value, rest) ↦ elim (get_dem b';' rest) [
    | none ↦ bad
    | some rest' ↦ entry key value rest'
  ]
]

get_entry : (ℕ → Bytes) → Bytes → Found
unfolding get_str get_dem get_value
get_entry utf8 s = elim (get_str utf8 s) [
  | none ↦ bad
  | some (key, rest) ↦ elim (get_dem b'=' rest) [
    | none ↦ bad
    | some rest' ↦ get_value utf8 key rest'
  ]
]

get_comment : Bytes → Found
unfolding skip_line skip_block
get_comment [] = bad
get_comment (c ∷ s) =
    if c == b'/' then nothing (skip_line s) else if c == b'*' then nothing (skip_block s) else bad

unfoldable pub skip_return : Bytes → Bytes
skip_return [] = []
skip_return (c ∷ s) = if c == 13 then s else c ∷ s

-- One round, at the character `c`; `fresh` says that no entry stands on the line yet.
unfoldable pub get_part : (ℕ → Bytes) → Bool → ℕ → Bytes → Found
unfolding get_comment skip_return get_entry
get_part utf8 fresh c s =
    if c == b'/'
    then get_comment s
    else if is_gap c
    then nothing s
    else if c == 10
    then newline (skip_return s)
    else if c == b'"' && fresh
    then get_entry utf8 (c ∷ s)
    else bad

-- `logger.line_number`, the flag `newline` and `strings_`, and whether the text was loaded.
pub record Loading : Type 0 where
  pub ok : Bool
  pub line_number : ℕ
  pub strings : Collection

-- The loop of `load_strings`.
unfoldable pub load_loop : (ℕ → Bytes) → ℕ → Bool → ℕ → Bytes → Collection → Loading
unfolding get_part
load_loop utf8 fuel fresh line [] c = record { ok = true; line_number = line; strings = c }
load_loop utf8 zero fresh line (x ∷ s) c = record { ok = false; line_number = line; strings = c }
load_loop utf8 (suc fuel) fresh line (x ∷ s) c = elim (get_part utf8 fresh x s) [
  | bad ↦ record { ok = false; line_number = line; strings = c }
  | nothing rest ↦ load_loop utf8 fuel fresh line rest c
  | newline rest ↦ load_loop utf8 fuel true (line + 1) rest c
  | entry key value rest ↦ load_loop utf8 fuel false line rest (assign key value c)
]

-- `load_strings`
unfoldable pub load_strings : (ℕ → Bytes) → Bytes → Collection → Loading
unfolding load_loop
load_strings utf8 s c = load_loop utf8 (length s) true 1 s c
