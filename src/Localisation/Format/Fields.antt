-- ===== src/Localisation/Format/Fields.antt =====
-- localisation/NSFormat.cpp: the fields of a format and the table of argument types, as
-- `parse_format` fills them. The table is the list of its writes, the newest first.
use libappupdater.Localisation.Format.Letters.{ArgType, t_int, tp_void, Flags, IoFlags, no_sign}
use libappupdater.Prelude.{
  ℕ, ◌+◌, ◌-◌, ◌*◌, ◌/◌, Bytes, Bool, true, false, not, List, [], ◌∷◌, Option, none, some, ltb, leb,
  ◌==◌, is_digit, if◌then◌else◌,
}

abbrev pub int_max : ℕ
int_max = 2147483647

-- `APPEND_DIGIT` over the digits at the front: their value and what follows, or none on overflow.
unfoldable pub append_digits : ℕ → Bytes → Option (ℕ × Bytes)
append_digits n [] = some (n, [])
append_digits n (c ∷ s) =
    let more = append_digits (n * 10 + (c - b'0')) s in
    if not (is_digit c)
    then some (n, c ∷ s)
    else if ltb (int_max / 10) n
    then none
    else if ltb (int_max - (c - b'0')) (n * 10)
    then none
    else more

-- `struct Field`; `leading` is the text from `start` to the conversion, and `spec` is none where
-- there is no conversion. A precision of -1 is none.
pub record Field : Type 0 where
  pub leading : Bytes
  pub flags : Flags
  pub width_arg : ℕ
  pub width : ℕ
  pub precision_arg : ℕ
  pub precision : Option ℕ
  pub value_arg : ℕ
  pub ioflags : IoFlags
  pub spec : Option ℕ

-- A conversion while it is read: `f`, `nextarg` and the writes to the table of types.
pub record Conversion : Type 0 where
  pub field : Field
  pub nextarg : ℕ
  pub writes : List (ℕ × ArgType)

-- How reading a conversion goes on: by the error `overflow` or `invalid`, by `goto done`, or with
-- the field and what follows it; `stuck` is a reading without an end.
pub data Scan : Type 0 where
  stuck : Scan
  failed done : Conversion → Scan
  converted : Bytes → Conversion → Scan

abbrev pub edit_flags : (Flags → Flags) → Conversion → Conversion
edit_flags e v = record v { field = record (v.field) { flags = e v.field.flags } }

-- `__ADDTYPE`
abbrev pub add_type : ArgType → Conversion → Conversion
add_type t v = record v { nextarg = v.nextarg + 1; writes = (v.nextarg, t) ∷ v.writes }

-- The end of a conversion with an argument: `ADDTYPE`, and the field.
abbrev pub add_value : ArgType → ℕ → IoFlags → (Flags → Flags) → Conversion → Conversion
add_value t c io post v = add_type t (record v {
  field = record (v.field) {
    value_arg = v.nextarg;
    ioflags = io;
    spec = some c;
    flags = post v.field.flags;
  };
})

abbrev pub add_pointer : IoFlags → Conversion → Conversion
add_pointer io v =
    let w = add_value tp_void b'p' (record io { hex = true }) no_sign v in
    record w { field = record (w.field) { precision = none } }

-- The label `unknown`.
abbrev pub no_conversion : Conversion → Conversion
no_conversion v = record v { field = record (v.field) { spec = some b'%' } }

-- `ADDASTER`, for the width or the precision: an error, `goto done`, or what follows.
abbrev pub set_star : Bool → ℕ → Field → Field
set_star true n f = record f { width_arg = n }
set_star false n f = record f { precision_arg = n }

abbrev pub at_dollar : Bytes → Option Bytes
at_dollar [] = none
at_dollar (c ∷ s) = if c == b'$' then some s else none

abbrev pub within : ℕ → Bytes → Conversion → Scan
within argno s v = if leb argno v.nextarg then done v else converted s v

unfoldable pub add_star : ℕ → Bool → Bytes → Conversion → Scan
unfolding append_digits
add_star argno is_width s v = elim (append_digits 0 s) [
  | none ↦ failed v
  | some (n, rest) ↦ elim (at_dollar rest) [
    | some rest' ↦
        if leb argno n
        then done (record v { nextarg = n })
        else within argno rest'
            (record v { field = set_star is_width n v.field; writes = (n, t_int) ∷ v.writes })
    | none ↦
        within argno s (add_type t_int (record v { field = set_star is_width v.nextarg v.field }))
  ]
]

abbrev pub starts_with : ℕ → Bytes → Option Bytes
starts_with x [] = none
starts_with x (c ∷ s) = if c == x then some s else none

-- The number after the precision's dot, and a number that is a position or a width.
abbrev pub set_precision : ℕ → Conversion → Conversion
set_precision n v = record v { field = record (v.field) { precision = some n } }

abbrev pub set_width : ℕ → Conversion → Conversion
set_width n v = record v { field = record (v.field) { width = n } }

-- `%n$`: it is the width that is taken from the argument.
abbrev pub set_position : ℕ → Conversion → Conversion
set_position n v = record v { nextarg = n; field = record (v.field) { width_arg = n } }
