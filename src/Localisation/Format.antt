-- ===== src/Localisation/Format.antt =====
-- localisation/NSFormat.cpp: `parse_format`. A pointer into the format is what follows it; `argno`
-- and `fieldno` are the sizes of the tables. The values of the arguments and `exec_format` are left
-- out.
pub mod Letters
pub mod Fields
pub mod Tables
use libappupdater.Localisation.Format.Letters.{
  ArgType, t_int, tp_void, Flags, no_flags, IoFlags, no_io, signed_type, float_type, no_sign,
  with_longint, Letter, modifier, doubled, star, dot, digit, size_of_i, conversion, long_decimal,
  percent, written_count, unknown, pointer, float_or_pointer, letter,
}
use libappupdater.Prelude.{
  ℕ, zero, suc, ◌+◌, ◌-◌, ◌*◌, ◌/◌, Bytes, Bool, true, false, not, ◌&&◌, ◌||◌, List, [], ◌∷◌, ◌++◌,
  Option, none, some, ltb, leb, ◌==◌, is_digit, is_empty, length, if◌then◌else◌,
}
use libappupdater.Localisation.Format.Fields.{
  int_max, append_digits, Field, Conversion, Scan, edit_flags, add_type, add_value, add_pointer,
  no_conversion, set_star, at_dollar, within, add_star, starts_with, set_precision, set_width,
  set_position, stuck, failed, done, converted,
}

-- What reading goes on with: a result, or more of the format.
pub data Next : Type 0 where
  ends : Scan → Next
  goes_on : Bytes → Conversion → Next

abbrev pub go_on : Scan → Next
go_on (converted s v) = goes_on s v
go_on r = ends r

abbrev pub after_digits : Conversion → (ℕ → Bytes → Next) → Option (ℕ × Bytes) → Next
after_digits v k none = ends (failed v)
after_digits v k (some (n, rest)) = k n rest

abbrev pub position_or_width : Conversion → ℕ → Bytes → Next
position_or_width v n rest = elim (at_dollar rest) [
  | some rest' ↦ goes_on rest' (set_position n v)
  | none ↦ goes_on rest (set_width n v)
]

-- The number after `I` before `rest`: 64 and 32 are known.
abbrev pub known_size : Bytes → Conversion → ℕ → Bytes → Next
known_size s v n rest =
    if n == 64
    then goes_on rest (edit_flags (λ f. record f { isz = true; llongint = true }) v)
    else if n == 32
    then goes_on rest (edit_flags (λ f. record f { isz = true; longint = true }) v)
    else ends (converted s (no_conversion v))

-- The switch of `parse_format` at the letter `c` before `s`; `first` says that it stands behind the
-- `%`.
unfoldable pub switch : ℕ → Bool → ℕ → Bytes → Conversion → Letter → Next
unfolding append_digits add_star
switch argno first c s v (modifier e) = goes_on s (edit_flags e v)
switch argno first c s v (doubled x one two) = elim (starts_with x s) [
  | none ↦ goes_on s (edit_flags one v)
  | some rest ↦ goes_on rest (edit_flags two v)
]
switch argno first c s v star = go_on (add_star argno true s v)
switch argno first c s v dot = elim (starts_with b'*' s) [
  | some rest ↦ go_on (add_star argno false rest v)
  | none ↦ after_digits v (λ n rest. goes_on rest (set_precision n v)) (append_digits 0 s)
]
switch argno first c s v digit =
    -- The first digit does not overflow.
    after_digits v (position_or_width v) (append_digits (c - b'0') s)
switch argno first c s v size_of_i = after_digits v (known_size s v) (append_digits 0 s)
switch argno first c s v (conversion pre type io post) =
    let w = edit_flags pre v in ends (converted s (add_value (type w.field.flags) c io post w))
switch argno first c s v long_decimal =
    let w = edit_flags with_longint v in
    if v.field.flags.isz
    then ends (converted s (no_conversion v))
    else ends (
        converted s
          (add_value (signed_type w.field.flags) c (record no_io { dec = true }) (λ f. f) w))
switch argno first c s v percent =
    if first
    then ends (converted s (no_conversion v))
    else ends (converted (c ∷ s) (no_conversion v))
switch argno first c s v written_count = ends (failed v)
switch argno first c s v unknown = ends (converted s (no_conversion v))
switch argno first c s v (pointer io) = ends (converted s (add_pointer io v))
switch argno first c s v (float_or_pointer io) =
    let w = edit_flags (λ f. record f { fpt = true }) v in
    elim (starts_with b'p' s) [
      | some rest ↦ ends (converted rest (add_pointer io v))
      | none ↦ ends (
          converted s (
            add_value (float_type w.field.flags) c
              (if io.uppercase then record io { fixed = true } else record no_io { fixed = true })
              (λ f. f) w))
    ]

-- The labels `rflag` and `reswitch`, from some text on.
unfoldable pub scan : ℕ → ℕ → Bool → Bytes → Conversion → Scan
unfolding switch
scan argno fuel first [] v = converted [] (no_conversion v)
scan argno zero first (c ∷ s) v = stuck
scan argno (suc fuel) first (c ∷ s) v = elim (switch argno first c s v (letter c)) [
  | ends r ↦ r
  | goes_on rest w ↦ scan argno fuel false rest w
]

-- The text before the next `%`, and what follows that.
unfoldable pub leading_text : Bytes → Bytes × Option Bytes
leading_text [] = ([], none)
leading_text (c ∷ s) =
    let (before, rest) = leading_text s in if c == b'%' then ([], some s) else (c ∷ before, rest)

-- The result of `parse_format`: the fields, if it does not fail, the upper bound of the arguments,
-- and the writes to the table.
pub record Parsing : Type 0 where
  pub ended : Bool
  pub fields : Option (List Field)
  pub maxarg : ℕ
  pub writes : List (ℕ × ArgType)

abbrev pub new_field : Bytes → ℕ → Field
new_field leading n = record {
  leading = leading;
  flags = no_flags;
  width_arg = 0;
  width = 0;
  precision_arg = 0;
  precision = none;
  value_arg = n;
  ioflags = no_io;
  spec = none;
}

-- The field of the text behind the last conversion, cleared but for its text.
abbrev pub tail_field : Bytes → Field
tail_field leading = record (new_field leading 0) { precision = some 0 }

-- The label `done`.
abbrev pub finish : ℕ → ℕ → List (ℕ × ArgType) → List Field → Parsing
finish argno maxarg writes fields = record {
  ended = true;
  fields = if leb argno maxarg then none else some fields;
  maxarg = maxarg;
  writes = writes;
}

abbrev pub fail : Bool → ℕ → List (ℕ × ArgType) → Parsing
fail ended maxarg writes = record { ended = ended; fields = none; maxarg = maxarg; writes = writes }

abbrev pub max_of : ℕ → ℕ → ℕ
max_of a b = if ltb a b then b else a

-- The loop over the format, with the fields that are left and those so far.
unfoldable pub parse_loop : ℕ → ℕ → ℕ → Bytes → ℕ → ℕ → List (ℕ × ArgType) → List Field → Parsing
unfolding leading_text scan
parse_loop argno fuel fieldno [] nextarg maxarg writes fields = finish argno maxarg writes fields
parse_loop argno zero fieldno (c ∷ s) nextarg maxarg writes fields = fail false maxarg writes
parse_loop argno (suc fuel) fieldno (c ∷ s) nextarg maxarg writes fields =
    let (leading, rest) = leading_text (c ∷ s) in
    let f = new_field leading nextarg in
    let scanned : Parsing = elim rest [
      | none ↦ finish argno maxarg writes (fields ++ (tail_field leading ∷ []))
      | some t ↦
          elim (scan argno (length t) true t
            (record { field = f; nextarg = nextarg; writes = writes })) [
              | stuck ↦ fail false maxarg writes
              | failed v ↦ fail true maxarg v.writes
              | done v ↦ finish argno maxarg v.writes fields
              | converted rest' v ↦
                  parse_loop argno fuel (fieldno - 1) rest' v.nextarg (max_of maxarg v.nextarg)
                    v.writes (fields ++ (v.field ∷ []))
            ]
    ] in
    if leb argno nextarg
    then finish argno maxarg writes fields
    else if fieldno == 0
    then fail true maxarg writes
    else scanned

-- `parse_format`
unfoldable pub parse_format : Bytes → ℕ → ℕ → Parsing
unfolding parse_loop
parse_format fmt fieldno argno = parse_loop argno (length fmt) fieldno fmt 1 1 [] []
