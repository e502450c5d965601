-- ===== src/Tests/Formats.antt =====
-- The formats: localisation/NSFormat.cpp.
use libappupdater.Localisation.Format.{
  Parsing, parse_format, parse_loop, scan, switch, leading_text,
}
use libappupdater.Localisation.Format.Fields.{Field, append_digits, add_star}
use libappupdater.Localisation.Format.Letters.{t_int, tp_char, conversion_letter, modifier_letter}
use libappupdater.Localisation.Format.Tables.{IsTyped, parse_format-IsTyped}
use libappupdater.Prelude.{[], ◌∷◌, ◌≡◌, refl, codes, arith, some, none, map, ℕ, Option, List}

parse_format-IsTyped_example : IsTyped 32 (parse_format (codes "%-*d of %.2s%%") 32 32)
parse_format-IsTyped_example =
    parse_format-IsTyped (codes "%-*d of %.2s%%") 32 32
      (
        refl,
        (
          refl,
          (
            refl,
            (
              refl,
              (refl, (refl, (refl, (refl, (refl, (refl, (refl, (refl, (refl, (refl, tt)))))))))),
            ),
          ),
        ),
      )
      (omega arith)

writes_of_stars :
    Parsing.writes (parse_format (codes "%-*d of %.2s%%") 32 32)
    ≡ (3, tp_char) ∷ (2, t_int) ∷ (1, t_int) ∷ []
unfolding parse_format parse_loop scan switch leading_text append_digits add_star conversion_letter
    modifier_letter
writes_of_stars = refl

-- A position is not compared with the size of the table, and becomes the width's argument.
position_unchecked : Parsing.writes (parse_format (codes "%99$d") 32 32) ≡ (99, t_int) ∷ []
unfolding parse_format parse_loop scan switch leading_text append_digits add_star conversion_letter
    modifier_letter
position_unchecked = refl

-- The arguments of the width and of the value of each field.
abbrev arguments_of : Option (List Field) → List (ℕ × ℕ)
arguments_of none = []
arguments_of (some fields) = map (λ f. (f.width_arg, f.value_arg)) fields

position_width : arguments_of (Parsing.fields (parse_format (codes "%2$d") 32 32)) ≡ (2, 2) ∷ []
unfolding parse_format parse_loop scan switch leading_text append_digits add_star conversion_letter
    modifier_letter
position_width = refl
