-- ===== src/Localisation/Format/Tables.antt =====
-- localisation/NSFormat.cpp: the writes of `parse_format` to the table of argument types.
pub mod Conversions
mod Switch
use libappupdater.Localisation.Format.Letters.{
  ArgType, t_int, Flags, IoFlags, Letter, modifier, doubled, star, dot, digit, size_of_i,
  conversion, long_decimal, percent, written_count, unknown, pointer, float_or_pointer, letter,
  signed_type, with_longint, no_io, float_type,
}
use libappupdater.Localisation.Format.{
  Next, ends, goes_on, go_on, after_digits, position_or_width, known_size, switch, scan,
  leading_text, Parsing, finish, fail, max_of, new_field, tail_field, parse_loop, parse_format,
}
use libappupdater.Localisation.Format.Fields.{
  append_digits, Field, Conversion, Scan, stuck, failed, done, converted, add_star, at_dollar,
  within, starts_with, set_precision, set_star, add_type, edit_flags, no_conversion, add_value,
  add_pointer, set_position, set_width,
}
use libappupdater.Prelude.{
  ℕ, zero, suc, ◌+◌, ◌-◌, ◌*◌, ◌≤◌, ◌<◌, Bytes, Bool, true, false, List, [], ◌∷◌, ◌++◌, All, Option,
  none, some, ltb, leb, ◌==◌, length, if◌then◌else◌, ◌≡◌, refl, sym, ap, subst, arith, Bool-cases,
  inl, inr, is_digit, not,
}
use libappupdater.Localisation.Format.Tables.Conversions.{
  Consecutive, NoDollar, Ready, Fine, Rest, IsFine,
}
use libappupdater.Localisation.Format.Tables.Switch.{scan-IsFine}

abbrev LeftOf : ℕ → Option Bytes → Type 0
LeftOf n none = Unit {0}
LeftOf n (some t) = Rest n t

leading_text-Left :
    (n : ℕ) (s : Bytes) → length s ≤ suc n → NoDollar s → LeftOf n (leading_text s).1
unfolding leading_text
leading_text-Left n [] le d = tt
leading_text-Left n (c ∷ s) le d =
    elim (c == b'%')
      as (λ b.
        LeftOf n
          (if◌then◌else◌ {A = Bytes × Option Bytes} b ([], some s)
            (c ∷ (leading_text s).0, (leading_text s).1)).1) [
              | true ↦ record { short = omega (arith, le); plain = d.1 }
              | false ↦ leading_text-Left n s (omega (arith, le)) (d.1)
            ]

-- A result that ended, whose writes to the table are those of the arguments below some number, once
-- each, in order and within the table, and which has a type for each argument that is read then.
pub record IsTyped (argno : ℕ) (p : Parsing) : Type 0 where
  pub has_ended : p.ended ≡ true
  pub next : ℕ
  pub ordered : Consecutive next p.writes
  pub bounded : next ≤ argno
  pub covered : p.maxarg ≤ next

max_of_least : (m k n : ℕ) → m ≤ k → k ≤ n → max_of m n ≤ n
max_of_least m k n h l = ground (arith, h, l)

module _ (argno : ℕ) where
  finish-IsTyped :
      (n maxarg : ℕ) (writes : List (ℕ × ArgType)) (fields : List Field)
      → Consecutive n writes
      → n ≤ argno
      → maxarg ≤ n
      → IsTyped argno (finish argno maxarg writes fields)
  finish-IsTyped n maxarg writes fields o b c = record {
    has_ended = refl;
    next = n;
    ordered = o;
    bounded = b;
    covered = c;
  }

  fail-IsTyped :
      (n maxarg : ℕ) (writes : List (ℕ × ArgType))
      → Consecutive n writes
      → n ≤ argno
      → maxarg ≤ n
      → IsTyped argno (fail true maxarg writes)
  fail-IsTyped n maxarg writes o b c = record {
    has_ended = refl;
    next = n;
    ordered = o;
    bounded = b;
    covered = c;
  }

  -- The loop ends so with some fuel.
  abbrev LoopIsTyped : ℕ → Type 0
  LoopIsTyped fuel =
      (fieldno : ℕ) (s : Bytes) (nextarg maxarg : ℕ) (writes : List (ℕ × ArgType))
      (fields : List Field)
      → length s ≤ fuel
      → NoDollar s
      → Consecutive nextarg writes
      → nextarg ≤ argno
      → maxarg ≤ nextarg
      → IsTyped argno (parse_loop argno fuel fieldno s nextarg maxarg writes fields)

  parse_loop-IsTyped :
      (fuel fieldno : ℕ) (s : Bytes) (nextarg maxarg : ℕ) (writes : List (ℕ × ArgType))
      (fields : List Field)
      → length s ≤ fuel
      → NoDollar s
      → Consecutive nextarg writes
      → nextarg ≤ argno
      → maxarg ≤ nextarg
      → IsTyped argno (parse_loop argno fuel fieldno s nextarg maxarg writes fields)
  unfolding parse_loop
  parse_loop-IsTyped fuel fieldno [] nextarg maxarg writes fields le d o b c =
      finish-IsTyped nextarg maxarg writes fields o b c
  parse_loop-IsTyped zero fieldno (x ∷ s) nextarg maxarg writes fields le d o b c =
      absurd (omega (arith, le))
  parse_loop-IsTyped (suc fuel) fieldno (x ∷ s) nextarg maxarg writes fields le d o b c =
      go (parse_loop-IsTyped fuel) (leb argno nextarg) refl (fieldno == 0)
    where
      leading : Bytes
      leading = (leading_text (x ∷ s)).0

      f : Field
      f = new_field leading nextarg

      after_scan : Scan → Parsing
      after_scan r = elim r [
        | stuck ↦ fail false maxarg writes
        | failed v ↦ fail true maxarg v.writes
        | done v ↦ finish argno maxarg v.writes fields
        | converted rest v ↦
            parse_loop argno fuel (fieldno - 1) rest v.nextarg (max_of maxarg v.nextarg) v.writes
              (fields ++ (v.field ∷ []))
      ]

      scanned : Option Bytes → Parsing
      scanned rest = elim rest [
        | none ↦ finish argno maxarg writes (fields ++ (tail_field leading ∷ []))
        | some t ↦ after_scan (
            scan argno (length t) true t (record { field = f; nextarg = nextarg; writes = writes }))
      ]

      of_scan :
          LoopIsTyped fuel
          → (n : ℕ) (r : Scan) → suc n ≤ suc fuel
          → IsFine nextarg argno n r
          → IsTyped argno (after_scan r)
      of_scan ih n stuck l h = absurd h
      of_scan ih n (failed v) l h =
          fail-IsTyped v.nextarg maxarg v.writes h.ordered h.bounded (omega (arith, c, h.above))
      of_scan ih n (done v) l h =
          finish-IsTyped v.nextarg maxarg v.writes fields h.ordered h.bounded
            (omega (arith, c, h.above))
      of_scan ih n (converted rest v) l (q, h) =
          ih (fieldno - 1) rest v.nextarg (max_of maxarg v.nextarg) v.writes
            (fields ++ (v.field ∷ [])) (omega (arith, q.short, l)) q.plain h.ordered h.bounded
            (max_of_least maxarg nextarg v.nextarg c h.above)

      of_text :
          LoopIsTyped fuel
          → (a : nextarg < argno) (rest : Option Bytes) → LeftOf (length s) rest
          → IsTyped argno (scanned rest)
      of_text ih a none h =
          finish-IsTyped nextarg maxarg writes (fields ++ (tail_field leading ∷ [])) o b c
      of_text ih a (some t) h =
          of_scan ih (length t)
            (scan argno (length t) true t
              (record { field = f; nextarg = nextarg; writes = writes }))
            (omega (arith, h.short, le))
            (scan-IsFine nextarg argno (length t) true t
              (record { field = f; nextarg = nextarg; writes = writes }) (omega arith) h.plain
              record { ordered = o; room = a; above = omega arith })

      go :
          LoopIsTyped fuel
          → (a : Bool) → leb argno nextarg ≡ a
          → (z : Bool)
          → IsTyped argno (
              if a
              then finish argno maxarg writes fields
              else if z
              then fail true maxarg writes
              else scanned (leading_text (x ∷ s)).1)
      go ih true e z = finish-IsTyped nextarg maxarg writes fields o b c
      go ih false e true = fail-IsTyped nextarg maxarg writes o b c
      go ih false e false =
          of_text ih (ground (arith, e)) (leading_text (x ∷ s)).1
            (leading_text-Left (length s) (x ∷ s) (omega arith) d)

-- A format without a dollar sign is read to an end, for any sizes of the tables: each write to the
-- table of types is within it, the types are those of the arguments from 1 on, each written once
-- and in order, and each argument that is then read has one.
pub parse_format-IsTyped :
    (fmt : Bytes) (fieldno argno : ℕ)
    → NoDollar fmt
    → 1 ≤ argno
    → IsTyped argno (parse_format fmt fieldno argno)
unfolding parse_format
parse_format-IsTyped fmt fieldno argno d h =
    parse_loop-IsTyped argno (length fmt) fieldno fmt 1 1 [] [] (omega arith) d refl h (omega arith)
