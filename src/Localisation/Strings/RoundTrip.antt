-- ===== src/Localisation/Strings/RoundTrip.antt =====
-- localisation/NSLocalizedCollectionImpl.cpp: the files that `load_strings` reads, printed and
-- read.
pub mod Quoted
use mathlib.Core.List.{append-nil, append_assoc}
use libappupdater.Localisation.{Collection, assign, assign_each, lookup, lookup-assign}
use libappupdater.Localisation.Strings.{
  read_piece, closed, bytes, read_escape, read_string, get_str, skip_gap, get_dem, Loading,
  load_loop, load_strings, get_part, get_entry, get_value, entry, skip_return,
}
use libappupdater.Prelude.{
  ℕ, zero, suc, ◌+◌, ◌*◌, ◌≤◌, ◌<◌, Bytes, Bool, true, false, ◌||◌, [], ◌∷◌, ◌++◌, some, ◌≡◌, refl,
  sym, ap, subst, ◌∙◌, arith, str_eq_iff, ◌==◌, is_empty, length, if◌then◌else◌, inl, inr, All, ◌⊎◌,
}
use libappupdater.Localisation.Strings.RoundTrip.Quoted.{
  quoted_onto, length-quoted_onto, get_str-quoted_onto, get_str-gap,
}

-- `"key" = "value";` and the end of the line, before `t`.
unfoldable pub entry_onto : Bytes × Bytes → Bytes → Bytes
unfolding quoted_onto
entry_onto (key, value) t =
    b'"' ∷ quoted_onto key (b' ' ∷ b'=' ∷ b' ' ∷ b'"' ∷ quoted_onto value (b';' ∷ 10 ∷ t))

unfoldable pub print_strings : Collection → Bytes
unfolding entry_onto
print_strings [] = []
print_strings (e ∷ es) = entry_onto e (print_strings es)

get_entry-entry_onto :
    (utf8 : ℕ → Bytes) (key value t : Bytes)
    → is_empty key ≡ false
    → is_empty value ≡ false
    → get_entry utf8 (entry_onto (key, value) t) ≡ entry key value (10 ∷ t)
unfolding entry_onto get_dem skip_gap get_entry get_value
get_entry-entry_onto utf8 key value t h k =
    let after = b';' ∷ 10 ∷ t in
    let middle = b'"' ∷ quoted_onto value after in
    rw (
      get_entry,
      get_str-quoted_onto utf8 key (b' ' ∷ b'=' ∷ b' ' ∷ middle) h,
      get_value,
      get_str-gap utf8 middle,
      get_str-quoted_onto utf8 value after k,
    )

-- The rounds of the loop that read the entries and the ends of the lines.
load_loop-entry :
    (utf8 : ℕ → Bytes) (f line : ℕ) (key value rest s : Bytes) (c : Collection)
    → get_entry utf8 (b'"' ∷ s) ≡ entry key value rest
    → load_loop utf8 (suc f) true line (b'"' ∷ s) c
      ≡ load_loop utf8 f false line rest (assign key value c)
unfolding get_part load_loop
load_loop-entry utf8 f line key value rest s c e = rw (load_loop, e)

load_loop-newline :
    (utf8 : ℕ → Bytes) (f line : ℕ) (s : Bytes) (c : Collection)
    → load_loop utf8 (suc f) false line (10 ∷ s) c
      ≡ load_loop utf8 f true (line + 1) (skip_return s) c
unfolding load_loop get_part
load_loop-newline utf8 f line s c = refl

skip_return-print_strings : (es : Collection) → skip_return (print_strings es) ≡ print_strings es
unfolding skip_return print_strings entry_onto
skip_return-print_strings [] = refl
skip_return-print_strings ((key, value) ∷ es) = refl

abbrev pub HasTexts : Bytes × Bytes → Type 0
HasTexts (key, value) = (is_empty key ≡ false) × (is_empty value ≡ false)

load_loop-print_strings :
    (utf8 : ℕ → Bytes) (f line : ℕ) (es c : Collection)
    → All HasTexts es
    → 2 * length es ≤ f
    → load_loop utf8 f true line (print_strings es) c
      ≡ record { ok = true; line_number = line + length es; strings = assign_each es c }
unfolding load_loop print_strings
load_loop-print_strings utf8 f line [] c h k =
    ap (λ n. record { ok = true; line_number = n; strings = c }) (omega arith)
load_loop-print_strings utf8 zero line (e ∷ es) c h k = absurd (omega (arith, k))
load_loop-print_strings utf8 (suc zero) line (e ∷ es) c h k = absurd (omega (arith, k))
load_loop-print_strings utf8 (suc (suc f)) line ((key, value) ∷ es) c ((hk, hv), hs) k =
    load_loop-entry utf8 (suc f) line key value (10 ∷ rest)
      (quoted_onto key (b' ' ∷ b'=' ∷ b' ' ∷ b'"' ∷ quoted_onto value (b';' ∷ 10 ∷ rest))) c
      (get_entry-entry_onto utf8 key value rest hk hv)
    ∙ load_loop-newline utf8 f line rest (assign key value c)
    ∙ ap (λ s. load_loop utf8 f true (line + 1) s (assign key value c))
        (skip_return-print_strings es)
    ∙ load_loop-print_strings utf8 f (line + 1) es (assign key value c) hs (omega (arith, k))
    ∙ ap (λ n. record { ok = true; line_number = n; strings = assign_each es (assign key value c) })
        (omega arith)
  where
    rest : Bytes
    rest = print_strings es

length-entry_onto : (e : Bytes × Bytes) (t : Bytes) → suc (suc (length t)) < length (entry_onto e t)
unfolding entry_onto
length-entry_onto (key, value) t =
    let after = b';' ∷ 10 ∷ t in
    omega (
      arith,
      length-quoted_onto key (b' ' ∷ b'=' ∷ b' ' ∷ b'"' ∷ quoted_onto value after),
      length-quoted_onto value after,
    )

length-print_strings : (es : Collection) → 2 * length es ≤ length (print_strings es)
unfolding print_strings
length-print_strings [] = omega arith
length-print_strings (e ∷ es) =
    omega (arith, length-print_strings es, length-entry_onto e (print_strings es))

-- A file of entries, none of whose texts is empty, is loaded whole: each entry is assigned, in the
-- order of the file, and the line number that is left is one more than the number of entries, each
-- of which ends with a line break; a line break within a text is not counted.
pub load_strings-print_strings :
    (utf8 : ℕ → Bytes) (es c : Collection)
    → All HasTexts es
    → load_strings utf8 (print_strings es) c
      ≡ record { ok = true; line_number = 1 + length es; strings = assign_each es c }
unfolding load_strings
load_strings-print_strings utf8 es c h =
    load_loop-print_strings utf8 (length (print_strings es)) 1 es c h (length-print_strings es)

All-snoc :
    (es : Collection) (e : Bytes × Bytes)
    → All HasTexts es
    → HasTexts e
    → All HasTexts (es ++ (e ∷ []))
All-snoc [] e h he = (he, tt)
All-snoc (x ∷ es) e (hx, hs) he = (hx, All-snoc es e hs he)

assign_each-snoc :
    (es c : Collection) (key value : Bytes)
    → assign_each (es ++ ((key, value) ∷ [])) c ≡ assign key value (assign_each es c)
assign_each-snoc [] c key value = refl
assign_each-snoc ((k, v) ∷ es) c key value = assign_each-snoc es (assign k v c) key value

-- A text is looked up as the last entry of the file has it, whatever entries for it stand before.
pub lookup-load_strings :
    (utf8 : ℕ → Bytes) (es c : Collection) (key value : Bytes)
    → All HasTexts es
    → HasTexts (key, value)
    → lookup (Loading.strings (load_strings utf8 (print_strings (es ++ ((key, value) ∷ []))) c)) key
      ≡ value
lookup-load_strings utf8 es c key value hs he =
    ap (λ l. lookup (Loading.strings l) key)
      (load_strings-print_strings utf8 (es ++ ((key, value) ∷ [])) c
        (All-snoc es (key, value) hs he))
    ∙ ap (λ d. lookup d key) (assign_each-snoc es c key value)
    ∙ lookup-assign key value (assign_each es c) he.1
