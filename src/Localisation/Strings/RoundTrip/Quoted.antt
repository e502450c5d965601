-- ===== src/Localisation/Strings/RoundTrip/Quoted.antt =====
-- localisation/NSLocalizedCollectionImpl.cpp: the strings that `get_str` reads, printed and read.
use mathlib.Core.List.{append-nil, append_assoc}
use libappupdater.Localisation.Strings.{
  read_piece, closed, bytes, read_escape, read_string, get_str, skip_gap,
}
use libappupdater.Prelude.{
  ℕ, zero, suc, ◌+◌, ◌<◌, Bytes, Bool, true, false, ◌||◌, [], ◌∷◌, ◌++◌, some, ◌≡◌, refl, sym, ap,
  subst, ◌∙◌, arith, ◌==◌, is_empty, length, if◌then◌else◌, inl, inr, ◌⊎◌,
}

-- The characters that a string has behind a backslash.
abbrev pub is_quoted : ℕ → Bool
is_quoted c = c == b'"' || c == b'\\'

-- The rest of a string and its quotation mark, before `t`.
unfoldable pub quoted_onto : Bytes → Bytes → Bytes
quoted_onto [] t = b'"' ∷ t
quoted_onto (c ∷ s) t = if is_quoted c then b'\\' ∷ c ∷ quoted_onto s t else c ∷ quoted_onto s t

pub length-quoted_onto : (s t : Bytes) → length s + length t < length (quoted_onto s t)
unfolding quoted_onto
length-quoted_onto [] t = omega arith
length-quoted_onto (c ∷ s) t = ground (arith, length-quoted_onto s t)

read_piece-plain :
    (utf8 : ℕ → Bytes) (c : ℕ) (u : Bytes)
    → 0 < length u
    → is_quoted c ≡ false
    → read_piece utf8 (c ∷ u) ≡ bytes (c ∷ []) u
unfolding read_piece
read_piece-plain utf8 c [] h k = absurd (omega (arith, h))
read_piece-plain utf8 c (d ∷ u) h k = ground (arith, k)

read_piece-quoted :
    (utf8 : ℕ → Bytes) (c : ℕ) (u : Bytes)
    → is_quoted c ≡ true
    → read_piece utf8 (b'\\' ∷ c ∷ u) ≡ bytes (c ∷ []) u
unfolding read_piece read_escape
read_piece-quoted utf8 c u k = elim cases [
  | inl p ↦ subst (λ x. read_piece utf8 (b'\\' ∷ x ∷ u) ≡ bytes (x ∷ []) u) (sym p) refl
  | inr p ↦ subst (λ x. read_piece utf8 (b'\\' ∷ x ∷ u) ≡ bytes (x ∷ []) u) (sym p) refl
]
  where
    cases : (c ≡ b'"') ⊎ (c ≡ b'\\')
    cases = ground (arith, k)

read_piece-closed : (utf8 : ℕ → Bytes) (t : Bytes) → read_piece utf8 (b'"' ∷ t) ≡ closed t
unfolding read_piece
read_piece-closed utf8 [] = refl
read_piece-closed utf8 (d ∷ t) = refl

-- Rounds of the loop, by what they read.
read_string-bytes :
    (utf8 : ℕ → Bytes) (f : ℕ) (acc s p rest : Bytes)
    → read_piece utf8 s ≡ bytes p rest
    → read_string utf8 (suc f) acc s ≡ read_string utf8 f (acc ++ p) rest
unfolding read_string
read_string-bytes utf8 f acc s p rest e = rw (read_string, e)

read_string-closed :
    (utf8 : ℕ → Bytes) (f : ℕ) (acc s rest : Bytes)
    → read_piece utf8 s ≡ closed rest
    → is_empty acc ≡ false
    → read_string utf8 (suc f) acc s ≡ some (acc, rest)
unfolding read_string
read_string-closed utf8 f acc s rest e h = rw (read_string, e, h)

-- The loop reads a printed string back.
read_string-quoted_onto :
    (utf8 : ℕ → Bytes) (f : ℕ) (acc s t : Bytes)
    → length s < f
    → is_empty (acc ++ s) ≡ false
    → read_string utf8 f acc (quoted_onto s t) ≡ some (acc ++ s, t)
unfolding quoted_onto
read_string-quoted_onto utf8 zero acc s t h k = absurd (omega (arith, h))
read_string-quoted_onto utf8 (suc f) acc [] t h k =
    read_string-closed utf8 f acc (b'"' ∷ t) t (read_piece-closed utf8 t)
      (sym (ap is_empty (append-nil acc)) ∙ k)
    ∙ ap (λ a. some (a, t)) (sym (append-nil acc))
read_string-quoted_onto utf8 (suc f) acc (c ∷ s) t h k =
    go
      (read_string-quoted_onto utf8 f (acc ++ (c ∷ [])) s t (omega (arith, h))
        (ap is_empty (append_assoc acc (c ∷ []) s) ∙ k))
      (is_quoted c) refl
  where
    go :
        read_string utf8 f (acc ++ (c ∷ [])) (quoted_onto s t) ≡ some ((acc ++ (c ∷ [])) ++ s, t)
        → (b : Bool) → is_quoted c ≡ b
        → read_string utf8
            (suc f)
            acc
            (if b then b'\\' ∷ c ∷ quoted_onto s t else c ∷ quoted_onto s t)
          ≡ some (acc ++ (c ∷ s), t)
    go ih true e =
        read_string-bytes utf8 f acc (b'\\' ∷ c ∷ quoted_onto s t) (c ∷ []) (quoted_onto s t)
          (read_piece-quoted utf8 c (quoted_onto s t) e)
        ∙ ih
        ∙ ap (λ a. some (a, t)) (append_assoc acc (c ∷ []) s)
    go ih false e =
        read_string-bytes utf8 f acc (c ∷ quoted_onto s t) (c ∷ []) (quoted_onto s t)
          (read_piece-plain utf8 c (quoted_onto s t) (omega (arith, length-quoted_onto s t)) e)
        ∙ ih
        ∙ ap (λ a. some (a, t)) (append_assoc acc (c ∷ []) s)

pub get_str-quoted_onto :
    (utf8 : ℕ → Bytes) (s t : Bytes)
    → is_empty s ≡ false
    → get_str utf8 (b'"' ∷ quoted_onto s t) ≡ some (s, t)
unfolding get_str skip_gap
get_str-quoted_onto utf8 s t h =
    read_string-quoted_onto utf8 (length (quoted_onto s t) + 1) [] s t
      (omega (arith, length-quoted_onto s t)) h

-- A blank before a string is skipped.
pub get_str-gap : (utf8 : ℕ → Bytes) (s : Bytes) → get_str utf8 (b' ' ∷ s) ≡ get_str utf8 s
unfolding get_str skip_gap
get_str-gap utf8 s = refl
