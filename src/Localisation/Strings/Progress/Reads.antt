-- ===== src/Localisation/Strings/Progress/Reads.antt =====
-- localisation/NSLocalizedCollectionImpl.cpp: what the strings and delimiters leave of the text.
use libappupdater.CLib.{digit_value}
use libappupdater.Localisation.Strings.{
  skip_gap, get_dem, read_hex, Piece, illegal, closed, bytes, get_hex, control, is_octal,
  octal_second, octal_third, read_escape, read_piece, read_string, get_str,
}
use libappupdater.Prelude.{
  ℕ, zero, suc, ◌+◌, ◌*◌, ◌-◌, ◌%◌, ◌^◌, ◌≤◌, ◌<◌, Bytes, Bool, true, false, not, ◌&&◌, [], ◌∷◌,
  ◌++◌, Option, none, some, ◌≡◌, refl, arith, ltb, ◌==◌, is_empty, length, if◌then◌else◌,
}

-- What is left of a text of which at least one byte was read, or none.
abbrev pub Shrinks : ℕ → Piece → Type 0
Shrinks n illegal = Unit {0}
Shrinks n (closed rest) = length rest < n
Shrinks n (bytes p rest) = length rest < n

abbrev Left {ℓ} : {A : Type ℓ} → ℕ → Option (A × Bytes) → Type 0
Left n none = Unit {0}
Left n (some (a, rest)) = length rest ≤ n

length-skip_gap : (s : Bytes) → length (skip_gap s) ≤ length s
unfolding skip_gap
length-skip_gap [] = omega arith
length-skip_gap (c ∷ s) = ground (arith, length-skip_gap s)

Left-mono {ℓ} : {A : Type ℓ} (m n : ℕ) (o : Option (A × Bytes)) → m ≤ n → Left m o → Left n o
Left-mono m n none le h = tt
Left-mono m n (some (a, rest)) le h = omega (arith, le, h)

Left-if {ℓ} :
    {A : Type ℓ} (n : ℕ) (b : Bool) (x y : Option (A × Bytes))
    → Left n x
    → Left n y
    → Left n (if b then x else y)
Left-if n true x y h k = h
Left-if n false x y h k = k

read_hex-Left : (limit count n : ℕ) (s : Bytes) → Left (length s) (read_hex limit count n s)
unfolding read_hex
read_hex-Left limit count n [] = omega arith
read_hex-Left limit count n (c ∷ s) =
    let more = read_hex limit (count + 1) ((n * 16 + digit_value c) % 2 ^ 32) s in
    let here : length (c ∷ s) ≤ length (c ∷ s) = omega arith in
    Left-if (length (c ∷ s)) (not (limit == 0) && not (ltb count limit)) (some (n, c ∷ s)) _ here (
      Left-if (length (c ∷ s)) (ltb (digit_value c) 16) more _
        (Left-mono (length s) (length (c ∷ s)) more (omega arith)
          (read_hex-Left limit (count + 1) ((n * 16 + digit_value c) % 2 ^ 32) s))
        (Left-if (length (c ∷ s)) (not (count == 0) && limit == 0) (some (n, c ∷ s)) none here tt))

get_hex-Shrinks :
    (utf8 : ℕ → Bytes) (limit : ℕ) (s : Bytes) → Shrinks (suc (length s)) (get_hex utf8 limit s)
unfolding get_hex
get_hex-Shrinks utf8 limit s = go (read_hex limit 0 0 s) (read_hex-Left limit 0 0 s)
  where
    go :
        (o : Option (ℕ × Bytes))
        → Left (length s) o
        → Shrinks (suc (length s)) (elim o [
          | none ↦ illegal
          | some (n, rest) ↦ bytes (if ltb n 255 then n ∷ [] else utf8 (n % 2 ^ 16)) rest
        ])
    go none h = tt
    go (some (n, rest)) h = omega (arith, h)

Shrinks-if :
    (n : ℕ) (b : Bool) (x y : Piece) → Shrinks n x → Shrinks n y → Shrinks n (if b then x else y)
Shrinks-if n true x y h k = h
Shrinks-if n false x y h k = k

Shrinks-mono : (m n : ℕ) (p : Piece) → m ≤ n → Shrinks m p → Shrinks n p
Shrinks-mono m n illegal le h = tt
Shrinks-mono m n (closed rest) le h = omega (arith, le, h)
Shrinks-mono m n (bytes p rest) le h = omega (arith, le, h)

octal_third-Shrinks : (n : ℕ) (s : Bytes) → Shrinks (suc (length s)) (octal_third n s)
octal_third-Shrinks n [] = omega arith
octal_third-Shrinks n (c ∷ s) =
    Shrinks-if (suc (length (c ∷ s))) (is_octal c) _ _ (omega arith) (omega arith)

octal_second-Shrinks : (n : ℕ) (s : Bytes) → Shrinks (suc (length s)) (octal_second n s)
octal_second-Shrinks n [] = omega arith
octal_second-Shrinks n (c ∷ s) =
    Shrinks-if (suc (length (c ∷ s))) (is_octal c) (octal_third (n * 8 + (b'\\' - b'0')) s) _
      (Shrinks-mono (suc (length s)) (suc (length (c ∷ s))) (octal_third (n * 8 + (b'\\' - b'0')) s)
        (omega arith) (octal_third-Shrinks (n * 8 + (b'\\' - b'0')) s))
      (omega arith)

read_escape-Shrinks :
    (utf8 : ℕ → Bytes) (c : ℕ) (s : Bytes) → Shrinks (suc (length s)) (read_escape utf8 c s)
unfolding read_escape
read_escape-Shrinks utf8 c s =
    elim (control c)
      as (λ o. Shrinks (suc (length s)) (elim o [
        | some value ↦ bytes (value ∷ []) s
        | none ↦
            if is_octal c
            then octal_second (c - b'0') s
            else if c == b'x'
            then get_hex utf8 0 s
            else if c == b'u'
            then get_hex utf8 4 s
            else if c == b'U'
            then get_hex utf8 8 s
            else illegal
      ])) [
        | some value ↦ omega arith
        | none ↦ Shrinks-if (suc (length s)) (is_octal c) _ _ (octal_second-Shrinks (c - b'0') s) (
            Shrinks-if (suc (length s)) (c == b'x') _ _ (get_hex-Shrinks utf8 0 s) (
              Shrinks-if (suc (length s)) (c == b'u') _ _ (get_hex-Shrinks utf8 4 s)
                (Shrinks-if (suc (length s)) (c == b'U') _ _ (get_hex-Shrinks utf8 8 s) tt)))
      ]

pub read_piece-Shrinks : (utf8 : ℕ → Bytes) (s : Bytes) → Shrinks (length s) (read_piece utf8 s)
unfolding read_piece
read_piece-Shrinks utf8 [] = tt
read_piece-Shrinks utf8 (c ∷ []) = Shrinks-if 1 (c == b'"') _ _ (omega arith) (omega arith)
read_piece-Shrinks utf8 (c ∷ d ∷ s) =
    let n = length (c ∷ d ∷ s) in
    Shrinks-if n (c == b'"') _ _ (omega arith) (
      Shrinks-if n (c == b'\\') (read_escape utf8 d s) _
        (Shrinks-mono (suc (length s)) n (read_escape utf8 d s) (omega arith)
          (read_escape-Shrinks utf8 d s))
        (omega arith))

-- The strings of two runs that have fuel for the whole text are the same.
read_string-fuel :
    (utf8 : ℕ → Bytes) (f g : ℕ) (acc s : Bytes)
    → length s < f
    → length s < g
    → read_string utf8 f acc s ≡ read_string utf8 g acc s
unfolding read_string
read_string-fuel utf8 zero g acc s h k = absurd (omega arith)
read_string-fuel utf8 (suc f) zero acc s h k = absurd (omega arith)
read_string-fuel utf8 (suc f) (suc g) acc s h k =
    go (read_string-fuel utf8 f g) (read_piece utf8 s) (read_piece-Shrinks utf8 s)
  where
    go :
        ((acc' t : Bytes)
          → length t < f
          → length t < g
          → read_string utf8 f acc' t ≡ read_string utf8 g acc' t)
        → (p : Piece) → Shrinks (length s) p
        → ◌≡◌ {A = Option (Bytes × Bytes)}
            (elim p [
              | illegal ↦ none
              | closed rest ↦ if is_empty acc then none else some (acc, rest)
              | bytes q rest ↦ read_string utf8 f (acc ++ q) rest
            ])
            (elim p [
              | illegal ↦ none
              | closed rest ↦ if is_empty acc then none else some (acc, rest)
              | bytes q rest ↦ read_string utf8 g (acc ++ q) rest
            ])
    go ih illegal r = refl
    go ih (closed rest) r = refl
    go ih (bytes q rest) r = ih (acc ++ q) rest (omega (arith, h, r)) (omega (arith, k, r))

read_string-Left :
    (utf8 : ℕ → Bytes) (f : ℕ) (acc s : Bytes) → Left (length s) (read_string utf8 f acc s)
unfolding read_string
read_string-Left utf8 zero acc s = tt
read_string-Left utf8 (suc f) acc s =
    go (read_string-Left utf8 f) (read_piece utf8 s) (read_piece-Shrinks utf8 s)
  where
    go :
        ((acc' t : Bytes) → Left (length t) (read_string utf8 f acc' t))
        → (p : Piece) → Shrinks (length s) p
        → Left (length s) (elim p [
          | illegal ↦ none
          | closed rest ↦ if is_empty acc then none else some (acc, rest)
          | bytes q rest ↦ read_string utf8 f (acc ++ q) rest
        ])
    go ih illegal r = tt
    go ih (closed rest) r =
        Left-if (length s) (is_empty acc) none (some (acc, rest)) tt (omega (arith, r))
    go ih (bytes q rest) r =
        Left-mono (length rest) (length s) (read_string utf8 f (acc ++ q) rest) (omega (arith, r))
          (ih (acc ++ q) rest)

-- What is left behind a string, whose quotation mark has been read.
abbrev pub Short : ℕ → Option (Bytes × Bytes) → Type 0
Short n none = Unit {0}
Short n (some (a, rest)) = length rest < n

Short-Left : (m n : ℕ) (o : Option (Bytes × Bytes)) → m < n → Left m o → Short n o
Short-Left m n none lt h = tt
Short-Left m n (some (a, rest)) lt h = omega (arith, lt, h)

pub get_str-Short : (utf8 : ℕ → Bytes) (s : Bytes) → Short (length s) (get_str utf8 s)
unfolding get_str
get_str-Short utf8 s = go (skip_gap s) (length-skip_gap s)
  where
    go :
        (t : Bytes)
        → length t ≤ length s
        → Short (length s) (elim t [
          | [] ↦ none
          | c ∷ rest ↦ if c == b'"' then read_string utf8 (length rest + 1) [] rest else none
        ])
    go [] h = tt
    go (c ∷ rest) h =
        elim (c == b'"')
          as (λ b.
            Short (length s) (if b then read_string utf8 (length rest + 1) [] rest else none)) [
              | true ↦
                  Short-Left (length rest) (length s) (read_string utf8 (length rest + 1) [] rest)
                    (omega (arith, h)) (read_string-Left utf8 (length rest + 1) [] rest)
              | false ↦ tt
            ]

abbrev pub Rest : ℕ → Option Bytes → Type 0
Rest n none = Unit {0}
Rest n (some rest) = length rest ≤ n

pub get_dem-Rest : (tok : ℕ) (s : Bytes) → Rest (length s) (get_dem tok s)
unfolding get_dem
get_dem-Rest tok s = go (skip_gap s) (length-skip_gap s)
  where
    go :
        (t : Bytes)
        → length t ≤ length s
        → Rest (length s) (elim t [ [] ↦ none | c ∷ rest ↦ if c == tok then some rest else none ])
    go [] h = tt
    go (c ∷ rest) h = elim (c == tok) as (λ b. Rest (length s) (if b then some rest else none)) [
      | true ↦ omega (arith, h)
      | false ↦ tt
    ]
