-- ===== src/Localisation/Strings/Progress.antt =====
-- localisation/NSLocalizedCollectionImpl.cpp: each round of `load_strings` consumes some of the
-- text, so that the fuel given is enough.
pub mod Reads
use libappupdater.CLib.{digit_value}
use libappupdater.Localisation.{Collection, assign}
use libappupdater.Localisation.Strings.{
  is_gap, skip_gap, get_dem, read_hex, Piece, illegal, closed, bytes, get_hex, control, is_octal,
  octal_second, octal_third, read_escape, read_piece, read_string, get_str, skip_line, skip_block,
  Found, bad, nothing, newline, entry, get_value, get_entry, get_comment, skip_return, get_part,
  Loading, load_loop, load_strings,
}
use libappupdater.Prelude.{
  ℕ, zero, suc, ◌+◌, ◌*◌, ◌-◌, ◌%◌, ◌^◌, ◌≤◌, ◌<◌, Bytes, Bool, true, false, not, ◌&&◌, ◌||◌, [],
  ◌∷◌, ◌++◌, Option, none, some, ◌≡◌, refl, sym, subst, ◌∙◌, arith, ltb, leb, ◌==◌, is_empty,
  length, if◌then◌else◌, Bool-cases, Option-cases, inl, inr,
}
use libappupdater.Localisation.Strings.Progress.Reads.{
  Short, Rest, get_str-Short, get_dem-Rest, Shrinks, read_piece-Shrinks,
}

-- What is left behind a part.
abbrev Follows : ℕ → Found → Type 0
Follows n bad = Unit {0}
Follows n (nothing rest) = length rest ≤ n
Follows n (newline rest) = length rest ≤ n
Follows n (entry key value rest) = length rest ≤ n

Follows-mono : (m n : ℕ) (p : Found) → m ≤ n → Follows m p → Follows n p
Follows-mono m n bad le h = tt
Follows-mono m n (nothing rest) le h = omega (arith, le, h)
Follows-mono m n (newline rest) le h = omega (arith, le, h)
Follows-mono m n (entry key value rest) le h = omega (arith, le, h)

Follows-if :
    (n : ℕ) (b : Bool) (x y : Found) → Follows n x → Follows n y → Follows n (if b then x else y)
Follows-if n true x y h k = h
Follows-if n false x y h k = k

get_value-Follows : (utf8 : ℕ → Bytes) (key s : Bytes) → Follows (length s) (get_value utf8 key s)
unfolding get_value
get_value-Follows utf8 key s = go (get_str utf8 s) (get_str-Short utf8 s)
  where
    end :
        (value rest : Bytes)
        → length rest < length s
        → (o : Option Bytes) → Rest (length rest) o
        → Follows (length s) (elim o [ none ↦ bad | some rest' ↦ entry key value rest' ])
    end value rest h none k = tt
    end value rest h (some rest') k = omega (arith, h, k)

    go :
        (o : Option (Bytes × Bytes))
        → Short (length s) o
        → Follows (length s) (elim o [
          | none ↦ bad
          | some (value, rest) ↦ elim (get_dem b';' rest) [
            | none ↦ bad
            | some rest' ↦ entry key value rest'
          ]
        ])
    go none h = tt
    go (some (value, rest)) h = end value rest h (get_dem b';' rest) (get_dem-Rest b';' rest)

get_entry-Follows :
    (utf8 : ℕ → Bytes) (n : ℕ) (s : Bytes) → length s ≤ suc n → Follows n (get_entry utf8 s)
unfolding get_entry
get_entry-Follows utf8 n s le = go (get_str utf8 s) (get_str-Short utf8 s)
  where
    end :
        (key rest : Bytes)
        → length rest < length s
        → (o : Option Bytes) → Rest (length rest) o
        → Follows n (elim o [ none ↦ bad | some rest' ↦ get_value utf8 key rest' ])
    end key rest h none k = tt
    end key rest h (some rest') k =
        Follows-mono (length rest') n (get_value utf8 key rest') (omega (arith, h, k, le))
          (get_value-Follows utf8 key rest')

    go :
        (o : Option (Bytes × Bytes))
        → Short (length s) o
        → Follows n (elim o [
          | none ↦ bad
          | some (key, rest) ↦ elim (get_dem b'=' rest) [
            | none ↦ bad
            | some rest' ↦ get_value utf8 key rest'
          ]
        ])
    go none h = tt
    go (some (key, rest)) h = end key rest h (get_dem b'=' rest) (get_dem-Rest b'=' rest)

pub length-skip_line : (s : Bytes) → length (skip_line s) ≤ length s
unfolding skip_line
length-skip_line [] = omega arith
length-skip_line (c ∷ s) = ground (arith, length-skip_line s)

length-skip_block : (s : Bytes) → length (skip_block s) ≤ length s
unfolding skip_block
length-skip_block [] = omega arith
length-skip_block (c ∷ []) = omega arith
length-skip_block (c ∷ d ∷ s) = ground (arith, length-skip_block (d ∷ s))

get_comment-Follows : (s : Bytes) → Follows (length s) (get_comment s)
unfolding get_comment
get_comment-Follows [] = tt
get_comment-Follows (c ∷ s) =
    Follows-if (length (c ∷ s)) (c == b'/') _ _ (omega (arith, length-skip_line s))
      (Follows-if (length (c ∷ s)) (c == b'*') _ bad (omega (arith, length-skip_block s)) tt)

pub length-skip_return : (s : Bytes) → length (skip_return s) ≤ length s
unfolding skip_return
length-skip_return [] = omega arith
length-skip_return (c ∷ s) = ground arith

get_part-Follows :
    (utf8 : ℕ → Bytes) (fresh : Bool) (c : ℕ) (s : Bytes)
    → Follows (length s) (get_part utf8 fresh c s)
unfolding get_part
get_part-Follows utf8 fresh c s =
    let n = length s in
    Follows-if n (c == b'/') (get_comment s) _ (get_comment-Follows s) (
      Follows-if n (is_gap c) (nothing s) _ (omega arith) (
        Follows-if n (c == 10) (newline (skip_return s)) _ (length-skip_return s) (
          Follows-if n (c == b'"' && fresh) (get_entry utf8 (c ∷ s)) bad
            (get_entry-Follows utf8 n (c ∷ s) (omega arith)) tt)))

-- What a round does with the part that it finds.
continue : (ℕ → Bytes) → ℕ → Bool → ℕ → Collection → Found → Loading
unfolding load_loop
continue utf8 fuel fresh line c bad = record { ok = false; line_number = line; strings = c }
continue utf8 fuel fresh line c (nothing rest) = load_loop utf8 fuel fresh line rest c
continue utf8 fuel fresh line c (newline rest) = load_loop utf8 fuel true (line + 1) rest c
continue utf8 fuel fresh line c (entry key value rest) =
    load_loop utf8 fuel false line rest (assign key value c)

load_loop-continue :
    (utf8 : ℕ → Bytes) (fuel : ℕ) (fresh : Bool) (line x : ℕ) (s : Bytes) (c : Collection)
    → load_loop utf8 (suc fuel) fresh line (x ∷ s) c
      ≡ continue utf8 fuel fresh line c (get_part utf8 fresh x s)
unfolding load_loop continue
load_loop-continue utf8 fuel fresh line x s c = go (get_part utf8 fresh x s)
  where
    go :
        (p : Found)
        → ◌≡◌ {A = Loading}
            (elim p [
              | bad ↦ record { ok = false; line_number = line; strings = c }
              | nothing rest ↦ load_loop utf8 fuel fresh line rest c
              | newline rest ↦ load_loop utf8 fuel true (line + 1) rest c
              | entry key value rest ↦ load_loop utf8 fuel false line rest (assign key value c)
            ])
            (continue utf8 fuel fresh line c p)
    go bad = refl
    go (nothing rest) = refl
    go (newline rest) = refl
    go (entry key value rest) = refl

-- A run of the loop of `get_str`: its rounds, up to the closing quotation mark or an error.
pub data StringRun (utf8 : ℕ → Bytes) : Bytes → Bytes → Option (Bytes × Bytes) → Type 0 where
  stopped : {acc s : Bytes} → read_piece utf8 s ≡ illegal → StringRun utf8 acc s none
  ended :
      {acc s rest : Bytes}
      → read_piece utf8 s ≡ closed rest
      → StringRun utf8 acc s (if is_empty acc then none else some (acc, rest))
  went_on :
      {acc s q rest : Bytes} {o : Option (Bytes × Bytes)}
      → read_piece utf8 s ≡ bytes q rest
      → StringRun utf8 (acc ++ q) rest o
      → StringRun utf8 acc s o

-- A run of the loop of `load_strings`: its rounds, up to the end of the text or an error.
pub data LoadRun (utf8 : ℕ → Bytes) : Bool → ℕ → Bytes → Collection → Loading → Type 0 where
  at_end :
      {fresh : Bool} {line : ℕ} {c : Collection}
      → LoadRun utf8 fresh line [] c (record { ok = true; line_number = line; strings = c })
  failed :
      {fresh : Bool} {line x : ℕ} {s : Bytes} {c : Collection}
      → get_part utf8 fresh x s ≡ bad
      → LoadRun utf8 fresh line (x ∷ s) c (record { ok = false; line_number = line; strings = c })
  passed :
      {fresh : Bool} {line x : ℕ} {s rest : Bytes} {c : Collection} {l : Loading}
      → get_part utf8 fresh x s ≡ nothing rest
      → LoadRun utf8 fresh line rest c l
      → LoadRun utf8 fresh line (x ∷ s) c l
  next_line :
      {fresh : Bool} {line x : ℕ} {s rest : Bytes} {c : Collection} {l : Loading}
      → get_part utf8 fresh x s ≡ newline rest
      → LoadRun utf8 true (line + 1) rest c l
      → LoadRun utf8 fresh line (x ∷ s) c l
  took :
      {fresh : Bool} {line x : ℕ} {s rest key value : Bytes} {c : Collection} {l : Loading}
      → get_part utf8 fresh x s ≡ entry key value rest
      → LoadRun utf8 false line rest (assign key value c) l
      → LoadRun utf8 fresh line (x ∷ s) c l

read_string-StringRun :
    (utf8 : ℕ → Bytes) (f : ℕ) (acc s : Bytes)
    → length s < f
    → StringRun utf8 acc s (read_string utf8 f acc s)
unfolding read_string
read_string-StringRun utf8 zero acc s h = absurd (omega arith)
read_string-StringRun utf8 (suc f) acc s h =
    go (read_string-StringRun utf8 f) (read_piece utf8 s) refl (read_piece-Shrinks utf8 s)
  where
    go :
        ((acc' t : Bytes) → length t < f → StringRun utf8 acc' t (read_string utf8 f acc' t))
        → (p : Piece) → read_piece utf8 s ≡ p
        → Shrinks (length s) p
        → StringRun utf8 acc s (elim p [
          | illegal ↦ none
          | closed rest ↦ if is_empty acc then none else some (acc, rest)
          | bytes q rest ↦ read_string utf8 f (acc ++ q) rest
        ])
    go ih illegal e r = stopped e
    go ih (closed rest) e r = ended e
    go ih (bytes q rest) e r = went_on e (ih (acc ++ q) rest (omega (arith, h, r)))

load_loop-LoadRun :
    (utf8 : ℕ → Bytes) (f : ℕ) (fresh : Bool) (line : ℕ) (s : Bytes) (c : Collection)
    → length s ≤ f
    → LoadRun utf8 fresh line s c (load_loop utf8 f fresh line s c)
unfolding load_loop continue
load_loop-LoadRun utf8 f fresh line [] c h = at_end
load_loop-LoadRun utf8 zero fresh line (x ∷ s) c h = absurd (omega (arith, h))
load_loop-LoadRun utf8 (suc f) fresh line (x ∷ s) c h =
    subst (LoadRun utf8 fresh line (x ∷ s) c) (sym (load_loop-continue utf8 f fresh line x s c)) (
      go (load_loop-LoadRun utf8 f) (get_part utf8 fresh x s) refl
        (get_part-Follows utf8 fresh x s))
  where
    go :
        ((fresh' : Bool) (line' : ℕ) (t : Bytes) (c' : Collection)
          → length t ≤ f
          → LoadRun utf8 fresh' line' t c' (load_loop utf8 f fresh' line' t c'))
        → (p : Found) → get_part utf8 fresh x s ≡ p
        → Follows (length s) p
        → LoadRun utf8 fresh line (x ∷ s) c (continue utf8 f fresh line c p)
    go ih bad e r = failed e
    go ih (nothing rest) e r = passed e (ih fresh line rest c (omega (arith, h, r)))
    go ih (newline rest) e r = next_line e (ih true (line + 1) rest c (omega (arith, h, r)))
    go ih (entry key value rest) e r =
        took e (ih false line rest (assign key value c) (omega (arith, h, r)))

load_loop-two :
    (utf8 : ℕ → Bytes) (f g : ℕ) (fresh : Bool) (line : ℕ) (s : Bytes) (c : Collection)
    → length s ≤ f
    → length s ≤ g
    → load_loop utf8 f fresh line s c ≡ load_loop utf8 g fresh line s c
unfolding load_loop continue
load_loop-two utf8 f g fresh line [] c h k = refl
load_loop-two utf8 zero g fresh line (x ∷ s) c h k = absurd (omega (arith, h))
load_loop-two utf8 (suc f) zero fresh line (x ∷ s) c h k = absurd (omega (arith, k))
load_loop-two utf8 (suc f) (suc g) fresh line (x ∷ s) c h k =
    load_loop-continue utf8 f fresh line x s c
    ∙ go (load_loop-two utf8 f g) (get_part utf8 fresh x s) (get_part-Follows utf8 fresh x s)
    ∙ sym (load_loop-continue utf8 g fresh line x s c)
  where
    go :
        ((fresh' : Bool) (line' : ℕ) (t : Bytes) (c' : Collection)
          → length t ≤ f
          → length t ≤ g
          → load_loop utf8 f fresh' line' t c' ≡ load_loop utf8 g fresh' line' t c')
        → (p : Found) → Follows (length s) p
        → continue utf8 f fresh line c p ≡ continue utf8 g fresh line c p
    go ih bad r = refl
    go ih (nothing rest) r = ih fresh line rest c (omega (arith, h, r)) (omega (arith, k, r))
    go ih (newline rest) r = ih true (line + 1) rest c (omega (arith, h, r)) (omega (arith, k, r))
    go ih (entry key value rest) r =
        ih false line rest (assign key value c) (omega (arith, h, r)) (omega (arith, k, r))

-- The loops have enough fuel, whatever the text: the result of `load_strings` is that of a finite run
-- of rounds, up to the end of the text or an error, and is the same with any more fuel; and the loop
-- that reads a string, with the fuel that `get_str` gives or any more, gives the result of a finite
-- run of rounds, up to a quotation mark or an error.
pub load_loop-load_strings :
    (utf8 : ℕ → Bytes) (more : ℕ) (s : Bytes) (c : Collection)
    → LoadRun utf8 true 1 s c (load_strings utf8 s c)
      × (load_loop utf8 (length s + more) true 1 s c ≡ load_strings utf8 s c)
      × ((acc t : Bytes) → StringRun utf8 acc t (read_string utf8 (length t + 1 + more) acc t))
unfolding load_strings
load_loop-load_strings utf8 more s c = (
  load_loop-LoadRun utf8 (length s) true 1 s c (omega arith),
  load_loop-two utf8 (length s + more) (length s) true 1 s c (omega arith) (omega arith),
  λ acc t. read_string-StringRun utf8 (length t + 1 + more) acc t (omega arith),
)
