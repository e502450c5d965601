-- ===== src/Localisation/Po/Progress.antt =====
-- localisation/NSLocalizedCollectionImpl.cpp: each round of `load_po` consumes some of the text, so
-- that the fuel given is enough.
use libappupdater.Localisation.{Collection, assign}
use libappupdater.Localisation.Po.{
  State, open_state, msg_id, plurals, get_tok, Part, bad, nothing, newline, source, translation,
  source_of, translation_of, token_part, po_part, po_loop,
}
use libappupdater.Localisation.Strings.{is_gap, get_str, skip_line, skip_return, Loading}
use libappupdater.Localisation.Strings.Progress.{length-skip_line, length-skip_return}
use libappupdater.Localisation.Strings.Progress.Reads.{Short, get_str-Short}
use libappupdater.Prelude.{
  ℕ, zero, suc, ◌+◌, ◌≤◌, Bytes, Bool, true, false, ◌||◌, [], ◌∷◌, Option, none, some, ◌≡◌, refl,
  arith, ◌==◌, codes, str_eq, length, if◌then◌else◌,
}

-- What is left behind a part.
abbrev Leaves : ℕ → Part → Type 0
Leaves n bad = Unit {0}
Leaves n (nothing rest) = length rest ≤ n
Leaves n (newline rest) = length rest ≤ n
Leaves n (source text rest) = length rest ≤ n
Leaves n (translation state text rest) = length rest ≤ n

Leaves-if :
    (n : ℕ) (b : Bool) (x y : Part) → Leaves n x → Leaves n y → Leaves n (if b then x else y)
Leaves-if n true x y h k = h
Leaves-if n false x y h k = k

length-get_tok : (s : Bytes) → length (get_tok s).1 ≤ length s
unfolding get_tok
length-get_tok [] = omega arith
length-get_tok (c ∷ s) =
    elim (is_gap c || c == 10)
      as (λ b.
        length
          (if◌then◌else◌ {A = Bytes × Bytes} b ([], c ∷ s) (c ∷ (get_tok s).0, (get_tok s).1)).1
        ≤ suc (length s)) [ true ↦ omega arith | false ↦ omega (arith, length-get_tok s) ]

source_of-Leaves :
    (n m : ℕ) (o : Option (Bytes × Bytes)) → m ≤ suc n → Short m o → Leaves n (source_of o)
unfolding source_of
source_of-Leaves n m none le h = tt
source_of-Leaves n m (some (text, rest)) le h = omega (arith, le, h)

translation_of-Leaves :
    (n m : ℕ) (state : State) (o : Option (Bytes × Bytes))
    → m ≤ suc n
    → Short m o
    → Leaves n (translation_of state o)
unfolding translation_of
translation_of-Leaves n m state none le h = tt
translation_of-Leaves n m state (some (text, rest)) le h = omega (arith, le, h)

token_part-Leaves :
    (utf8 : ℕ → Bytes) (n : ℕ) (state : State) (t : Bytes × Bytes)
    → length t.1 ≤ suc n
    → Leaves n (token_part utf8 state t)
unfolding token_part
token_part-Leaves utf8 n msg_id (token, rest) le =
    Leaves-if n (str_eq token (codes "msgstr")) (translation_of open_state (get_str utf8 rest)) _
      (translation_of-Leaves n (length rest) open_state (get_str utf8 rest) le
        (get_str-Short utf8 rest))
      (Leaves-if n (str_eq token (codes "msgid_plural"))
        (translation_of plurals (get_str utf8 rest)) bad
        (translation_of-Leaves n (length rest) plurals (get_str utf8 rest) le
          (get_str-Short utf8 rest))
        tt)
token_part-Leaves utf8 n open_state (token, rest) le =
    Leaves-if n (str_eq token (codes "msgid")) (source_of (get_str utf8 rest)) bad
      (source_of-Leaves n (length rest) (get_str utf8 rest) le (get_str-Short utf8 rest)) tt
token_part-Leaves utf8 n plurals (token, rest) le =
    Leaves-if n (str_eq token (codes "msgid")) (source_of (get_str utf8 rest)) bad
      (source_of-Leaves n (length rest) (get_str utf8 rest) le (get_str-Short utf8 rest)) tt

po_part-Leaves :
    (utf8 : ℕ → Bytes) (state : State) (fresh : Bool) (c : ℕ) (s : Bytes)
    → Leaves (length s) (po_part utf8 state fresh c s)
unfolding po_part
po_part-Leaves utf8 state fresh c s =
    let n = length s in
    Leaves-if n (c == b'#') (nothing (skip_line s)) _ (length-skip_line s) (
      Leaves-if n (is_gap c) (nothing s) _ (omega arith) (
        Leaves-if n (c == 10) (newline (skip_return s)) _ (length-skip_return s) (
          Leaves-if n fresh (token_part utf8 state (get_tok (c ∷ s))) bad
            (token_part-Leaves utf8 n state (get_tok (c ∷ s)) (length-get_tok (c ∷ s))) tt)))

-- The loop of `load_po` has enough fuel: with any two amounts, each at least the length of the
-- text, it ends alike, by the end of the text or by an error in it.
pub po_loop-length :
    (utf8 : ℕ → Bytes) (f g : ℕ) (state : State) (fresh : Bool) (line : ℕ) (id s : Bytes)
    (c : Collection)
    → length s ≤ f
    → length s ≤ g
    → po_loop utf8 f state fresh line id s c ≡ po_loop utf8 g state fresh line id s c
unfolding po_loop
po_loop-length utf8 f g state fresh line id [] c h k = refl
po_loop-length utf8 zero g state fresh line id (x ∷ s) c h k = absurd (omega (arith, h))
po_loop-length utf8 (suc f) zero state fresh line id (x ∷ s) c h k = absurd (omega (arith, k))
po_loop-length utf8 (suc f) (suc g) state fresh line id (x ∷ s) c h k =
    go (po_loop-length utf8 f g) (po_part utf8 state fresh x s)
      (po_part-Leaves utf8 state fresh x s)
  where
    continue : ℕ → Part → Loading
    continue fuel p = elim p [
      | bad ↦ record { ok = false; line_number = line; strings = c }
      | nothing rest ↦ po_loop utf8 fuel state fresh line id rest c
      | newline rest ↦ po_loop utf8 fuel state true (line + 1) id rest c
      | source text rest ↦ po_loop utf8 fuel msg_id false line text rest c
      | translation next text rest ↦ po_loop utf8 fuel next false line id rest (assign id text c)
    ]

    go :
        ((state' : State) (fresh' : Bool) (line' : ℕ) (id' t : Bytes) (c' : Collection)
          → length t ≤ f
          → length t ≤ g
          → po_loop utf8 f state' fresh' line' id' t c'
            ≡ po_loop utf8 g state' fresh' line' id' t c')
        → (p : Part) → Leaves (length s) p
        → continue f p ≡ continue g p
    go ih bad r = refl
    go ih (nothing rest) r =
        ih state fresh line id rest c (omega (arith, h, r)) (omega (arith, k, r))
    go ih (newline rest) r =
        ih state true (line + 1) id rest c (omega (arith, h, r)) (omega (arith, k, r))
    go ih (source text rest) r =
        ih msg_id false line text rest c (omega (arith, h, r)) (omega (arith, k, r))
    go ih (translation next text rest) r =
        ih next false line id rest (assign id text c) (omega (arith, h, r)) (omega (arith, k, r))
