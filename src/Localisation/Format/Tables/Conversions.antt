-- ===== src/Localisation/Format/Tables/Conversions.antt =====
-- localisation/NSFormat.cpp: the parts of a conversion and the table of types.
use libappupdater.Localisation.Format.Letters.{ArgType, t_int, Flags}
use libappupdater.Localisation.Format.{
  Next, ends, goes_on, go_on, after_digits, position_or_width, known_size,
}
use libappupdater.Localisation.Format.Fields.{
  append_digits, Conversion, Scan, stuck, failed, done, converted, add_star, at_dollar, within,
  starts_with, set_star, add_type, edit_flags, no_conversion, set_position, set_width,
}
use libappupdater.Prelude.{
  ℕ, suc, ◌+◌, ◌-◌, ◌*◌, ◌≤◌, ◌<◌, Bytes, Bool, true, false, List, [], ◌∷◌, All, Option, none, some,
  ltb, leb, ◌==◌, length, if◌then◌else◌, ◌≡◌, refl, sym, subst, arith, is_digit, not,
}

-- The types have been written for the arguments below `n`, from 1 on, each once and in order.
abbrev pub Consecutive : ℕ → List (ℕ × ArgType) → Type 0
Consecutive n [] = n ≡ 1
Consecutive n ((i, t) ∷ ws) = (suc i ≡ n) × Consecutive i ws

abbrev pub NoDollar : Bytes → Type 0
NoDollar s = All (λ c. (c == b'$') ≡ false) s

-- A conversion that is read, with room for one argument more, and one that may have none left.
pub record Ready (low argno : ℕ) (v : Conversion) : Type 0 where
  pub ordered : Consecutive v.nextarg v.writes
  pub room : v.nextarg < argno
  pub above : low ≤ v.nextarg

pub record Fine (low argno : ℕ) (v : Conversion) : Type 0 where
  pub ordered : Consecutive v.nextarg v.writes
  pub bounded : v.nextarg ≤ argno
  pub above : low ≤ v.nextarg

-- What is left of a format of some length without a dollar sign.
pub record Rest (n : ℕ) (s : Bytes) : Type 0 where
  pub short : length s ≤ n
  pub plain : NoDollar s

abbrev pub IsFine : ℕ → ℕ → ℕ → Scan → Type 0
IsFine low argno n stuck = ⊥
IsFine low argno n (failed v) = Fine low argno v
IsFine low argno n (done v) = Fine low argno v
IsFine low argno n (converted s v) = Rest n s × Fine low argno v

-- The same, before another letter is read.
abbrev pub IsReady : ℕ → ℕ → ℕ → Next → Type 0
IsReady low argno n (ends r) = IsFine low argno (suc n) r
IsReady low argno n (goes_on s v) = Rest n s × Ready low argno v

pub Ready-Fine : (low argno : ℕ) (v : Conversion) → Ready low argno v → Fine low argno v
Ready-Fine low argno v h = record {
  ordered = h.ordered;
  bounded = omega (arith, h.room);
  above = omega (arith, h.above);
}

pub Rest-mono : (m n : ℕ) (s : Bytes) → m ≤ n → Rest m s → Rest n s
Rest-mono m n s le h = record { short = omega (arith, le, h.short); plain = h.plain }

pub Rest-tail : (n c : ℕ) (s : Bytes) → Rest (suc n) (c ∷ s) → Rest n s
Rest-tail n c s h = record { short = omega (arith, h.short); plain = h.plain.1 }

abbrev pub DigitsLeft : ℕ → Option (ℕ × Bytes) → Type 0
DigitsLeft n none = Unit {0}
DigitsLeft n (some (k, rest)) = Rest n rest

DigitsLeft-if :
    (n : ℕ) (b : Bool) (x y : Option (ℕ × Bytes))
    → DigitsLeft n x
    → DigitsLeft n y
    → DigitsLeft n (if b then x else y)
DigitsLeft-if n true x y h k = h
DigitsLeft-if n false x y h k = k

pub append_digits-Left : (n k : ℕ) (s : Bytes) → Rest n s → DigitsLeft n (append_digits k s)
unfolding append_digits
append_digits-Left n k [] h = h
append_digits-Left n k (c ∷ s) h = DigitsLeft-if n (not (is_digit c)) _ _ h (
    DigitsLeft-if n (ltb 214748364 k) none _ tt (
      DigitsLeft-if n (ltb (2147483647 - (c - b'0')) (k * 10)) none _ tt (
        append_digits-Left n (k * 10 + (c - b'0')) s
          record { short = omega (arith, h.short); plain = h.plain.1 })))

-- There is no position behind a number.
at_dollar-none : (n : ℕ) (s : Bytes) → Rest n s → at_dollar s ≡ none
at_dollar-none n [] h = refl
at_dollar-none n (c ∷ s) h = ground (arith, h.plain.0)

pub add_star-IsFine :
    (low argno n : ℕ) (is_width : Bool) (s : Bytes) (v : Conversion)
    → Rest n s
    → Ready low argno v
    → IsReady low argno n (go_on (add_star argno is_width s v))
unfolding add_star
add_star-IsFine low argno n is_width s v r h = go (append_digits 0 s) (append_digits-Left n 0 s r)
  where
    next : Conversion
    next = add_type t_int (record v { field = set_star is_width v.nextarg v.field })

    last :
        (b : Bool)
        → leb argno (v.nextarg + 1) ≡ b
        → IsReady low argno n (go_on (if b then done next else converted s next))
    last true e = record {
      ordered = (omega arith, h.ordered);
      bounded = omega (arith, h.room);
      above = omega (arith, h.above);
    }
    last false e = (
      r,
      record {
        ordered = (omega arith, h.ordered);
        room = ground (arith, e);
        above = omega (arith, h.above);
      },
    )

    go :
        (o : Option (ℕ × Bytes))
        → DigitsLeft n o
        → IsReady low argno n (
            go_on (elim o [
              | none ↦ failed v
              | some (k, rest) ↦ elim (at_dollar rest) [
                | some rest' ↦
                    if leb argno k
                    then done (record v { nextarg = k })
                    else within argno rest' (record v {
                      field = set_star is_width k v.field;
                      writes = (k, t_int) ∷ v.writes;
                    })
                | none ↦ within argno s next
              ]
            ]))
    go none d = Ready-Fine low argno v h
    go (some (k, rest)) d =
        subst
          (λ o. IsReady low argno n (
            go_on (elim o [
              | some rest' ↦
                  if leb argno k
                  then done (record v { nextarg = k })
                  else within argno rest' (record v {
                    field = set_star is_width k v.field;
                    writes = (k, t_int) ∷ v.writes;
                  })
              | none ↦ within argno s next
            ])))
          (sym (at_dollar-none n rest d)) (last (leb argno (v.nextarg + 1)) refl)

-- A write of one argument more, whatever becomes of the field.
add_type-Fine :
    (low argno : ℕ) (t : ArgType) (v : Conversion)
    → Ready low argno v
    → Fine low argno (add_type t v)
add_type-Fine low argno t v h = record {
  ordered = (omega arith, h.ordered);
  bounded = omega (arith, h.room);
  above = omega (arith, h.above);
}

-- What follows a letter that may stand before `s`, and its rest.
pub starts_with-Rest :
    (n x : ℕ) (s : Bytes) (P : Option Bytes → Type 0)
    → Rest n s
    → P none
    → ((rest : Bytes) → Rest n rest → P (some rest))
    → P (starts_with x s)
starts_with-Rest n x [] P r h k = h
starts_with-Rest n x (c ∷ s) P r h k = elim (c == x) as (λ b. P (if b then some s else none)) [
  | true ↦ k s record { short = omega (arith, r.short); plain = r.plain.1 }
  | false ↦ h
]

pub after_digits-IsReady :
    (low argno n : ℕ) (v : Conversion) (k : ℕ → Bytes → Next) (o : Option (ℕ × Bytes))
    → Ready low argno v
    → DigitsLeft n o
    → ((i : ℕ) (rest : Bytes) → Rest n rest → IsReady low argno n (k i rest))
    → IsReady low argno n (after_digits v k o)
after_digits-IsReady low argno n v k none h d f = Ready-Fine low argno v h
after_digits-IsReady low argno n v k (some (i, rest)) h d f = f i rest d

-- A conversion that goes on with other flags, and one that ends without an argument.
pub edit_flags-Ready :
    (low argno : ℕ) (e : Flags → Flags) (v : Conversion)
    → Ready low argno v
    → Ready low argno (edit_flags e v)
edit_flags-Ready low argno e v h = record { ordered = h.ordered; room = h.room; above = h.above }

pub no_conversion-Fine :
    (low argno : ℕ) (v : Conversion) → Ready low argno v → Fine low argno (no_conversion v)
no_conversion-Fine low argno v h = record {
  ordered = h.ordered;
  bounded = omega (arith, h.room);
  above = omega (arith, h.above);
}

pub known_size-IsReady :
    (low argno n : ℕ) (s rest : Bytes) (v : Conversion) (k : ℕ)
    → Rest n s
    → Rest n rest
    → Ready low argno v
    → IsReady low argno n (known_size s v k rest)
known_size-IsReady low argno n s rest v k r d h = go (k == 64) (k == 32)
  where
    go :
        (a b : Bool)
        → IsReady low argno n (
            if a
            then goes_on rest (edit_flags (λ f. record f { isz = true; llongint = true }) v)
            else if b
            then goes_on rest (edit_flags (λ f. record f { isz = true; longint = true }) v)
            else ends (converted s (no_conversion v)))
    go true b = (d, edit_flags-Ready low argno (λ f. record f { isz = true; llongint = true }) v h)
    go false true =
        (d, edit_flags-Ready low argno (λ f. record f { isz = true; longint = true }) v h)
    go false false = (Rest-mono n (suc n) s (omega arith) r, no_conversion-Fine low argno v h)

-- A number that no dollar sign follows is a width.
pub position_or_width-IsReady :
    (low argno n : ℕ) (v : Conversion) (k : ℕ) (rest : Bytes)
    → Ready low argno v
    → Rest n rest
    → IsReady low argno n (position_or_width v k rest)
position_or_width-IsReady low argno n v k rest h r =
    subst
      (λ o. IsReady low argno n (elim o [
        | some rest' ↦ goes_on rest' (set_position k v)
        | none ↦ goes_on rest (set_width k v)
      ]))
      (sym (at_dollar-none n rest r))
      (r, record { ordered = h.ordered; room = h.room; above = h.above })
