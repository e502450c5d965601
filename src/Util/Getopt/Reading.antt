-- ===== src/Util/Getopt/Reading.antt =====
-- util/upgetopt.cpp: what the loop over `Getopt` reads from a command line.
use libappupdater.Prelude.{
  ℕ, zero, suc, ◌+◌, ◌<◌, Bytes, Bool, true, false, List, [], ◌∷◌, Option, none, some, ◌==◌,
  get_elem?, is_empty, length, drop, if◌then◌else◌, ◌≡◌, ◌≢◌, refl, sym, ap, subst, ◌∙◌, arith, inl,
  inr, ◌⊎◌,
}
use libappupdater.Util.Getopt.{
  Scanner, Answer, eof, bad_option, option, Kind, illegal, flag, takes_argument, kind, passed,
  read_argument, read_letter, next_argument, getopt, Item, item_of, with_item, getopt_loop,
}
use libappupdater.Util.Getopt.CommandLine.{
  Reads, at_end, operand, dashes, letters, unknown, single, attached, separate, missing, behind,
  size, left_of,
}

get_elem?-drop :
    (args : List Bytes) (i : ℕ)
    → ((get_elem? args i ≡ none) × (drop i args ≡ []))
      ⊎ ((a : Bytes) × (get_elem? args i ≡ some a) × (drop i args ≡ a ∷ drop (i + 1) args))
get_elem?-drop [] zero = inl (refl, refl)
get_elem?-drop [] (suc i) = inl (refl, refl)
get_elem?-drop (a ∷ args) zero = inr (a, refl, refl)
get_elem?-drop (a ∷ args) (suc i) = elim (get_elem?-drop args i) [
  | inl h ↦ inl h
  | inr (x, e, d) ↦
      inr
        (x, e, d ∙ ap (λ n. x ∷ drop n (a ∷ args)) {x = suc (i + 1)} {y = suc i + 1} (omega arith))
]

-- What a call that answers an option does, at letters `p` before the arguments `rest`.
record Advances (args : List Bytes) (ostr p : Bytes) (rest : List Bytes) (r : Answer × Scanner)
    : Type 0 where
  answered : r.0 ≢ eof
  less : left_of args r.1 < length p + size rest
  reads :
      (items : List Item) (ops : List Bytes)
      → Reads ostr r.1.place (behind args r.1.place r.1.optind) items ops
      → Reads ostr p rest (item_of r ∷ items) ops

read_argument-Advances :
    (args : List Bytes) (ostr : Bytes) (c : ℕ) (s : Scanner)
    → kind ostr c ≡ takes_argument
    → Advances args ostr (c ∷ s.place) (drop (s.optind + 1) args) (read_argument args c s)
unfolding read_argument
read_argument-Advances args ostr c s k = go s.place
  where
    result : Bytes → Answer × Scanner
    result p =
        if is_empty p
        then elim (get_elem? args (s.optind + 1)) [
          | none ↦ (bad_option, record s { optind = s.optind + 1; place = [] })
          | some arg ↦ (option c, record s { optind = s.optind + 2; place = []; optarg = some arg })
        ]
        else (option c, record s { optind = s.optind + 1; place = []; optarg = some p })

    two : drop (s.optind + 2) args ≡ drop (s.optind + 1 + 1) args
    two = ap (λ n. drop n args) (omega arith)

    go : (p : Bytes) → Advances args ostr (c ∷ p) (drop (s.optind + 1) args) (result p)
    go (x ∷ p) = record {
      answered = λ q. ground (arith, q);
      less = omega arith;
      reads = λ items ops h. attached k h;
    }
    go [] = elim (get_elem?-drop args (s.optind + 1)) [
      | inl (e, d) ↦
          rw (e, d)
            record {
              answered = λ q. ground (arith, q);
              less = omega (arith, ap size d);
              reads = λ items ops h. missing k (subst (λ r. Reads ostr [] r items ops) d h);
            }
      | inr (a, e, d) ↦
          rw (e, d)
            record {
              answered = λ q. ground (arith, q);
              less = omega (arith, ap size two);
              reads = λ items ops h. separate k (subst (λ r. Reads ostr [] r items ops) two h);
            }
    ]

behind-passed :
    (args : List Bytes) (p : Bytes) (i : ℕ) → behind args p (passed p i) ≡ drop (i + 1) args
behind-passed args [] i = refl
behind-passed args (x ∷ p) i = refl

read_letter-Advances :
    (args : List Bytes) (ostr : Bytes) (c : ℕ) (s : Scanner)
    → Advances args ostr (c ∷ s.place) (drop (s.optind + 1) args) (read_letter args ostr c s)
unfolding read_letter
read_letter-Advances args ostr c s = go (kind ostr c) refl
  where
    b : behind args s.place (passed s.place s.optind) ≡ drop (s.optind + 1) args
    b = behind-passed args s.place s.optind

    result : Kind → Answer × Scanner
    result k = elim k [
      | illegal ↦ (bad_option, record s { optind = passed s.place s.optind; optopt = c })
      | flag ↦ (option c, record s { optind = passed s.place s.optind; optarg = none; optopt = c })
      | takes_argument ↦ read_argument args c (record s { optopt = c })
    ]

    go :
        (k : Kind)
        → kind ostr c ≡ k
        → Advances args ostr (c ∷ s.place) (drop (s.optind + 1) args) (result k)
    go illegal e = record {
      answered = λ q. ground (arith, q);
      less = omega (arith, ap size b);
      reads = λ items ops h. unknown e (subst (λ r. Reads ostr s.place r items ops) b h);
    }
    go flag e = record {
      answered = λ q. ground (arith, q);
      less = omega (arith, ap size b);
      reads = λ items ops h. single e (subst (λ r. Reads ostr s.place r items ops) b h);
    }
    go takes_argument e = read_argument-Advances args ostr c (record s { optopt = c }) e

-- What a call does: it ends the options, or it answers one.
abbrev Steps : List Bytes → Bytes → Bytes → List Bytes → Answer × Scanner → Type 0
Steps args ostr p rest r =
    ((r.0 ≡ eof) × Reads ostr p rest [] (drop r.1.optind args)) ⊎ Advances args ostr p rest r

next_argument-Steps :
    (args : List Bytes) (ostr : Bytes) (s : Scanner) (arg : Bytes)
    → drop s.optind args ≡ arg ∷ drop (s.optind + 1) args
    → Steps args ostr [] (arg ∷ drop (s.optind + 1) args) (next_argument args ostr s arg)
unfolding next_argument
next_argument-Steps args ostr s [] d =
    inl
      (refl, subst (λ r. Reads ostr [] ([] ∷ drop (s.optind + 1) args) [] r) (sym d) (operand refl))
next_argument-Steps args ostr s (x ∷ []) d = inl (
  refl,
  subst (λ r. Reads ostr [] ((x ∷ []) ∷ drop (s.optind + 1) args) [] r) (sym d) (operand refl),
)
next_argument-Steps args ostr s (x ∷ c ∷ p) d = go (x == b'-') refl (c == b'-') refl
  where
    rest : List Bytes
    rest = drop (s.optind + 1) args

    letter : Answer × Scanner
    letter = read_letter args ostr c (record s { place = p })

    result : Bool → Bool → Answer × Scanner
    result a b =
        if a
        then if b then (eof, record s { optind = s.optind + 1; place = c ∷ p }) else letter
        else (eof, record s { place = x ∷ c ∷ p })

    dash : (y z : ℕ) → (y == z) ≡ true → y ≡ z
    dash y z h = ground (arith, h)

    not_operand : Bool → Bool
    not_operand a = if a then false else true

    go :
        (a : Bool)
        → (x == b'-') ≡ a
        → (b : Bool) → (c == b'-') ≡ b
        → Steps args ostr [] ((x ∷ c ∷ p) ∷ rest) (result a b)
    go true e true f =
        subst (λ y. Steps args ostr [] ((y ∷ c ∷ p) ∷ rest) (result true true))
          (sym (dash x b'-' e))
          (subst (λ y. Steps args ostr [] ((b'-' ∷ y ∷ p) ∷ rest) (result true true))
            (sym (dash c b'-' f)) (inl (refl, dashes)))
    go true e false f =
        let l = read_letter-Advances args ostr c (record s { place = p }) in
        subst (λ y. Steps args ostr [] ((y ∷ c ∷ p) ∷ rest) letter) (sym (dash x b'-' e))
          (inr record {
            answered = l.answered;
            less = omega (arith, l.less);
            reads = λ items ops h. letters f (l.reads items ops h);
          })
    go false e b f = inl (
      refl,
      subst (λ r. Reads ostr [] ((x ∷ c ∷ p) ∷ rest) [] r) (sym d) (operand (ap not_operand e)),
    )

getopt-Steps :
    (args : List Bytes) (ostr : Bytes) (s : Scanner)
    → Steps args ostr s.place (behind args s.place s.optind) (getopt args ostr s)
unfolding getopt
getopt-Steps args ostr s = go s.place
  where
    result : Bytes → Answer × Scanner
    result p = elim p [
      | [] ↦ elim (get_elem? args s.optind) [
        | none ↦ (eof, s)
        | some arg ↦ next_argument args ostr s arg
      ]
      | c ∷ q ↦ read_letter args ostr c (record s { place = q })
    ]

    first : Option Bytes → Answer × Scanner
    first o = elim o [ none ↦ (eof, s) | some arg ↦ next_argument args ostr s arg ]

    go : (p : Bytes) → Steps args ostr p (behind args p s.optind) (result p)
    go (c ∷ q) = inr (read_letter-Advances args ostr c (record s { place = q }))
    go [] = elim (get_elem?-drop args s.optind) [
      | inl (e, d) ↦
          subst (λ o. Steps args ostr [] (drop s.optind args) (first o)) (sym e)
            (inl (refl, subst (λ r. Reads ostr [] r [] r) (sym d) at_end))
      | inr (a, e, d) ↦
          subst (λ o. Steps args ostr [] (drop s.optind args) (first o)) (sym e)
            (subst (λ l. Steps args ostr [] l (next_argument args ostr s a)) (sym d)
              (next_argument-Steps args ostr s a d))
    ]

-- The loop over `Getopt` ends, with enough fuel for the letters and arguments that are left, and
-- gives the options that the command line has, in order; `optind` is then at the operands.
pub getopt_loop-Reads :
    (fuel : ℕ) (args : List Bytes) (ostr : Bytes) (s : Scanner)
    → left_of args s < fuel
    → (r : List Item × Scanner) × (getopt_loop fuel args ostr s ≡ some r)
      × Reads ostr s.place (behind args s.place s.optind) r.0 (drop r.1.optind args)
unfolding getopt_loop
getopt_loop-Reads zero args ostr s h = absurd (omega (arith, h))
getopt_loop-Reads (suc fuel) args ostr s h =
    go (getopt_loop-Reads fuel args ostr) (getopt args ostr s) (getopt-Steps args ostr s)
  where
    result : Answer × Scanner → Option (List Item × Scanner)
    result r =
        let more = with_item (item_of r) (getopt_loop fuel args ostr r.1) in
        elim r.0 [ eof ↦ some ([], r.1) | bad_option ↦ more | option c ↦ more ]

    Ends : Answer × Scanner → Type 0
    Ends r =
        (q : List Item × Scanner) × (result r ≡ some q)
        × Reads ostr s.place (behind args s.place s.optind) q.0 (drop q.1.optind args)

    more :
        ((s' : Scanner)
          → left_of args s' < fuel
          → (q : List Item × Scanner) × (getopt_loop fuel args ostr s' ≡ some q)
            × Reads ostr s'.place (behind args s'.place s'.optind) q.0 (drop q.1.optind args))
        → (r : Answer × Scanner) → result r ≡ with_item (item_of r) (getopt_loop fuel args ostr r.1)
        → Advances args ostr s.place (behind args s.place s.optind) r
        → Ends r
    more ih r e a =
        let (q, f, d) = ih r.1 (omega (arith, a.less, h)) in
        (
          (item_of r ∷ q.0, q.1),
          e ∙ ap (with_item (item_of r)) f,
          a.reads q.0 (drop q.1.optind args) d,
        )

    go :
        ((s' : Scanner)
          → left_of args s' < fuel
          → (q : List Item × Scanner) × (getopt_loop fuel args ostr s' ≡ some q)
            × Reads ostr s'.place (behind args s'.place s'.optind) q.0 (drop q.1.optind args))
        → (r : Answer × Scanner) → Steps args ostr s.place (behind args s.place s.optind) r
        → Ends r
    go ih (eof, s') (inl (e, d)) = (([], s'), refl, d)
    go ih (eof, s') (inr a) = absurd (a.answered refl)
    go ih (bad_option, s') (inl (e, d)) = absurd (ground (arith, e))
    go ih (bad_option, s') (inr a) = more ih (bad_option, s') refl a
    go ih (option c, s') (inl (e, d)) = absurd (ground (arith, e))
    go ih (option c, s') (inr a) = more ih (option c, s') refl a
