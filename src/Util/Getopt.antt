-- ===== src/Util/Getopt.antt =====
-- util/upgetopt.cpp: `Getopt` on narrow texts, and the loop in which the tools call it. A text is
-- the bytes before its NUL. The messages on `stderr` are left out.
pub mod CommandLine
pub mod Reading
use libappupdater.Prelude.{
  ℕ, zero, suc, ◌+◌, Bytes, Bool, true, false, ◌||◌, List, [], ◌∷◌, Option, none, some, leb, ◌==◌,
  get_elem?, is_empty, length, if◌then◌else◌,
}

-- `optind`, `place`, `optarg` and `optopt`.
pub record Scanner : Type 0 where
  pub optind : ℕ
  pub place : Bytes
  pub optarg : Option Bytes
  pub optopt : ℕ

-- `EOF`, `OPTBADCH`, or an option.
pub data Answer : Type 0 where
  eof bad_option : Answer
  option : ℕ → Answer

-- `strchr`: what follows the letter in the list.
abbrev pub letters_after : ℕ → Bytes → Option Bytes
letters_after c [] = none
letters_after c (x ∷ s) = if x == c then some s else letters_after c s

-- Whether a letter is an option, and whether it has an argument.
pub data Kind : Type 0 where
  illegal flag takes_argument : Kind

abbrev pub kind_of : Bytes → Kind
kind_of [] = flag
kind_of (c ∷ s) = if c == b':' then takes_argument else flag

unfoldable pub kind : Bytes → ℕ → Kind
kind ostr c =
    if c == b':'
    then illegal
    else elim (letters_after c ostr) [ none ↦ illegal | some rest ↦ kind_of rest ]

-- `if (!*place) ++optind`
abbrev pub passed : Bytes → ℕ → ℕ
passed [] i = i + 1
passed (_ ∷ _) i = i

-- An option with an argument, whose letter has been read from `place`.
unfoldable pub read_argument : List Bytes → ℕ → Scanner → Answer × Scanner
read_argument args c s =
    if is_empty s.place
    then elim (get_elem? args (s.optind + 1)) [
      | none ↦ (bad_option, record s { optind = s.optind + 1; place = [] })
      | some arg ↦ (option c, record s { optind = s.optind + 2; place = []; optarg = some arg })
    ]
    else (option c, record s { optind = s.optind + 1; place = []; optarg = some s.place })

-- The part from `optopt` on, at the letter `c`; `place` is what follows it.
unfoldable pub read_letter : List Bytes → Bytes → ℕ → Scanner → Answer × Scanner
unfolding kind read_argument
read_letter args ostr c s = elim (kind ostr c) [
  | illegal ↦ (bad_option, record s { optind = passed s.place s.optind; optopt = c })
  | flag ↦ (option c, record s { optind = passed s.place s.optind; optarg = none; optopt = c })
  | takes_argument ↦ read_argument args c (record s { optopt = c })
]

-- The next argument of the program, when `place` is at the end of one.
unfoldable pub next_argument : List Bytes → Bytes → Scanner → Bytes → Answer × Scanner
unfolding read_letter
next_argument args ostr s [] = (eof, record s { place = [] })
next_argument args ostr s (x ∷ []) = (eof, record s { place = if x == b'-' then [] else x ∷ [] })
next_argument args ostr s (x ∷ c ∷ p) =
    let letter = read_letter args ostr c (record s { place = p }) in
    if x == b'-'
    then if c == b'-' then (eof, record s { optind = s.optind + 1; place = c ∷ p }) else letter
    else (eof, record s { place = x ∷ c ∷ p })

-- `Getopt`
unfoldable pub getopt : List Bytes → Bytes → Scanner → Answer × Scanner
unfolding next_argument read_letter
getopt args ostr s = elim s.place [
  | [] ↦ elim (get_elem? args s.optind) [
    | none ↦ (eof, s)
    | some arg ↦ next_argument args ostr s arg
  ]
  | c ∷ p ↦ read_letter args ostr c (record s { place = p })
]

-- An answer with its argument, which an option alone can have.
abbrev pub Item : Type 0
Item = Answer × Option Bytes

abbrev pub item_of : Answer × Scanner → Item
item_of (option c, s) = (option c, s.optarg)
item_of (a, s) = (a, none)

abbrev pub with_item : Item → Option (List Item × Scanner) → Option (List Item × Scanner)
with_item x none = none
with_item x (some (items, s)) = some (x ∷ items, s)

-- `while (-1 != (ch = Getopt(argc, argv, options)))`: the answers in order, and the scanner at the
-- end; none while the loop has not ended.
unfoldable pub getopt_loop : ℕ → List Bytes → Bytes → Scanner → Option (List Item × Scanner)
unfolding getopt
getopt_loop zero args ostr s = none
getopt_loop (suc fuel) args ostr s =
    let r = getopt args ostr s in
    let more = with_item (item_of r) (getopt_loop fuel args ostr r.1) in
    elim r.0 [ eof ↦ some ([], r.1) | bad_option ↦ more | option c ↦ more ]
