-- ===== src/Util/Getopt/CommandLine.antt =====
-- util/upgetopt.cpp: the options of a command line, independently of the scanner.
use libappupdater.Prelude.{
  ℕ, suc, ◌+◌, Bytes, Bool, true, false, List, [], ◌∷◌, none, some, ◌==◌, length, drop,
  if◌then◌else◌, ◌≡◌,
}
use libappupdater.Util.Getopt.{
  Scanner, bad_option, option, illegal, flag, takes_argument, kind, Item,
}

-- An argument at which the options end.
abbrev pub is_operand : Bytes → Bool
is_operand [] = true
is_operand (x ∷ []) = true
is_operand (x ∷ c ∷ p) = if x == b'-' then false else true

-- The options of a command line: the letters left of an argument and the arguments behind it, the
-- answers, and the operands. An argument that begins with two dashes ends the options.
pub data Reads (ostr : Bytes) : Bytes → List Bytes → List Item → List Bytes → Type 0 where
  at_end : Reads ostr [] [] [] []
  operand :
      {arg : Bytes} {rest : List Bytes}
      → is_operand arg ≡ true
      → Reads ostr [] (arg ∷ rest) [] (arg ∷ rest)
  dashes : {p : Bytes} {rest : List Bytes} → Reads ostr [] ((b'-' ∷ b'-' ∷ p) ∷ rest) [] rest
  letters :
      {c : ℕ} {p : Bytes} {rest ops : List Bytes} {items : List Item}
      → (c == b'-') ≡ false
      → Reads ostr (c ∷ p) rest items ops
      → Reads ostr [] ((b'-' ∷ c ∷ p) ∷ rest) items ops
  unknown :
      {c : ℕ} {p : Bytes} {rest ops : List Bytes} {items : List Item}
      → kind ostr c ≡ illegal
      → Reads ostr p rest items ops
      → Reads ostr (c ∷ p) rest ((bad_option, none) ∷ items) ops
  single :
      {c : ℕ} {p : Bytes} {rest ops : List Bytes} {items : List Item}
      → kind ostr c ≡ flag
      → Reads ostr p rest items ops
      → Reads ostr (c ∷ p) rest ((option c, none) ∷ items) ops
  attached :
      {c x : ℕ} {p : Bytes} {rest ops : List Bytes} {items : List Item}
      → kind ostr c ≡ takes_argument
      → Reads ostr [] rest items ops
      → Reads ostr (c ∷ x ∷ p) rest ((option c, some (x ∷ p)) ∷ items) ops
  separate :
      {c : ℕ} {arg : Bytes} {rest ops : List Bytes} {items : List Item}
      → kind ostr c ≡ takes_argument
      → Reads ostr [] rest items ops
      → Reads ostr (c ∷ []) (arg ∷ rest) ((option c, some arg) ∷ items) ops
  missing :
      {c : ℕ} {ops : List Bytes} {items : List Item}
      → kind ostr c ≡ takes_argument
      → Reads ostr [] [] items ops
      → Reads ostr (c ∷ []) [] ((bad_option, none) ∷ items) ops

-- The arguments behind the one that `place` is in.
abbrev pub behind : List Bytes → Bytes → ℕ → List Bytes
behind args [] i = drop i args
behind args (_ ∷ _) i = drop (i + 1) args

-- What is left to be read.
abbrev pub size : List Bytes → ℕ
size [] = 0
size (a ∷ rest) = suc (length a) + size rest

abbrev pub left_of : List Bytes → Scanner → ℕ
left_of args s = length s.place + size (behind args s.place s.optind)
