-- ===== src/Util/Basename.antt =====
-- util/Util.h: `Util::Basename`.
use libappupdater.Prelude.{ℕ, Bytes, [], ◌∷◌, Option, none, some, ◌==◌, if◌then◌else◌}

-- `strrchr(s, c) + 1`
abbrev pub after_last : ℕ → Bytes → Option Bytes
after_last c [] = none
after_last c (x ∷ s) = elim (after_last c s) [
  | some t ↦ some t
  | none ↦ if x == c then some s else none
]

unfoldable pub basename : Bytes → Bytes
basename s = elim (after_last b'/' s) [
  | some t ↦ t
  | none ↦ elim (after_last b'\\' s) [ some t ↦ t | none ↦ s ]
]
