-- ===== src/Util/Tables.antt =====
-- Checking a property of every number below a bound by evaluation.
use libappupdater.Prelude.{
  ℕ, zero, suc, ◌<◌, ◌≡◌, Bytes, [], ◌∷◌, Bool, true, false, arith, ap, ◌∙◌, ◌==◌, ==_iff,
  Bool-cases, inl, inr, if◌then◌else◌,
}

-- `s[i]`, and the terminating NUL behind the end.
abbrev pub byte_at : Bytes → ℕ → ℕ
byte_at [] i = 0
byte_at (c ∷ s) zero = c
byte_at (c ∷ s) (suc i) = byte_at s i

-- A test of every number under a bound, the greatest first.
unfoldable pub passes_under : (ℕ → Bool) → ℕ → Bool
passes_under test zero = true
passes_under test (suc bound) = if test bound then passes_under test bound else false

pub passes_under_each :
    (test : ℕ → Bool) (bound : ℕ)
    → passes_under test bound ≡ true
    → (i : ℕ) → i < bound
    → test i ≡ true
unfolding passes_under
passes_under_each test zero all i h = ground (arith, h)
passes_under_each test (suc bound) all i h = elim (Bool-cases (test bound)) [
  | inr fails ↦ ground (arith, rw fails at all)
  | inl passes ↦ elim (Bool-cases (i == bound)) [
    | inl last ↦ ap test ((==_iff i bound).0 last) ∙ passes
    | inr other ↦ passes_under_each test bound (rw passes at all) i (ground arith)
  ]
]

-- Every value is a byte.
abbrev pub IsByte : ℕ → Type 0
IsByte c = c < 256
