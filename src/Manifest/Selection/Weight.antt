-- ===== src/Manifest/Selection/Weight.antt =====
-- The weights that `SelectionWeight` gives.
use libappupdater.Manifest.{AutoManifest}
use libappupdater.Manifest.Selection.{
  System, os_weight, version_word, scan_required, is_too_old, required_weight, version_weight,
  selection_weight,
}
use libappupdater.Prelude.{
  ℕ, ◌<◌, ◌≤◌, ◌+◌, ◌*◌, ◌^◌, Bytes, Bool, Option, none, some, [], ◌∷◌, refl, true, false, codes,
  is_empty, ◌==◌, if◌then◌else◌, ◌≡◌, ◌⊎◌, arith,
}

version_word_fits : (major minor : ℕ) → version_word (major, minor) < 2 ^ 28
version_word_fits major minor = omega arith

fits_if : (b : Bool) (w u : ℕ) → (if b then none else some w) ≡ some u → w < 2 ^ 28 → u < 2 ^ 28
fits_if b w u h k = ground arith

required_fits :
    (sys : System) (o : Option (ℕ × ℕ)) (u : ℕ) → required_weight sys o ≡ some u → u < 2 ^ 28
unfolding required_weight
required_fits sys none u h = ground arith
required_fits sys (some (major, minor)) u h =
    fits_if (is_too_old sys (major, minor)) (version_word (major, minor)) u h
      (version_word_fits major minor)

version_weight_fits :
    (sys : System) (s : Bytes) (u : ℕ) → version_weight sys s ≡ some u → u < 2 ^ 28
unfolding version_weight
version_weight_fits sys [] u h = ground arith
version_weight_fits sys (c ∷ s) u h = required_fits sys (scan_required (c ∷ s)) u h

os_weight_fits : (sys : System) (s : Bytes) → os_weight sys s ≤ 2
unfolding os_weight
os_weight_fits sys s = ground arith

-- The kinds of labels, from the less specific one on.
pub data Kind : Type 0 where
  any_windows same_architecture : Kind

abbrev specificity : Kind → ℕ
specificity any_windows = 1
specificity same_architecture = 2

module _ (sys : System) where
  -- The label of the operating system: none or that of all Windows systems, or the one of the
  -- architecture.
  abbrev pub HasKind : Kind → Bytes → Type 0
  HasKind any_windows label = (label ≡ []) ⊎ (label ≡ codes "windows")
  HasKind same_architecture label =
      ((sys.is_x64 ≡ true) × (label ≡ codes "windows-x64"))
      ⊎ ((sys.is_x64 ≡ false) × (label ≡ codes "windows-x86"))

  -- The first two numbers of the system version that the item requires: none stands for 0.0. The
  -- system has at least this version, and the numbers fit their fields.
  pub record Requires (text : Bytes) (major minor : ℕ) : Type 0 where
    pub numbers :
        ((text ≡ []) × (major ≡ 0) × (minor ≡ 0))
        ⊎ ((is_empty text ≡ false)
            × (scan_required text ≡ some (major, minor))
            × (is_too_old sys (major, minor) ≡ false))
    pub major_fits : major < 2 ^ 12
    pub minor_fits : minor < 2 ^ 16

  weight_bound :
      (a : ℕ) (o : Option ℕ)
      → a ≤ 2
      → ((u : ℕ) → o ≡ some u → u < 2 ^ 28)
      → (if a == 0 then 0 else (elim o [ none ↦ 0 | some u ↦ a * 2 ^ 30 + u ])) < 2 ^ 32
  weight_bound a none h f = ground arith
  weight_bound a (some u) h f = ground (arith, f u refl)

  -- A weight fits its 32 bits.
  pub selection_weight_bound : (m : AutoManifest) → selection_weight sys m < 2 ^ 32
  unfolding selection_weight
  selection_weight_bound m =
      weight_bound (os_weight sys m.os_label) (version_weight sys m.minimum_system_version)
        (os_weight_fits sys m.os_label) (version_weight_fits sys m.minimum_system_version)
