-- ===== src/Updater/Settings/Skip.antt =====
-- For how long a version stays skipped.
use libappupdater.CLib.{print_int}
use libappupdater.CLib.{stricmp_eq, stricmp_eq_refl}
use libappupdater.Config.Store.{
  ConfigStore, Storable, read_string, write_int, time_max, word, extract_word,
}
use libappupdater.Config.Store.Values.{FitsMax, Storable-print_int, read_string-write_ne}
use libappupdater.Prelude.{
  ℕ, ◌≤◌, Bytes, Bool, true, false, [], ◌∷◌, ◌++◌, ◌≡◌, refl, ap, ◌∙◌, arith, str_eq, is_space,
  is_empty, All, if◌then◌else◌,
}
use libappupdater.Prelude.Int.{ℤ, pos, ◌+ℤ◌, lt_ℤ}
use libappupdater.Updater.Settings.{
  auto_last, skip_version, skip_time, interval_seconds, clear_skip, skip_expired, is_skipped,
  install_later, install_skip,
}

abbrev NoSpace : ℕ → Type 0
NoSpace c = is_space c ≡ false

-- A version that a stream reads back: some bytes, none of them a blank.
pub record IsWord (v : Bytes) : Type 0 where
  pub no_space : All NoSpace v
  pub nonempty : is_empty v ≡ false
  pub fits : Storable v

word-append :
    (v : Bytes) (c : ℕ) (w : Bytes) → All NoSpace v → is_space c ≡ true → word (v ++ c ∷ w) ≡ v
unfolding word
word-append [] c w h e = rw e
word-append (x ∷ v) c w h e = rw h.0 (ap (◌∷◌ x) (word-append v c w h.1 e))

str_eq-longer : (v : Bytes) (c : ℕ) (w : Bytes) → str_eq v (v ++ c ∷ w) ≡ false
unfolding str_eq
str_eq-longer [] c w = refl
str_eq-longer (x ∷ v) c w = ground (arith, str_eq-longer v c w)

extract_word-first :
    (x : ℕ) (v : Bytes) → is_space x ≡ false → extract_word (x ∷ v) ≡ (x ∷ word v, true)
unfolding extract_word
extract_word-first x v h = ground arith

module _ (c : ConfigStore) where
  open c use {State, read, write, read_write}

  read_string-write :
      (s : State) (name value : Bytes)
      → Storable value
      → read_string c (write s name value) name
        ≡ (if is_empty value then ([], false) else extract_word value)
  unfolding read_string
  read_string-write s name value h = rw (read_write s name name value h, stricmp_eq_refl name) refl

  -- A write of a time does not change what another name reads as.
  module _ (s : State) (name other : Bytes) (i : ℤ) (differ : stricmp_eq name other ≡ false)
      (fits : FitsMax time_max i) where
    strings_kept : read_string c (write_int c s name i) other ≡ read_string c s other
    unfolding write_int
    strings_kept =
        read_string-write_ne c s name other (print_int i) differ (Storable-print_int i fits)

  -- What the settings read after `InstallSkip`.
  module _ (v : Bytes) (t : ℕ) (fits : Storable v) (h : t ≤ time_max) (s : State) where
    version-install_skip :
        read_string c (install_skip c v (pos t) s) skip_version
        ≡ (if is_empty v then ([], false) else extract_word v)
    unfolding install_skip stricmp_eq
    version-install_skip =
        strings_kept (write s skip_version v) skip_time skip_version (pos t) refl h
        ∙ read_string-write s skip_version v fits

  -- Whether a skip at time `t` still holds at time `n`, with that interval in days.
  abbrev pub still_skipped : ℤ → ℕ → ℕ → Bool
  still_skipped interval t n =
      if lt_ℤ interval (pos 0)
      then true
      else lt_ℤ (pos n) (pos t +ℤ interval_seconds 180 14 interval)

  is_skipped_of :
      (s : State) (x : ℕ) (v w : Bytes) (n : ℤ)
      → read_string c s skip_version ≡ (x ∷ v, true)
      → is_skipped c w n s
        ≡ (if str_eq (x ∷ v) w then skip_expired c n s else (false, clear_skip c s))
  unfolding is_skipped
  is_skipped_of s x v w n e = rw e refl

  -- A version with a blank inside is not skipped, whenever it is asked for: the skip that
  -- `InstallSkip` wrote is cleared.
  pub blank_is_not_skipped :
      (s : State) (x : ℕ) (v : Bytes) (b : ℕ) (rest : Bytes) (t n : ℕ)
      → All NoSpace (x ∷ v)
      → is_space b ≡ true
      → Storable (x ∷ v ++ b ∷ rest)
      → t ≤ time_max
      → is_skipped c (x ∷ v ++ b ∷ rest) (pos n) (install_skip c (x ∷ v ++ b ∷ rest) (pos t) s)
        ≡ (false, clear_skip c (install_skip c (x ∷ v ++ b ∷ rest) (pos t) s))
  blank_is_not_skipped s x v b rest t n h e fits k =
      let whole = x ∷ v ++ b ∷ rest in
      is_skipped_of (install_skip c whole (pos t) s) x v whole (pos n) (
        version-install_skip whole t fits k s
        ∙ extract_word-first x (v ++ b ∷ rest) h.0
        ∙ ap (λ u. (x ∷ u, true)) (word-append v b rest h.1 e))
      ∙ rw (str_eq-longer (x ∷ v) b rest) refl

  no_skip_version :
      (s : State) (w : Bytes) (n : ℤ)
      → read_string c s skip_version ≡ ([], false)
      → is_skipped c w n s ≡ (false, s)
  unfolding is_skipped
  no_skip_version s w n e = rw e refl

  version-clear_skip : (s : State) → read_string c (clear_skip c s) skip_version ≡ ([], false)
  unfolding clear_skip stricmp_eq
  version-clear_skip s =
      strings_kept (write s skip_version []) skip_time skip_version (pos 0) refl (omega arith)
      ∙ read_string-write s skip_version [] ((omega arith, refl))

  -- Once a skip is cleared, and after `InstallLater`, no version is skipped and a check leaves the
  -- settings alone.
  pub is_skipped-cleared :
      (s : State) (w : Bytes) (t : ℕ) (n : ℤ)
      → (is_skipped c w n (clear_skip c s) ≡ (false, clear_skip c s))
        × (is_skipped c w n (install_later c (pos t) s) ≡ (false, install_later c (pos t) s))
  is_skipped-cleared s w t n = (
    no_skip_version (clear_skip c s) w n (version-clear_skip s),
    no_skip_version (install_later c (pos t) s) w n
        (unfold install_later clear_skip in version-clear_skip (write_int c s auto_last (pos t))),
  )
