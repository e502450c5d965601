-- ===== src/Version/RoundTrip.antt =====
-- The constructor `AutoVersion(const char *)` reads back what `operator<<` writes.
use mathlib.Core.List.{append_assoc, append-nil}
use libappupdater.Prelude.{
  ℕ, zero, suc, ◌+◌, ◌/◌, ◌%◌, Bytes, false, not, [], ◌∷◌, ◌++◌, none, some, ◌≡◌, inl, inr, refl,
  ap, sym, ◌∙◌, arith, ◌==◌, str_eq, str_eq_iff, codes, All, Bool-cases, if◌then◌else◌, ltb,
}
use libappupdater.Prelude.Int.{ℤ, pos, negsuc, eq_ℤ, eq_ℤ_iff}
use libappupdater.CLib.{atoi, digits_onto, print_unsigned, print_int}
use libappupdater.CLib.Decimal.{FitsInt, strtol-print_int}
use libappupdater.Version.{
  AutoVersion, after_first, split_last, split_upstream, new_version, to_text,
}

-- The byte `c` does not stand in the text.
abbrev pub Without : ℕ → Bytes → Type 0
Without c = All (λ x. (x == c) ≡ false)

Without-append : (c : ℕ) (s t : Bytes) → Without c s → Without c t → Without c (s ++ t)
Without-append c [] t h k = k
Without-append c (x ∷ s) t h k = (h.0, Without-append c s t h.1 k)

after_first-Without : (c : ℕ) (s : Bytes) → Without c s → after_first c s ≡ none
unfolding after_first
after_first-Without c [] h = refl
after_first-Without c (x ∷ s) h = rw h.0 (after_first-Without c s h.1)

after_first-append : (c : ℕ) (s t : Bytes) → Without c s → after_first c (s ++ c ∷ t) ≡ some t
unfolding after_first
after_first-append c [] t h = ground arith
after_first-append c (x ∷ s) t h = rw h.0 (after_first-append c s t h.1)

split_last-Without : (c : ℕ) (s : Bytes) → Without c s → split_last c s ≡ none
unfolding split_last
split_last-Without c [] h = refl
split_last-Without c (x ∷ s) h = ground (arith, h.0, split_last-Without c s h.1)

split_last-append : (c : ℕ) (s t : Bytes) → Without c t → split_last c (s ++ c ∷ t) ≡ some (s, t)
unfolding split_last
split_last-append c [] t h = ground (arith, split_last-Without c t h)
split_last-append c (x ∷ s) t h = ground (arith, split_last-append c s t h)

digits_onto-Without : (f n : ℕ) (s : Bytes) → Without b':' s → Without b':' (digits_onto f n s)
unfolding digits_onto
digits_onto-Without zero n s h = h
digits_onto-Without (suc f) n s h = elim (Bool-cases (ltb n 10)) [
  | inl small ↦ rw small (ground arith, h)
  | inr big ↦ rw big (digits_onto-Without f (n / 10) ((n % 10 + b'0') ∷ s) (ground arith, h))
]

print_int-Without : (i : ℤ) → Without b':' (print_int i)
unfolding print_int print_unsigned
print_int-Without (pos n) = digits_onto-Without (n + 1) n [] tt
print_int-Without (negsuc n) = (refl, digits_onto-Without (n + 1 + 1) (n + 1) [] tt)

-- What a version needs to be written: its epoch is an `int`, no minus in the revision, none in the
-- upstream version if the revision is 0, and no colon if the epoch is 0.
pub record IsPrintable (v : AutoVersion) : Type 0 where
  pub epoch_fits : FitsInt v.epoch
  pub revision_minus : Without b'-' v.revision
  pub bare_minus : v.revision ≡ codes "0" → Without b'-' v.upstream
  pub upstream_colon : v.epoch ≡ pos 0 → Without b':' v.upstream
  pub revision_colon : v.epoch ≡ pos 0 → Without b':' v.revision

-- The text behind the epoch.
abbrev tail_of : AutoVersion → Bytes
tail_of v = v.upstream ++ (if not (str_eq v.revision (codes "0")) then b'-' ∷ v.revision else [])

split_upstream-Without :
    (e : ℤ) (s : Bytes)
    → Without b'-' s
    → split_upstream e s ≡ record { epoch = e; upstream = s; revision = codes "0" }
unfolding split_upstream
split_upstream-Without e s h = rw (split_last-Without b'-' s h, split_upstream)

split_upstream-append :
    (e : ℤ) (s r : Bytes)
    → Without b'-' r
    → split_upstream e (s ++ b'-' ∷ r) ≡ record { epoch = e; upstream = s; revision = r }
unfolding split_upstream
split_upstream-append e s r h = rw (split_last-append b'-' s r h, split_upstream)

split_upstream-tail_of : (v : AutoVersion) → IsPrintable v → split_upstream v.epoch (tail_of v) ≡ v
split_upstream-tail_of v p = elim (Bool-cases (str_eq v.revision (codes "0"))) [
  | inl same ↦
      let e = (str_eq_iff v.revision (codes "0")).0 same in
      rw same (
        ap (split_upstream v.epoch) (append-nil v.upstream)
        ∙ split_upstream-Without v.epoch v.upstream (p.bare_minus e)
        ∙ ap (λ (r : Bytes). record v { revision = r }) (sym e))
  | inr other ↦ rw other (split_upstream-append v.epoch v.upstream v.revision p.revision_minus)
]

tail_of-Without :
    (v : AutoVersion) → Without b':' v.upstream → Without b':' v.revision → Without b':' (tail_of v)
tail_of-Without v u r = elim (Bool-cases (str_eq v.revision (codes "0"))) [
  | inl same ↦ rw same (Without-append b':' v.upstream [] u tt)
  | inr other ↦ rw other (Without-append b':' v.upstream (b'-' ∷ v.revision) u (refl, r))
]

new_version-Without : (s : Bytes) → Without b':' s → new_version s ≡ split_upstream (pos 0) s
unfolding new_version
new_version-Without s h = rw (after_first-Without b':' s h, new_version)

new_version-append :
    (e s : Bytes)
    → Without b':' e
    → new_version (e ++ b':' ∷ s) ≡ split_upstream (atoi (e ++ b':' ∷ s)) s
unfolding new_version
new_version-append e s h = rw (after_first-append b':' e s h, new_version)

atoi-print_int-colon : (i : ℤ) (s : Bytes) → FitsInt i → atoi (print_int i ++ b':' ∷ s) ≡ i
unfolding atoi
atoi-print_int-colon i s h = ap (λ (r : ℤ × Bytes). r.0) (strtol-print_int i (b':' ∷ s) h refl)

new_version_bare : (v : AutoVersion) → IsPrintable v → v.epoch ≡ pos 0 → new_version (tail_of v) ≡ v
new_version_bare v p e =
    new_version-Without (tail_of v) (tail_of-Without v (p.upstream_colon e) (p.revision_colon e))
    ∙ ap (λ (i : ℤ). split_upstream i (tail_of v)) (sym e)
    ∙ split_upstream-tail_of v p

new_version_epoch :
    (v : AutoVersion) → IsPrintable v → new_version (print_int v.epoch ++ b':' ∷ tail_of v) ≡ v
new_version_epoch v p =
    new_version-append (print_int v.epoch) (tail_of v) (print_int-Without v.epoch)
    ∙ ap (λ (i : ℤ). split_upstream i (tail_of v))
        (atoi-print_int-colon v.epoch (tail_of v) p.epoch_fits)
    ∙ split_upstream-tail_of v p

-- A printable version is read back from its text.
pub new_version-to_text : (v : AutoVersion) → IsPrintable v → new_version (to_text v) ≡ v
unfolding to_text
new_version-to_text v p = elim (Bool-cases (eq_ℤ v.epoch (pos 0))) [
  | inl none_written ↦
      rw none_written (new_version_bare v p ((eq_ℤ_iff v.epoch (pos 0)).0 none_written))
  | inr written ↦ rw (written, append_assoc) (new_version_epoch v p)
]
