-- ===== src/Manifest/Parser/Trimmed.antt =====
-- src/AutoManifest.cpp: what `trim` leaves of a text.
use mathlib.Core.List.{append_assoc}
use libappupdater.Manifest.Parser.{is_blank, ltrim, rtrim, trim}
use libappupdater.Prelude.{
  ℕ, Bytes, true, false, ◌&&◌, [], ◌∷◌, ◌++◌, All, ◌≡◌, ◌⊎◌, inl, inr, refl, ap, ◌∙◌, Bool-cases,
  arith, is_empty, if◌then◌else◌,
}

abbrev pub IsBlank : ℕ → Type 0
IsBlank c = (c ≡ b' ') ⊎ (c ≡ 9) ⊎ (c ≡ 10)

abbrev pub NoBlankFirst : Bytes → Type 0
NoBlankFirst [] = Unit {0}
NoBlankFirst (c ∷ s) = ¬ IsBlank c

abbrev pub NoBlankLast : Bytes → Type 0
NoBlankLast [] = Unit {0}
NoBlankLast (c ∷ []) = ¬ IsBlank c
NoBlankLast (c ∷ d ∷ s) = NoBlankLast (d ∷ s)

-- The text without the blanks at its ends.
pub record IsTrimmed (full t : Bytes) : Type 0 where
  pub front : Bytes
  pub back : Bytes
  pub blank_front : All IsBlank front
  pub blank_back : All IsBlank back
  pub whole : full ≡ front ++ (t ++ back)
  pub first : NoBlankFirst t
  pub last : NoBlankLast t

is_blank-IsBlank : (c : ℕ) → is_blank c ≡ true → IsBlank c
is_blank-IsBlank c h = ground (arith, h)

IsBlank-is_blank : (c : ℕ) → is_blank c ≡ false → ¬ IsBlank c
IsBlank-is_blank c h b = ground (arith, h, b)

record IsLeft (full t : Bytes) : Type 0 where
  front : Bytes
  blank_front : All IsBlank front
  whole : full ≡ front ++ t
  first : NoBlankFirst t
  last : NoBlankLast full → NoBlankLast t

NoBlankLast-tail : (c : ℕ) (s : Bytes) → NoBlankLast (c ∷ s) → NoBlankLast s
NoBlankLast-tail c [] h = tt
NoBlankLast-tail c (d ∷ s) h = h

ltrim-IsLeft : (s : Bytes) → IsLeft s (ltrim s)
unfolding ltrim
ltrim-IsLeft [] = record { front = []; blank_front = tt; whole = refl; first = tt; last = λ h. h }
ltrim-IsLeft (c ∷ s) = elim (Bool-cases (is_blank c)) [
  | inl blank ↦
      let i = ltrim-IsLeft s in
      rw blank (record {
        front = c ∷ i.front;
        blank_front = (is_blank-IsBlank c blank, i.blank_front);
        whole = ap (λ t. c ∷ t) i.whole;
        first = i.first;
        last = λ h. i.last (NoBlankLast-tail c s h);
      })
  | inr other ↦ rw other (record {
    front = [];
    blank_front = tt;
    whole = refl;
    first = IsBlank-is_blank c other;
    last = λ h. h;
  })
]

record IsRight (full t : Bytes) : Type 0 where
  back : Bytes
  blank_back : All IsBlank back
  whole : full ≡ t ++ back
  last : NoBlankLast t

IsRight-cons :
    (c : ℕ) (s t : Bytes)
    → IsRight s t
    → IsRight (c ∷ s) (if is_empty t && is_blank c then [] else c ∷ t)
IsRight-cons c s [] i = elim (Bool-cases (is_blank c)) [
  | inl blank ↦ rw blank (record {
    back = c ∷ i.back;
    blank_back = (is_blank-IsBlank c blank, i.blank_back);
    whole = ap (λ r. c ∷ r) i.whole;
    last = tt;
  })
  | inr other ↦ rw other (record {
    back = i.back;
    blank_back = i.blank_back;
    whole = ap (λ r. c ∷ r) i.whole;
    last = IsBlank-is_blank c other;
  })
]
IsRight-cons c s (d ∷ t) i = record {
  back = i.back;
  blank_back = i.blank_back;
  whole = ap (λ r. c ∷ r) i.whole;
  last = i.last;
}

rtrim-IsRight : (s : Bytes) → IsRight s (rtrim s)
unfolding rtrim
rtrim-IsRight [] = record { back = []; blank_back = tt; whole = refl; last = tt }
rtrim-IsRight (c ∷ s) = IsRight-cons c s (rtrim s) (rtrim-IsRight s)

pub trim-IsTrimmed : (s : Bytes) → IsTrimmed s (trim s)
trim-IsTrimmed s =
    let r = rtrim-IsRight s in
    let l = ltrim-IsLeft (rtrim s) in
    record {
      front = l.front;
      back = r.back;
      blank_front = l.blank_front;
      blank_back = r.blank_back;
      whole =
          r.whole ∙ ap (λ t. t ++ r.back) l.whole ∙ append_assoc l.front (ltrim (rtrim s)) r.back;
      first = l.first;
      last = l.last r.last;
    }
