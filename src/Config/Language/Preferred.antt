-- ===== src/Config/Language/Preferred.antt =====
-- src/AutoConfig.cpp: which translation of the version resource is used.
use libappupdater.Config.Language.{
  Translation, index_of, phases, resolve, choose, hex_word, get_string_file_info,
}
use libappupdater.Prelude.{
  ℕ, suc, ◌≤◌, ◌<◌, Bool, true, false, List, [], ◌∷◌, ◌++◌, some, ltb, leb, ◌==◌, ==_iff, codes,
  length, All, get_elem?, if◌then◌else◌, ◌≡◌, refl, sym, subst, arith,
}

-- The first translation of a language.
pub data IsFirst (lang : ℕ) : List Translation → Translation → Type 0 where
  here : {p : ℕ} {ts : List Translation} → IsFirst lang ((lang, p) ∷ ts) (lang, p)
  later :
      {t u : Translation} {ts : List Translation}
      → (t.0 == lang) ≡ false
      → IsFirst lang ts u
      → IsFirst lang (t ∷ ts) u

abbrev pub IsAbsent : ℕ → List Translation → Type 0
IsAbsent lang ts = All (λ (t : Translation). (t.0 == lang) ≡ false) ts

-- The first translation of the first language that has one, otherwise the first of all.
pub data IsPreferred : List ℕ → List Translation → Translation → Type 0 where
  first_of_all : {t : Translation} {ts : List Translation} → IsPreferred [] (t ∷ ts) t
  chosen :
      {lang : ℕ} {langs : List ℕ} {ts : List Translation} {t : Translation}
      → IsFirst lang ts t
      → IsPreferred (lang ∷ langs) ts t
  next_language :
      {lang : ℕ} {langs : List ℕ} {ts : List Translation} {t : Translation}
      → IsAbsent lang ts
      → IsPreferred langs ts t
      → IsPreferred (lang ∷ langs) ts t

-- What the index of a language says.
index_of-found :
    (lang : ℕ) (ts : List Translation)
    → index_of lang ts < length ts
    → (t : Translation) × (get_elem? ts (index_of lang ts) ≡ some t) × IsFirst lang ts t
unfolding index_of
index_of-found lang [] h = absurd (omega (arith, h))
index_of-found lang ((l, p) ∷ ts) h = go (l == lang) refl (index_of-found lang ts) h
  where
    go :
        (b : Bool)
        → (l == lang) ≡ b
        → (index_of lang ts < length ts
            → (t : Translation) × (get_elem? ts (index_of lang ts) ≡ some t) × IsFirst lang ts t)
        → (if b then 0 else suc (index_of lang ts)) < suc (length ts)
        → (t : Translation) × (get_elem? ((l, p) ∷ ts) (if b then 0 else suc (index_of lang ts))
            ≡ some t)
          × IsFirst lang ((l, p) ∷ ts) t
    go true e ih k =
        ((l, p), refl, subst (λ x. IsFirst x ((l, p) ∷ ts) (l, p)) ((==_iff l lang).0 e) here)
    go false e ih k = let (t, f, q) = ih (omega (arith, k)) in (t, f, later e q)

index_of-IsAbsent :
    (lang : ℕ) (ts : List Translation) → length ts ≤ index_of lang ts → IsAbsent lang ts
unfolding index_of
index_of-IsAbsent lang [] h = tt
index_of-IsAbsent lang ((l, p) ∷ ts) h = go (index_of-IsAbsent lang ts) (l == lang) refl h
  where
    go :
        (length ts ≤ index_of lang ts → IsAbsent lang ts)
        → (b : Bool) → (l == lang) ≡ b
        → suc (length ts) ≤ (if b then 0 else suc (index_of lang ts))
        → IsAbsent lang ((l, p) ∷ ts)
    go ih true e k = absurd (omega (arith, k))
    go ih false e k = (e, ih (omega (arith, k)))

-- An index within the translations, otherwise the first.
abbrev or_first : List Translation → ℕ → ℕ
or_first ts i = if leb (length ts) i then 0 else i

or_first_within : (ts : List Translation) (i : ℕ) → i < length ts → or_first ts i ≡ i
or_first_within ts i h = ground (arith, h)

abbrev Chooses : List ℕ → List Translation → ℕ → Type 0
Chooses langs ts i = (t : Translation) × (get_elem? ts i ≡ some t) × IsPreferred langs ts t

resolve-Chooses :
    (langs : List ℕ) (u : Translation) (us : List Translation)
    → Chooses langs (u ∷ us) (or_first (u ∷ us) (resolve langs (u ∷ us)))
unfolding resolve
resolve-Chooses [] u us =
    let at_first : or_first (u ∷ us) (length (u ∷ us)) ≡ 0 = ground arith in
    subst (Chooses [] (u ∷ us)) (sym at_first) (u, refl, first_of_all)
resolve-Chooses (lang ∷ langs) u us =
    go (resolve-Chooses langs u us) (leb (length (u ∷ us)) (index_of lang (u ∷ us))) refl
  where
    ts : List Translation
    ts = u ∷ us

    go :
        Chooses langs ts (or_first ts (resolve langs ts))
        → (b : Bool) → leb (length ts) (index_of lang ts) ≡ b
        → Chooses (lang ∷ langs) ts (or_first ts (if b then resolve langs ts else index_of lang ts))
    go (t, e, p) true h = (t, e, next_language (index_of-IsAbsent lang ts (ground (arith, h))) p)
    go ih false h =
        let within : index_of lang ts < length ts = ground (arith, h) in
        let (t, e, p) = index_of-found lang ts within in
        subst (Chooses (lang ∷ langs) ts) (sym (or_first_within ts (index_of lang ts) within))
          (t, e, chosen p)

-- One translation alone is preferred, whatever the languages.
IsPreferred-one : (langs : List ℕ) (u : Translation) → IsPreferred langs (u ∷ []) u
IsPreferred-one [] u = first_of_all
IsPreferred-one (lang ∷ langs) (l, p) = go (l == lang) refl (IsPreferred-one langs (l, p))
  where
    go :
        (b : Bool)
        → (l == lang) ≡ b
        → IsPreferred langs ((l, p) ∷ []) (l, p)
        → IsPreferred (lang ∷ langs) ((l, p) ∷ []) (l, p)
    go true e q = chosen (subst (λ x. IsFirst x ((l, p) ∷ []) (l, p)) ((==_iff l lang).0 e) here)
    go false e q = next_language (e, tt) q

choose-Chooses :
    (langs : List ℕ) (u : Translation) (us : List Translation)
    → Chooses langs (u ∷ us) (choose langs (u ∷ us))
unfolding choose
choose-Chooses langs u [] = (u, refl, IsPreferred-one langs u)
choose-Chooses langs u (t ∷ us) =
    let many : ltb 1 (length (u ∷ t ∷ us)) ≡ true = ground arith in
    rw many (resolve-Chooses langs u (t ∷ us))

-- A version resource with translations gives the block of the first translation of the user's
-- language, otherwise of the system's, of English, or of the neutral language, and otherwise of the
-- first of all.
pub get_string_file_info-IsPreferred :
    (user system : ℕ) (t : Translation) (ts : List Translation)
    → (u : Translation) × IsPreferred (phases user system) (t ∷ ts) u
      × (get_string_file_info user system (t ∷ ts)
          ≡ some (codes "\\StringFileInfo\\" ++ hex_word u.0 ++ hex_word u.1))
unfolding get_string_file_info
get_string_file_info-IsPreferred user system t ts =
    let (u, e, p) = choose-Chooses (phases user system) t ts in (u, p, rw (get_string_file_info, e))
