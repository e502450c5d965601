-- ===== src/Config/Keys/Table.antt =====
-- The table of keys: its invariant, and what a search finds after an update.
use libappupdater.Prelude.{
  ℕ, suc, ◌+◌, ◌<◌, Bytes, true, false, List, [], ◌∷◌, Option, none, some, ◌≡◌, ◌≢◌, refl, sym, ap,
  ◌∙◌, arith, Bool, inl, inr, Bool-cases, ◌==◌, codes, length, if◌then◌else◌, All,
}
use libappupdater.Config.Keys.{
  Ed25519Key, KeyTable, KeyResult, ok, throws, key_table_full, public_length, set_slot,
  set_ed25519_key, find_slot, public_key_find,
}

-- The bytes of a free slot: static storage starts as zeros.
abbrev pub zeros : ℕ → Bytes
zeros ℕ.zero = []
zeros (suc n) = 0 ∷ zeros n

abbrev pub free_slot : Ed25519Key
free_slot = record { version = 0; public_key = zeros public_length }

abbrev pub initial : KeyTable
initial = record { ed25519_keys = free_slot ∷ free_slot ∷ free_slot ∷ []; public_keys = 0 }

abbrev IsFree : Ed25519Key → Type 0
IsFree k = k.version ≡ 0

-- A slot before the slots `ks`: the used ones stand first, and have different versions.
record FitsBefore (ks : List Ed25519Key) (k : Ed25519Key) : Type 0 where
  key_length : length k.public_key ≡ public_length
  free_zeros : k.version ≡ 0 → k.public_key ≡ zeros public_length
  free_last : k.version ≡ 0 → All IsFree ks
  distinct : k.version ≢ 0 → find_slot k.version ks ≡ none

abbrev AreSlots : List Ed25519Key → Type 0
AreSlots [] = Unit {0}
AreSlots (k ∷ ks) = FitsBefore ks k × AreSlots ks

abbrev pub used : List Ed25519Key → ℕ
used [] = 0
used (k ∷ ks) = (if k.version == 0 then 0 else 1) + used ks

pub record IsKeyTable (t : KeyTable) : Type 0 where
  slots : AreSlots t.ed25519_keys
  pub three : length t.ed25519_keys ≡ 3
  pub counted : t.public_keys ≡ used t.ed25519_keys

free_slot-FitsBefore : (ks : List Ed25519Key) → All IsFree ks → FitsBefore ks free_slot
free_slot-FitsBefore ks h = record {
  key_length = refl;
  free_zeros = λ e. refl;
  free_last = λ e. h;
  distinct = λ ne. absurd (ne refl);
}

-- The table that the program starts with satisfies the invariant.
pub initial-IsKeyTable : IsKeyTable initial
initial-IsKeyTable = record {
  slots = (
    free_slot-FitsBefore (free_slot ∷ free_slot ∷ []) (refl, (refl, tt)),
    (free_slot-FitsBefore (free_slot ∷ []) (refl, tt), (free_slot-FitsBefore [] tt, tt)),
  );
  three = refl;
  counted = refl;
}

find_slot-All-IsFree :
    (v : ℕ) (ks : List Ed25519Key) → v ≢ 0 → All IsFree ks → find_slot v ks ≡ none
unfolding find_slot
find_slot-All-IsFree v [] h f = refl
find_slot-All-IsFree v (k ∷ ks) h (f, fs) = ground (arith, find_slot-All-IsFree v ks h fs)

-- What an update of version `v` does to the slots `ks`, as a search for `w` sees it.
abbrev SlotsAfter : Bytes → ℕ → ℕ → List Ed25519Key → Option (Bool × List Ed25519Key) → Type 0
SlotsAfter key v w ks none = (find_slot 0 ks ≡ none) × (find_slot v ks ≡ none)
SlotsAfter key v w ks (some (taken, rest)) =
    (find_slot w rest ≡ (if v == w then some key else find_slot w ks))
    × (length rest ≡ length ks)
    × (used rest ≡ (if taken then 1 else 0) + used ks)

-- The case of a slot that is neither free nor of that version.
passed_slot :
    (key : Bytes) (v w : ℕ) (k : Ed25519Key) (ks : List Ed25519Key)
    (o : Option (Bool × List Ed25519Key))
    → (k.version == v) ≡ false
    → (k.version == 0) ≡ false
    → SlotsAfter key v w ks o
    → SlotsAfter key v w
        (k ∷ ks)
        (elim o [ none ↦ none | some (taken, rest) ↦ some (taken, k ∷ rest) ])
unfolding find_slot
passed_slot key v w k ks none h z a = ground arith
passed_slot key v w k ks (some (taken, rest)) h z a = (ground arith, ground arith, ground arith)

set_slot-SlotsAfter :
    (key : Bytes) (v w : ℕ) (ks : List Ed25519Key)
    → v ≢ 0
    → w ≢ 0
    → SlotsAfter key v w ks (set_slot key v ks)
unfolding set_slot find_slot
set_slot-SlotsAfter key v w [] hv hw = (refl, refl)
set_slot-SlotsAfter key v w (k ∷ ks) hv hw = elim (Bool-cases (k.version == v)) [
  | inl same ↦ rw same (ground arith, refl, ground arith)
  | inr other ↦ elim (Bool-cases (k.version == 0)) [
    | inl free ↦ rw (other, free) (ground arith, refl, ground arith)
    | inr in_use ↦
        rw (other, in_use)
          (passed_slot key v w k ks (set_slot key v ks) other in_use
            (set_slot-SlotsAfter key v w ks hv hw))
  ]
]

abbrev SlotsKept : Option (Bool × List Ed25519Key) → Type 0
SlotsKept none = Unit {0}
SlotsKept (some (taken, rest)) = AreSlots rest

written_slot :
    (key : Bytes) (v : ℕ) (ks : List Ed25519Key)
    → v ≢ 0
    → length key ≡ public_length
    → find_slot v ks ≡ none
    → FitsBefore ks (record { version = v; public_key = key })
written_slot key v ks hv hk absent = record {
  key_length = hk;
  free_zeros = λ e. absurd (hv e);
  free_last = λ e. absurd (hv e);
  distinct = λ _. absent;
}

-- A used slot of another version still fits before the slots that the update leaves.
passed_slot_kept :
    (key : Bytes) (v : ℕ) (k : Ed25519Key) (ks : List Ed25519Key)
    (o : Option (Bool × List Ed25519Key))
    → (k.version == v) ≡ false
    → (k.version == 0) ≡ false
    → FitsBefore ks k
    → SlotsAfter key v k.version ks o
    → SlotsKept o
    → SlotsKept (elim o [ none ↦ none | some (taken, rest) ↦ some (taken, k ∷ rest) ])
passed_slot_kept key v k ks none other in_use f a h = tt
passed_slot_kept key v k ks (some (taken, rest)) other in_use f a h =
    let in_use' : k.version ≢ 0 = λ e. ground arith in
    (
      record {
        key_length = f.key_length;
        free_zeros = λ e. absurd (in_use' e);
        free_last = λ e. absurd (in_use' e);
        distinct = λ n. ground (arith, f.distinct in_use');
      },
      h,
    )

set_slot-SlotsKept :
    (key : Bytes) (v : ℕ) (ks : List Ed25519Key)
    → v ≢ 0
    → length key ≡ public_length
    → AreSlots ks
    → SlotsKept (set_slot key v ks)
unfolding set_slot
set_slot-SlotsKept key v [] hv hk h = tt
set_slot-SlotsKept key v (k ∷ ks) hv hk (f, h) = elim (Bool-cases (k.version == v)) [
  | inl same ↦
      let e : k.version ≡ v = ground arith in
      rw same (written_slot key v ks hv hk (rw e at (f.distinct (λ z. hv (sym e ∙ z)))), h)
  | inr other ↦ elim (Bool-cases (k.version == 0)) [
    | inl free ↦
        let fs = f.free_last (ground arith) in
        rw (other, free) (written_slot key v ks hv hk (find_slot-All-IsFree v ks hv fs), h)
    | inr in_use ↦
        rw (other, in_use)
          (passed_slot_kept key v k ks (set_slot key v ks) other in_use f
            (set_slot-SlotsAfter key v k.version ks hv (λ e. ground arith))
            (set_slot-SlotsKept key v ks hv hk h))
  ]
]

-- What `SetEd25519Key` promises of a key of the right length under a version that is not 0.
abbrev pub KeyStored : Bytes → ℕ → KeyTable → KeyResult KeyTable → Type 0
KeyStored key v t (ok u) =
    IsKeyTable u
    × ((w : ℕ)
        → w ≢ 0
        → find_slot w u.ed25519_keys ≡ (if v == w then some key else find_slot w t.ed25519_keys))
KeyStored key v t (throws e) =
    (e ≡ key_table_full) × (t.public_keys ≡ 3) × (find_slot v t.ed25519_keys ≡ none)

used-full : (ks : List Ed25519Key) → find_slot 0 ks ≡ none → used ks ≡ length ks
unfolding find_slot
used-full [] h = refl
used-full (k ∷ ks) h = ground (arith, used-full ks)

-- From a table that satisfies the invariant, a key under a version that is not 0 is stored: the
-- invariant holds again, the version has the new key and every other version but 0 the key it had.
-- Or the table holds three keys under other versions, and it is refused as full.
pub set_ed25519_key-KeyStored :
    (key : Bytes) (v : ℕ) (t : KeyTable)
    → IsKeyTable t
    → v ≢ 0
    → length key ≡ public_length
    → KeyStored key v t (set_ed25519_key key v t)
unfolding set_ed25519_key
set_ed25519_key-KeyStored key v t h hv hk =
    let nonzero : (v == 0) ≡ false = ground arith in
    let right : (length key == public_length) ≡ true = ground arith in
    rw (nonzero, right)
      (go (set_slot key v t.ed25519_keys) (λ w hw. set_slot-SlotsAfter key v w t.ed25519_keys hv hw)
        (set_slot-SlotsKept key v t.ed25519_keys hv hk h.slots))
  where
    go :
        (o : Option (Bool × List Ed25519Key))
        → ((w : ℕ) → w ≢ 0 → SlotsAfter key v w t.ed25519_keys o)
        → SlotsKept o
        → KeyStored key v t (elim o [
          | none ↦ throws key_table_full
          | some (taken, rest) ↦ ok (record {
            ed25519_keys = rest;
            public_keys = if taken then t.public_keys + 1 else t.public_keys;
          })
        ])
    go none a k =
        let (free, absent) = a v hv in
        (refl, omega (arith, h.counted, h.three, used-full t.ed25519_keys free), absent)
    go (some (taken, rest)) a k =
        let (_, len, count) = a v hv in
        (
          record { slots = k; three = len ∙ h.three; counted = ground (arith, h.counted) },
          λ w hw. (a w hw).0,
        )

free_slot_found :
    (ks : List Ed25519Key)
    → AreSlots ks
    → used ks < length ks
    → find_slot 0 ks ≡ some (zeros public_length)
unfolding find_slot
free_slot_found [] h lt = absurd (omega arith)
free_slot_found (k ∷ ks) (f, h) lt = elim (Bool-cases (k.version == 0)) [
  | inl free ↦ rw free (ap some (f.free_zeros (ground arith)))
  | inr in_use ↦ rw in_use (free_slot_found ks h (ground arith))
]

-- In a table that satisfies the invariant, while fewer than three keys are set, the key version 1.0
-- names a key, 32 zero bytes, that nobody has set.
pub version_zero_found :
    (t : KeyTable)
    → IsKeyTable t
    → t.public_keys < 3
    → public_key_find (codes "1.0") t ≡ some (zeros public_length)
unfolding public_key_find
version_zero_found t h lt =
    free_slot_found t.ed25519_keys h.slots (omega (arith, h.three, h.counted))
