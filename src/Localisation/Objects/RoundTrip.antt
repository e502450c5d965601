-- ===== src/Localisation/Objects/RoundTrip.antt =====
-- localisation/NSLocalizedCollectionImpl.cpp: the data that `load_object` reads, written and read.
use libappupdater.Localisation.{Collection, assign, assign_each}
use libappupdater.Localisation.Objects.{read_texts, read_entry, object_loop, load_object}
use libappupdater.Prelude.{
  ℕ, zero, suc, ◌+◌, ◌*◌, ◌/◌, ◌%◌, ◌^◌, ◌≤◌, ◌<◌, Bytes, [], ◌∷◌, ◌++◌, true, none, some, ◌≡◌,
  refl, ap, ap₂, ◌∙◌, arith, All, ltb, leb, codes, str_eq, length, take, drop, if◌then◌else◌,
  length-append,
}

-- An entry before `t`: the lengths, the high byte first, and the texts with their NULs.
unfoldable pub encode_entry : Bytes × Bytes → Bytes → Bytes
encode_entry (key, value) t =
    length key / 256
    ∷ length key % 256
    ∷ length value / 256
    ∷ length value % 256
    ∷ (key ++ (0 ∷ (value ++ (0 ∷ t))))

unfoldable pub encode_entries : Collection → Bytes → Bytes
unfolding encode_entry
encode_entries [] t = t
encode_entries (e ∷ es) t = encode_entry e (encode_entries es t)

-- A compiled collection, with some bytes behind it.
unfoldable pub encode_object : Collection → Bytes → Bytes
unfolding encode_entries
encode_object es t = codes "NSMO" ++ encode_entries es t

-- The lengths have 16 bits, and one of the texts is not empty.
abbrev pub Fits : Bytes × Bytes → Type 0
Fits (key, value) =
    (length key < 2 ^ 16) × (length value < 2 ^ 16) × (0 < length key + length value)

take-append : (s t : Bytes) → take (length s) (s ++ t) ≡ s
take-append [] t = refl
take-append (x ∷ s) t = ap (λ r. x ∷ r) (take-append s t)

drop-append_suc : (s t : Bytes) (x : ℕ) → drop (suc (length s)) (s ++ (x ∷ t)) ≡ t
drop-append_suc [] t x = refl
drop-append_suc (y ∷ s) t x = drop-append_suc s t x

drop-append : (s t : Bytes) (x : ℕ) → drop (length s + 1) (s ++ (x ∷ t)) ≡ t
drop-append s t x =
    ap (λ n. drop n (s ++ (x ∷ t))) {y = suc (length s)} (omega arith) ∙ drop-append_suc s t x

length-texts :
    (key value t : Bytes)
    → length (key ++ (0 ∷ (value ++ (0 ∷ t)))) ≡ length key + length value + 2 + length t
length-texts key value t =
    omega (arith, length-append key (0 ∷ (value ++ (0 ∷ t))), length-append value (0 ∷ t))

read_texts-encode_entry :
    (key value t : Bytes)
    → read_texts (length key) (length value) (key ++ (0 ∷ (value ++ (0 ∷ t))))
      ≡ some (key, value, t)
unfolding read_texts
read_texts-encode_entry key value t =
    let fits : leb (length key + length value + 2) (length (key ++ (0 ∷ (value ++ (0 ∷ t)))))
        ≡ true =
      ground (arith, length-texts key value t) in
    rw (
      fits,
      drop-append key (value ++ (0 ∷ t)) 0,
      drop-append value t 0,
      take-append key (0 ∷ (value ++ (0 ∷ t))),
      take-append value (0 ∷ t),
    )

read_entry-encode_entry :
    (key value t : Bytes)
    → Fits (key, value)
    → read_entry (encode_entry (key, value) t) ≡ some (key, value, t)
unfolding read_entry encode_entry
read_entry-encode_entry key value t (hk, hv, h) =
    let texts = key ++ (0 ∷ (value ++ (0 ∷ t))) in
    let more : ltb 6 (length (encode_entry (key, value) t)) ≡ true =
      ground (arith, h, length-texts key value t) in
    ap
      (λ b.
        if b
        then read_texts (length key / 256 * 256 + length key % 256)
            (length value / 256 * 256 + length value % 256) texts
        else none)
      more
    ∙ ap₂ (λ m n. read_texts m n texts) (omega (arith, hk)) (omega (arith, hv))
    ∙ read_texts-encode_entry key value t

-- Bytes at the end that are too few for an entry are left alone.
read_entry-few : (s : Bytes) → length s ≤ 6 → read_entry s ≡ none
unfolding read_entry
read_entry-few s h = ground (arith, h)

length-encode_entry : (e : Bytes × Bytes) (t : Bytes) → 6 + length t ≤ length (encode_entry e t)
unfolding encode_entry
length-encode_entry (key, value) t = omega (arith, length-texts key value t)

object_loop-encode_entries :
    (f : ℕ) (es c : Collection) (t : Bytes)
    → All Fits es
    → length t ≤ 6
    → length es ≤ f
    → object_loop f (encode_entries es t) c ≡ assign_each es c
unfolding encode_entries object_loop
object_loop-encode_entries zero [] c t hs ht k = unfold object_loop in refl
object_loop-encode_entries (suc f) [] c t hs ht k = rw (object_loop, read_entry-few t ht)
object_loop-encode_entries zero (e ∷ es) c t hs ht k = absurd (omega (arith, k))
object_loop-encode_entries (suc f) ((key, value) ∷ es) c t (he, hs) ht k =
    first ∙ object_loop-encode_entries f es (assign key value c) t hs ht (omega (arith, k))
  where
    first :
        object_loop (suc f) (encode_entry (key, value) (encode_entries es t)) c
        ≡ object_loop f (encode_entries es t) (assign key value c)
    first = rw (object_loop, read_entry-encode_entry key value (encode_entries es t) he)

length-encode_entries :
    (es : Collection) (t : Bytes) → 6 * length es + length t ≤ length (encode_entries es t)
unfolding encode_entries
length-encode_entries [] t = omega arith
length-encode_entries (e ∷ es) t =
    omega (arith, length-encode_entries es t, length-encode_entry e (encode_entries es t))

-- A compiled collection is loaded whole: each entry is assigned, in the order of the data, and up
-- to six bytes behind the entries are left alone. There is at least one entry, or one such byte.
pub load_object-encode_object :
    (es c : Collection) (t : Bytes)
    → All Fits es
    → length t ≤ 6
    → 0 < length es + length t
    → load_object (encode_object es t) c ≡ some (assign_each es c)
unfolding load_object encode_object str_eq
load_object-encode_object es c t hs ht h =
    let size = length (encode_object es t) in
    let more : ltb 4 size ≡ true = ground (arith, h, length-encode_entries es t) in
    ap (λ b. if b then some (object_loop size (encode_entries es t) c) else none) more
    ∙ ap (λ d. some d)
        (object_loop-encode_entries size es c t hs ht (omega (arith, length-encode_entries es t)))
