-- ===== src/Updater/Verify/Accepted.antt =====
-- When a file is accepted.
use libappupdater.CLib.{strtol_auto, to_unsigned}
use libappupdater.Config.Keys.{KeyTable, public_key_find}
use libappupdater.Util.Base64.{decode}
use libappupdater.Manifest.{AutoManifest}
use libappupdater.Prelude.{
  joined, ℕ, ◌<◌, Bytes, Bool, true, false, not, List, [], ◌∷◌, ◌++◌, Option, none, some, map, ◌≡◌,
  ◌≢◌, ◌↔◌, refl, sym, ap, ap₂, ◌∙◌, arith, All, ◌==◌, ◌⊎◌, inl, inr, length, subst, Bool-cases,
  str_eq, str_eq_iff, is_empty, if◌then◌else◌,
}
use libappupdater.Util.Hex.{to_string}
use libappupdater.Updater.Verify.{
  Crypto, Verdict, threw, refused, verified, KeyCheck, bad_key, no_key, signed_with, key_check,
  Context, update, read_loop, start, compare_hash, check_hash, check_image, verify, signature_check,
  signature_length,
}

module _ (c : Crypto) where
  open c use {
    Hash, create_hash, hash_data, hash_data_fails, hash_value, verify_init, verify_update,
    verify_final, hash_data_nil, hash_data_append, verify_update_nil, verify_update_append,
  }

  update-nil : (v : Context c) → v ≡ update c [] v
  update-nil none = refl
  update-nil (some v) = ap some (sym (verify_update_nil v))

  update-append : (a b : Bytes) (v : Context c) → update c b (update c a v) ≡ update c (a ++ b) v
  update-append a b none = refl
  update-append a b (some v) = ap some (sym (verify_update_append a b v))

  -- A piece that a read can return and the hash takes.
  pub record IsRead (piece : Bytes) : Type 0 where
    pub nonempty : is_empty piece ≡ false
    pub hashed : hash_data_fails piece ≡ false

  -- The loop sees the whole contents, in whatever pieces it is read.
  pub read_loop-joined :
      (pieces : List Bytes) (h : Hash) (v : Context c)
      → All IsRead pieces
      → read_loop c (map some pieces) h v
        ≡ some (hash_data (joined pieces) h, update c (joined pieces) v)
  unfolding read_loop
  read_loop-joined [] h v p = ap₂ (λ x y. some (x, y)) (sym (hash_data_nil h)) (update-nil v)
  read_loop-joined (s ∷ ss) h v p =
      rw (p.0.nonempty, p.0.hashed)
        (read_loop-joined ss (hash_data s h) (update c s v) (p.1)
          ∙ ap₂ (λ x y. some (x, y)) (sym (hash_data_append s (joined ss) h))
              (update-append s (joined ss) v))

  -- The attribute that the hash is compared with.
  abbrev pub expected_hash : AutoManifest → Bytes
  expected_hash m =
      if not (is_empty m.attribute_sha_signature)
      then m.attribute_sha_signature
      else m.attribute_md5_signature

  -- The contents carry a valid signature, where one is wanted.
  abbrev pub IsSigned : Bytes → KeyCheck → Type 0
  IsSigned contents bad_key = ⊥
  IsSigned contents no_key = Unit {0}
  IsSigned contents (signed_with signature key) =
      verify_final (verify_update contents (verify_init signature key)) ≡ true

  -- The hash of the contents is the expected one.
  abbrev pub IsHashed : AutoManifest → Bytes → Option Hash → Type 0
  IsHashed m contents none = ⊥
  IsHashed m contents (some h) = to_string (hash_value (hash_data contents h)) ≡ expected_hash m

  -- The contents are signed with the key that the manifest names.
  pub record IsSignedFile (t : KeyTable) (m : AutoManifest) (contents : Bytes) : Type 0 where
    pub signature : Bytes
    pub key : Bytes
    pub key_found : public_key_find m.attribute_ed_key_version t ≡ some key
    pub decoded : decode m.attribute_ed_signature signature_length ≡ some signature
    pub right_length : length signature ≡ signature_length
    pub signed : verify_final (verify_update contents (verify_init signature key)) ≡ true

  -- What `Verify` promises of a file that it accepts.
  pub record IsVerified (t : KeyTable) (m : AutoManifest) (size : ℕ) (contents : Bytes)
      : Type 0 where
    pub nonempty : 0 < size
    pub same_size : size ≡ to_unsigned (strtol_auto m.attribute_length)
    pub hashed : IsHashed m contents (create_hash (not (is_empty m.attribute_sha_signature)))
    pub signed : (t.public_keys ≡ 0) ⊎ IsSignedFile t m contents

  -- The same, by what the check of the key has found.
  pub record Passes (t : KeyTable) (m : AutoManifest) (size : ℕ) (contents : Bytes) : Type 0 where
    pub nonempty : 0 < size
    pub same_size : size ≡ to_unsigned (strtol_auto m.attribute_length)
    pub hashed : IsHashed m contents (create_hash (not (is_empty m.attribute_sha_signature)))
    pub signed : IsSigned contents (key_check t m)

  unsigned_verdict :
      (a b : Bytes) → ((if str_eq a b then verified else refused) ≡ verified) ↔ ((a ≡ b) × Unit {0})
  unsigned_verdict a b = ground (arith, str_eq_iff a b)

  signed_verdict :
      (a b : Bytes) (o : Bool)
      → ((if str_eq a b then (if o then verified else refused) else refused) ≡ verified)
        ↔ ((a ≡ b) × (o ≡ true))
  signed_verdict a b o = ground (arith, str_eq_iff a b)

  compare_hash-verified :
      (k : KeyCheck) (m : AutoManifest) (contents : Bytes) (h : Hash)
      → k ≢ bad_key
      → (compare_hash c m (hash_data contents h, update c contents (start c k)) ≡ verified)
        ↔ ((to_string (hash_value (hash_data contents h)) ≡ expected_hash m) × IsSigned contents k)
  unfolding compare_hash start
  compare_hash-verified bad_key m contents h ne = absurd (ne refl)
  compare_hash-verified no_key m contents h ne =
      unsigned_verdict (to_string (hash_value (hash_data contents h))) (expected_hash m)
  compare_hash-verified (signed_with signature key) m contents h ne =
      signed_verdict (to_string (hash_value (hash_data contents h))) (expected_hash m)
        (verify_final (verify_update contents (verify_init signature key)))

  check_hash-verified :
      (k : KeyCheck) (m : AutoManifest) (size : ℕ) (pieces : List Bytes) (o : Option Hash)
      → All IsRead pieces
      → k ≢ bad_key
      → (check_hash c m (record { size = size; reads = map some pieces }) (start c k) o ≡ verified)
        ↔ (IsHashed m (joined pieces) o × IsSigned (joined pieces) k)
  unfolding check_hash
  check_hash-verified k m size pieces none p ne = ground arith
  check_hash-verified k m size pieces (some h) p ne =
      rw (read_loop-joined pieces h (start c k) p, check_hash)
        (compare_hash-verified k m (joined pieces) h ne)

  check_image-verified :
      (k : KeyCheck) (m : AutoManifest) (size : ℕ) (pieces : List Bytes)
      → All IsRead pieces
      → k ≢ bad_key
      → (check_image c m (record { size = size; reads = map some pieces }) (start c k) ≡ verified)
        ↔ ((0 < size)
            × (size ≡ to_unsigned (strtol_auto m.attribute_length))
            × IsHashed m (joined pieces) (create_hash (not (is_empty m.attribute_sha_signature)))
            × IsSigned (joined pieces) k)
  unfolding check_image
  check_image-verified k m size pieces p ne =
      guarded size (to_unsigned (strtol_auto m.attribute_length)) _ _ _ (
        check_hash-verified k m size pieces (create_hash (not (is_empty m.attribute_sha_signature)))
          p ne)
    where
      guarded :
          (n e : ℕ) (v : Verdict) (A B : Type 0)
          → (v ≡ verified) ↔ (A × B)
          → ((if n == 0 then refused else if not (n == e) then refused else v) ≡ verified)
            ↔ ((0 < n) × (n ≡ e) × A × B)
      guarded n e v A B h = ground (arith, h)

  pub verify-Passes :
      (t : KeyTable) (m : AutoManifest) (size : ℕ) (pieces : List Bytes)
      → All IsRead pieces
      → (verify c t m (some (record { size = size; reads = map some pieces })) ≡ verified)
        ↔ Passes t m size (joined pieces)
  unfolding verify
  verify-Passes t m size pieces p = go (key_check t m) refl
    where
      checked :
          (k : KeyCheck)
          → key_check t m ≡ k
          → k ≢ bad_key
          → (check_image c m (record { size = size; reads = map some pieces }) (start c k)
              ≡ verified)
            ↔ Passes t m size (joined pieces)
      checked k e ne =
          let (there, back) = check_image-verified k m size pieces p ne in
          (
            λ h.
                let (a, b, d, f) = there h in
                record { nonempty = a; same_size = b; hashed = d; signed = rw e f },
            λ h. back (h.nonempty, h.same_size, h.hashed, rw e at h.signed),
          )

      go :
          (k : KeyCheck)
          → key_check t m ≡ k
          → ((elim k [
            | bad_key ↦ threw
            | j ↦ check_image c m (record { size = size; reads = map some pieces }) (start c j)
          ])
              ≡ verified)
            ↔ Passes t m size (joined pieces)
      go bad_key e = (λ h. ground (arith, h), λ h. absurd (rw e at h.signed))
      go no_key e = checked no_key e (λ q. ground (arith, q))
      go (signed_with s k) e = checked (signed_with s k) e (λ q. ground (arith, q))

  signature_check-IsSigned :
      (t : KeyTable) (m : AutoManifest) (contents key : Bytes)
      → public_key_find m.attribute_ed_key_version t ≡ some key
      → IsSigned contents (signature_check key m.attribute_ed_signature)
      → IsSignedFile t m contents
  unfolding signature_check
  signature_check-IsSigned t m contents key found h =
      go (is_empty m.attribute_ed_signature) (decode m.attribute_ed_signature signature_length) refl
        h
    where
      long :
          (s : Bytes) (b : Bool)
          → (length s == signature_length) ≡ b
          → decode m.attribute_ed_signature signature_length ≡ some s
          → IsSigned contents (if b then signed_with s key else bad_key)
          → IsSignedFile t m contents
      long s true l e h = record {
        signature = s;
        key = key;
        key_found = found;
        decoded = e;
        right_length = ground (arith, l);
        signed = h;
      }
      long s false l e h = absurd h

      go :
          (b : Bool) (o : Option Bytes)
          → decode m.attribute_ed_signature signature_length ≡ o
          → IsSigned contents (
              if b then bad_key else elim o [
                | none ↦ bad_key
                | some s ↦ if length s == signature_length then signed_with s key else bad_key
              ])
          → IsSignedFile t m contents
      go true o e h = absurd h
      go false none e h = absurd h
      go false (some s) e h = long s (length s == signature_length) refl e h

  key_check-IsSigned :
      (t : KeyTable) (m : AutoManifest) (contents : Bytes)
      → IsSigned contents (key_check t m)
      → (t.public_keys ≡ 0) ⊎ IsSignedFile t m contents
  unfolding key_check
  key_check-IsSigned t m contents h =
      go (t.public_keys == 0) (public_key_find m.attribute_ed_key_version t) refl refl h
    where
      go :
          (b : Bool) (o : Option Bytes)
          → (t.public_keys == 0) ≡ b
          → public_key_find m.attribute_ed_key_version t ≡ o
          → IsSigned contents (
              if b then no_key else elim o [
                | none ↦ bad_key
                | some key ↦ signature_check key m.attribute_ed_signature
              ])
          → (t.public_keys ≡ 0) ⊎ IsSignedFile t m contents
      go true o b e h = inl (ground (arith, b))
      go false none b e h = absurd h
      go false (some key) b e h = inr (signature_check-IsSigned t m contents key e h)

  -- A text whose decoding has the length of a signature is not empty.
  decoded-is_empty :
      (text signature : Bytes)
      → decode text signature_length ≡ some signature
      → length signature ≡ signature_length
      → is_empty text ≡ false
  unfolding decode
  decoded-is_empty [] signature e l = absurd (ground (arith, e, l))
  decoded-is_empty (x ∷ text) signature e l = refl

  IsSignedFile-signed_with :
      (t : KeyTable) (m : AutoManifest) (contents : Bytes)
      → t.public_keys ≢ 0
      → (f : IsSignedFile t m contents) → key_check t m ≡ signed_with f.signature f.key
  unfolding key_check signature_check
  IsSignedFile-signed_with t m contents keyed f =
      let some_keys : (t.public_keys == 0) ≡ false = ground (arith, keyed) in
      let present =
        decoded-is_empty m.attribute_ed_signature f.signature f.decoded f.right_length in
      let long : (length f.signature == signature_length) ≡ true = ground (arith, f.right_length) in
      rw (some_keys, f.key_found, present, f.decoded, long) refl

  signed-key_check :
      (t : KeyTable) (m : AutoManifest) (contents : Bytes)
      → (t.public_keys ≡ 0) ⊎ IsSignedFile t m contents
      → IsSigned contents (key_check t m)
  signed-key_check t m contents h = elim (Bool-cases (t.public_keys == 0)) [
    | inl none_set ↦ subst (IsSigned contents) (sym (unkeyed none_set)) tt
    | inr some_set ↦ elim h [
      | inl z ↦ absurd (ground (arith, z, some_set))
      | inr f ↦
          subst (IsSigned contents)
            (sym (IsSignedFile-signed_with t m contents (λ z. ground (arith, z, some_set)) f))
            f.signed
    ]
  ]
    where
      unkeyed : (t.public_keys == 0) ≡ true → key_check t m ≡ no_key
      unkeyed e = unfold key_check in rw e refl

  -- A file that is read without error is accepted just when it is not empty, has the length and the
  -- hash that the manifest states, and, if the application has set a public key, the manifest names
  -- a key that is there and its signature is that key's of the contents.
  pub verify-IsVerified :
      (t : KeyTable) (m : AutoManifest) (size : ℕ) (pieces : List Bytes)
      → All IsRead pieces
      → (verify c t m (some (record { size = size; reads = map some pieces })) ≡ verified)
        ↔ IsVerified t m size (joined pieces)
  verify-IsVerified t m size pieces p =
      let (there, back) = verify-Passes t m size pieces p in
      (
        λ h.
            let k = there h in
            record {
              nonempty = k.nonempty;
              same_size = k.same_size;
              hashed = k.hashed;
              signed = key_check-IsSigned t m (joined pieces) k.signed;
            },
        λ h. back (record {
          nonempty = h.nonempty;
          same_size = h.same_size;
          hashed = h.hashed;
          signed = signed-key_check t m (joined pieces) h.signed;
        }),
      )
