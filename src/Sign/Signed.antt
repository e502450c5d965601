-- ===== src/Sign/Signed.antt =====
-- sign/signmanifest.cpp: the hashes and the signature that the tool prints, as `Verify` reads them.
use libappupdater.CLib.{print_unsigned}
use libappupdater.CLib.Scanned.{scan_pair-print_unsigned}
use libappupdater.Config.Keys.{KeyTable, ok, public_length, set_ed25519_key, public_key_find}
use libappupdater.Config.Keys.Table.{IsKeyTable, KeyStored, set_ed25519_key-KeyStored}
use libappupdater.Manifest.{AutoManifest}
use libappupdater.Prelude.{
  ℕ, ◌^◌, ◌<◌, Bytes, Bool, true, false, [], ◌∷◌, ◌++◌, Option, none, some, ◌≡◌, ◌≢◌, refl, sym, ap,
  subst, ◌∙◌, arith, All, codes, length, is_empty, ◌==◌, if◌then◌else◌, Bool-cases, inl, inr,
}
use libappupdater.Sign.{SignKeyPair, Signer, Source, loaded, int_max, load, hash, signature}
use libappupdater.Sign.Plain.{IsPlain, IsPlain-to_string, IsPlain-encode_text}
use libappupdater.Updater.Verify.{Crypto, signed_with, key_check, signature_check, signature_length}
use libappupdater.Updater.Verify.Accepted.{IsSigned, IsHashed, expected_hash}
use libappupdater.Util.Base64.{encode_text, encode_to_string}
use libappupdater.Util.Base64.RoundTrip.{decode-encode_text}
use libappupdater.Util.Hex.{to_string}
use libappupdater.Util.Tables.{IsByte}

pub load-bounds :
    (file : Option Source) (s : Bytes)
    → load file ≡ loaded s
    → (0 < length s) × (length s < int_max)
unfolding load
load-bounds file s h = ground (arith, h)

encode_to_string_lem : (s : Bytes) → encode_to_string s ≡ encode_text s
unfolding encode_to_string
encode_to_string_lem s = ground arith

encode_text-nonempty : (s : Bytes) → 0 < length s → is_empty (encode_text s) ≡ false
unfolding encode_text
encode_text-nonempty [] h = absurd (omega arith)
encode_text-nonempty (a ∷ []) h = refl
encode_text-nonempty (a ∷ b ∷ []) h = refl
encode_text-nonempty (a ∷ b ∷ c ∷ s) h = refl

-- A signature of the right length is taken from its text.
signature_check-encode :
    (key s : Bytes)
    → All IsByte s
    → length s ≡ signature_length
    → signature_check key (encode_to_string s) ≡ signed_with s key
unfolding signature_check
signature_check-encode key s bytes len = rw (
  encode_to_string_lem s,
  encode_text-nonempty s (omega arith),
  decode-encode_text s signature_length bytes (omega arith) (omega arith),
  len,
)

module _ (c : Crypto) where
  -- The text that the tool prints as the hash is that which `Verify` wants.
  pub hash-IsHashed :
      (is_sha : Bool) (s text : Bytes) (m : AutoManifest)
      → hash c is_sha s ≡ some text
      → expected_hash c m ≡ text
      → IsHashed c m s (c.create_hash is_sha)
  unfolding hash
  hash-IsHashed is_sha s text m h e = go (c.create_hash is_sha) h
    where
      go :
          (o : Option c.Hash)
          → (elim o [
            | none ↦ none
            | some h ↦
                if c.hash_data_fails s
                then none
                else some (to_string (c.hash_value (c.hash_data s h)))
          ])
            ≡ some text
          → IsHashed c m s o
      go none q = ground (arith, q)
      go (some h) q = ground (arith, q, e)

-- The application has no public keys, or it has been given that of the pair under the version.
abbrev pub KnowsKey : (IsPair : SignKeyPair → Type 0) → KeyTable → Option SignKeyPair → ℕ → Type 0
KnowsKey IsPair t none version = t.public_keys ≡ 0
KnowsKey IsPair t (some k) version =
    IsPair k
    × (length k.public_key ≡ public_length)
    × (version ≢ 0)
    × (version < 2 ^ 32)
    × ((t₀ : KeyTable) × IsKeyTable t₀ × (set_ed25519_key k.public_key version t₀ ≡ ok t))

-- The key that was set is found by the version that is printed.
public_key_find-set :
    (key : Bytes) (version : ℕ) (t₀ t : KeyTable)
    → length key ≡ public_length
    → version ≢ 0
    → version < 2 ^ 32
    → IsKeyTable t₀
    → set_ed25519_key key version t₀ ≡ ok t
    → public_key_find (codes "1." ++ print_unsigned version) t ≡ some key
unfolding public_key_find
public_key_find-set key version t₀ t len nonzero fits valid e =
    let stored =
      subst (KeyStored key version t₀) e
        (set_ed25519_key-KeyStored key version t₀ valid nonzero len) in
    let same : (version == version) ≡ true = ground arith in
    rw (scan_pair-print_unsigned version fits, public_key_find) (stored.1 version nonzero ∙ rw same)

-- What is printed for a hash or a signature is plain text.
pub hash-IsPlain :
    (c : Crypto) (is_sha : Bool) (s text : Bytes)
    → ((h : c.Hash) → All IsByte (c.hash_value h))
    → hash c is_sha s ≡ some text
    → IsPlain text
unfolding hash
hash-IsPlain c is_sha s text bytes h = go (c.create_hash is_sha) h
  where
    printed_hash :
        (b : Bool) (v : Bytes)
        → All IsByte v
        → (if b then none else some (to_string v)) ≡ some text
        → IsPlain text
    printed_hash true v k q = absurd (ground (arith, q))
    printed_hash false v k q = subst IsPlain (ground (arith, q)) (IsPlain-to_string v k)

    go :
        (o : Option c.Hash)
        → (elim o [
          | none ↦ none
          | some h ↦
              if c.hash_data_fails s
              then none
              else some (to_string (c.hash_value (c.hash_data s h)))
        ])
          ≡ some text
        → IsPlain text
    go none q = absurd (ground (arith, q))
    go (some h) q =
        printed_hash (c.hash_data_fails s) (c.hash_value (c.hash_data s h))
          (bytes (c.hash_data s h)) q

pub signature-IsPlain :
    (c : Crypto) (signer : Signer c) (keypair : Option SignKeyPair) (s : Bytes)
    → IsPlain (signature c signer keypair s)
unfolding signature
signature-IsPlain c signer none s = tt
signature-IsPlain c signer (some k) s =
    subst IsPlain (sym (encode_to_string_lem (signer.sign s k)))
      (IsPlain-encode_text (signer.sign s k) (signer.sign_bytes s k))

module _ (c : Crypto) (signer : Signer c) where
  open signer use {IsPair, sign, sign_length, sign_bytes, sign_verifies}

  pub key_check-IsSigned :
      (t : KeyTable) (m : AutoManifest) (s : Bytes) (keypair : Option SignKeyPair) (version : ℕ)
      → KnowsKey IsPair t keypair version
      → m.attribute_ed_key_version ≡ codes "1." ++ print_unsigned version
      → m.attribute_ed_signature ≡ signature c signer keypair s
      → IsSigned c s (key_check t m)
  unfolding key_check
  key_check-IsSigned t m s none version k v e = rw k tt
  key_check-IsSigned t m s (some k) version (pair, len, nonzero, fits, (t₀, valid, stored)) v e =
      let found =
        ap (λ x. public_key_find x t) v
        ∙ public_key_find-set k.public_key version t₀ t len nonzero fits valid stored in
      let text : m.attribute_ed_signature ≡ encode_to_string (sign s k) = unfold signature in e in
      let signed =
        ap (signature_check k.public_key) text
        ∙ signature_check-encode k.public_key (sign s k) (sign_bytes s k) (sign_length s k) in
      elim (Bool-cases (t.public_keys == 0)) [
        | inl keyless ↦ rw keyless tt
        | inr keys ↦ rw (keys, found, signed) (sign_verifies s k pair)
      ]
