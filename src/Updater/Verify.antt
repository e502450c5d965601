-- ===== src/Updater/Verify.antt =====
-- src/AutoUpdater.cpp: `AutoUpdater::Verify`. The system's hashes and the ed25519 library are an
-- interface; a file is its size and what the calls of `ReadFile` return, `none` for one that fails
-- and an empty text at the end. Memory is never short.
pub mod Accepted
pub mod Trusted
use libappupdater.CLib.{strtol_auto, to_unsigned}
use libappupdater.Config.Keys.{KeyTable, public_key_number, public_key_find}
use libappupdater.Manifest.{AutoManifest}
use libappupdater.Prelude.{
  ℕ, ◌%◌, ◌^◌, Bytes, Bool, true, false, not, ◌&&◌, List, [], ◌∷◌, ◌++◌, Option, none, some, ◌≡◌,
  ◌==◌, length, str_eq, is_empty, if◌then◌else◌,
}
use libappupdater.Util.Base64.{decode}
use libappupdater.Util.Hex.{to_string}

-- What `Verify` calls: `CryptCreateHash` for SHA-1 or MD5, `CryptHashData`, `CryptGetHashParam`,
-- and `ed25519_verify_init`, `_update` and `_final`. A hash and a verification take their data as a
-- stream: in any pieces, the empty one without effect.
pub record Crypto : Type 1 where
  pub Hash : Type 0
  pub Verification : Type 0
  pub create_hash : Bool → Option Hash
  pub hash_data : Bytes → Hash → Hash
  pub hash_data_fails : Bytes → Bool
  pub hash_value : Hash → Bytes
  pub verify_init : Bytes → Bytes → Verification
  pub verify_update : Bytes → Verification → Verification
  pub verify_final : Verification → Bool
  pub hash_data_nil : (h : Hash) → hash_data [] h ≡ h
  pub hash_data_append :
      (a b : Bytes) (h : Hash) → hash_data (a ++ b) h ≡ hash_data b (hash_data a h)
  pub verify_update_nil : (v : Verification) → verify_update [] v ≡ v
  pub verify_update_append :
      (a b : Bytes) (v : Verification)
      → verify_update (a ++ b) v ≡ verify_update b (verify_update a v)

pub data Verdict : Type 0 where
  threw refused verified : Verdict

pub data KeyCheck : Type 0 where
  bad_key no_key : KeyCheck
  signed_with : Bytes → Bytes → KeyCheck

-- `ED25519_SIGNATURE_LENGTH`
abbrev pub signature_length : ℕ
signature_length = 64

unfoldable pub signature_check : Bytes → Bytes → KeyCheck
unfolding decode
signature_check key signature =
    if is_empty signature then bad_key else elim (decode signature signature_length) [
      | none ↦ bad_key
      | some s ↦ if length s == signature_length then signed_with s key else bad_key
    ]

-- The first part: the signature and the public key, when the application has set a key.
unfoldable pub key_check : KeyTable → AutoManifest → KeyCheck
unfolding public_key_find signature_check
key_check t m =
    if public_key_number t == 0
    then no_key
    else elim (public_key_find m.attribute_ed_key_version t) [
      | none ↦ bad_key
      | some key ↦ signature_check key m.attribute_ed_signature
    ]

-- An open file: what `GetFileSize` and the calls of `ReadFile` return.
pub record Image : Type 0 where
  pub size : ℕ
  pub reads : List (Option Bytes)

module _ (c : Crypto) where
  open c use {
    Hash, Verification, create_hash, hash_data, hash_data_fails, hash_value, verify_init,
    verify_update, verify_final,
  }

  -- `ed25519_context`, NULL when there is no key.
  abbrev pub Context : Type 0
  Context = Option Verification

  abbrev pub update : Bytes → Context → Context
  update piece none = none
  update piece (some v) = some (verify_update piece v)

  -- The reading loop; `none` is an error of a read or of the hash.
  unfoldable pub read_loop : List (Option Bytes) → Hash → Context → Option (Hash × Context)
  read_loop [] h v = some (h, v)
  read_loop (none ∷ rest) h v = none
  read_loop (some piece ∷ rest) h v =
      let next = read_loop rest (hash_data piece h) (update piece v) in
      if is_empty piece then some (h, v) else if hash_data_fails piece then none else next

  unfoldable pub start : KeyCheck → Context
  start (signed_with signature key) = some (verify_init signature key)
  start _ = none

  -- The last part: the comparisons of the hash and the signature.
  unfoldable pub compare_hash : AutoManifest → Hash × Context → Verdict
  unfolding str_eq to_string
  compare_hash m (h, v) =
      let is_sha = not (is_empty m.attribute_sha_signature) in
      let expected = if is_sha then m.attribute_sha_signature else m.attribute_md5_signature in
      if str_eq (to_string (hash_value h)) expected
      then (elim v [ none ↦ verified | some w ↦ if verify_final w then verified else refused ])
      else refused

  unfoldable pub check_hash : AutoManifest → Image → Context → Option Hash → Verdict
  unfolding read_loop compare_hash
  check_hash m image v none = threw
  check_hash m image v (some h) = elim (read_loop image.reads h v) [
    | none ↦ threw
    | some r ↦ compare_hash m r
  ]

  -- What is done with the open file.
  unfoldable pub check_image : AutoManifest → Image → Context → Verdict
  unfolding check_hash strtol_auto
  check_image m image v =
      if image.size == 0
      then refused
      else if not (image.size == to_unsigned (strtol_auto m.attribute_length))
      then refused
      else check_hash m image v (create_hash (not (is_empty m.attribute_sha_signature)))

  -- `Verify`; no file is one that cannot be opened.
  unfoldable pub verify : KeyTable → AutoManifest → Option Image → Verdict
  unfolding key_check check_image start
  verify t m file = elim (key_check t m) [
    | bad_key ↦ threw
    | k ↦ elim file [ none ↦ threw | some image ↦ check_image m image (start k) ]
  ]
