-- ===== src/Config/Keys.antt =====
-- src/AutoConfig.cpp: the public keys of `Config`, `ed25519_keys_` and `public_keys_`. The lock is
-- held throughout each operation. An exception is an error value.
pub mod Table
pub mod Encoded
use libappupdater.CLib.{scan_pair}
use libappupdater.Prelude.{
  ℕ, suc, ◌+◌, Bytes, Bool, true, false, not, List, [], ◌∷◌, Option, none, some, ◌==◌, length,
  if◌then◌else◌,
}
use libappupdater.Util.Base64.{decode_to_string}

-- The exceptions of the class, by their messages.
pub data KeyError : Type 0 where
  error_decoding version_incorrect key_length_incorrect key_table_full : KeyError

pub data KeyResult (A : Type 0) : Type 0 where
  ok : A → KeyResult A
  throws : KeyError → KeyResult A

-- `ED25519_PUBLIC_LENGTH`
abbrev pub public_length : ℕ
public_length = 32

-- `Ed25519Key`; version 0 marks a free slot.
pub record Ed25519Key : Type 0 where
  pub version : ℕ
  pub public_key : Bytes

pub record KeyTable : Type 0 where
  pub ed25519_keys : List Ed25519Key
  pub public_keys : ℕ

-- The loop of `SetEd25519Key`: the slots after it, and whether a free one was taken.
unfoldable pub set_slot : Bytes → ℕ → List Ed25519Key → Option (Bool × List Ed25519Key)
set_slot key version [] = none
set_slot key version (k ∷ ks) =
    if k.version == version
    then some (false, record { version = version; public_key = key } ∷ ks)
    else if k.version == 0
    then some (true, record { version = version; public_key = key } ∷ ks)
    else elim (set_slot key version ks) [
      | none ↦ none
      | some (taken, rest) ↦ some (taken, k ∷ rest)
    ]

-- `SetEd25519Key`
unfoldable pub set_ed25519_key : Bytes → ℕ → KeyTable → KeyResult KeyTable
unfolding set_slot
set_ed25519_key key version t =
    if version == 0
    then throws version_incorrect
    else if not (length key == public_length)
    then throws key_length_incorrect
    else elim (set_slot key version t.ed25519_keys) [
      | none ↦ throws key_table_full
      | some (taken, rest) ↦ ok (record {
        ed25519_keys = rest;
        public_keys = if taken then t.public_keys + 1 else t.public_keys;
      })
    ]

-- `SetPublicKey`
unfoldable pub set_public_key : Bytes → ℕ → KeyTable → KeyResult KeyTable
unfolding set_ed25519_key
set_public_key base64 version t =
    let key = decode_to_string base64 in
    if not (length key == public_length)
    then throws error_decoding
    else set_ed25519_key key version t

-- `PublicKeyNumber`
abbrev pub public_key_number : KeyTable → ℕ
public_key_number t = t.public_keys

-- The loop of `PublicKeyFind`.
unfoldable pub find_slot : ℕ → List Ed25519Key → Option Bytes
find_slot version [] = none
find_slot version (k ∷ ks) =
    if k.version == version then some k.public_key else find_slot version ks

abbrev pub find_of_type : ℕ → ℕ → List Ed25519Key → Option Bytes
find_of_type type version ks = if type == 1 then find_slot version ks else none

-- `PublicKeyFind`: the key, whose type is then 1 and whose length is `public_length`.
unfoldable pub public_key_find : Bytes → KeyTable → Option Bytes
unfolding find_slot scan_pair
public_key_find keyversion t = elim (scan_pair keyversion) [
  | none ↦ none
  | some (type, version) ↦ find_of_type type version t.ed25519_keys
]
