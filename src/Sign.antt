-- ===== src/Sign.antt =====
-- sign/signmanifest.cpp: `SignManifest` and `SignManifestEd`. A file is what the system's calls
-- return for it; the time, its text as a date and the ed25519 library are parameters, and the
-- hashes are those of `Verify`. Memory is never short, and the value of a hash can always be had.
-- The self-checks of debug builds are left out.
pub mod Plain
pub mod Markup
pub mod Reading
pub mod Signed
pub mod Accepted
pub mod Tool
use libappupdater.CLib.{print_unsigned}
use libappupdater.Manifest.Parser.{Attrs, strip_prefix}
use libappupdater.Prelude.{
  ℕ, Bytes, Bool, true, false, not, ◌||◌, List, [], ◌∷◌, ◌++◌, Option, none, some, ◌≡◌, All, codes,
  length, ltb, leb, ◌==◌, if◌then◌else◌,
}
use libappupdater.Updater.Verify.{Crypto, signature_length}
use libappupdater.Util.Base64.{encode_to_string}
use libappupdater.Util.Basename.{basename}
use libappupdater.Util.Hex.{to_string}
use libappupdater.Util.Tables.{IsByte}

pub record SignKeyPair : Type 0 where
  pub public_key : Bytes
  pub private_key : Bytes

-- `ed25519_sign`: the signature of a key pair is accepted by the verification with its public key.
pub record Signer (c : Crypto) : Type 1 where
  pub IsPair : SignKeyPair → Type 0
  pub sign : Bytes → SignKeyPair → Bytes
  pub sign_length : (s : Bytes) (k : SignKeyPair) → length (sign s k) ≡ signature_length
  pub sign_bytes : (s : Bytes) (k : SignKeyPair) → All IsByte (sign s k)
  pub sign_verifies :
      (s : Bytes) (k : SignKeyPair)
      → IsPair k
      → c.verify_final (c.verify_update s (c.verify_init (sign s k) k.public_key)) ≡ true

-- The exceptions.
pub data SignError : Type 0 where
  unable_to_open empty_image exceeds_2gb cannot_read hash_failed : SignError

-- What `GetFileSizeEx` and `ReadFile` return for an open file.
pub record Source : Type 0 where
  pub file_size : Option ℕ
  pub contents : Option Bytes

pub data Loaded : Type 0 where
  loaded : Bytes → Loaded
  not_loaded : SignError → Loaded

abbrev read_source : ℕ → Option Bytes → Loaded
read_source size none = not_loaded cannot_read
read_source size (some s) = if length s == size then loaded s else not_loaded cannot_read

-- `INT_MAX`
abbrev pub int_max : ℕ
int_max = 2147483647

abbrev load_sized : Source → ℕ → Loaded
load_sized source size =
    if size == 0
    then not_loaded empty_image
    else if leb int_max size
    then not_loaded exceeds_2gb
    else read_source size source.contents

-- `File::load`
unfoldable pub load : Option Source → Loaded
load none = not_loaded unable_to_open
load (some source) = elim source.file_size [
  | none ↦ not_loaded empty_image
  | some size ↦ load_sized source size
]

-- `strstr`: what stands before the first occurrence, and behind it.
unfoldable pub split_at : Bytes → Bytes → Option (Bytes × Bytes)
unfolding strip_prefix
split_at orig [] = elim (strip_prefix orig []) [ none ↦ none | some rest ↦ some ([], rest) ]
split_at orig (c ∷ s) = elim (strip_prefix orig (c ∷ s)) [
  | some rest ↦ some ([], rest)
  | none ↦ elim (split_at orig s) [ none ↦ none | some (before, after) ↦ some (c ∷ before, after) ]
]

-- What `_snprintf` leaves in a buffer; none if the text has no NUL behind it there.
abbrev pub snprintf : ℕ → Bytes → Option Bytes
snprintf buflen s = if ltb (length s) buflen then some s else none

-- `ReplaceString`, with the text that the buffer then holds; none if it ends in no NUL.
unfoldable pub replace_string : Bytes → Bytes → Bytes → ℕ → Option Bytes
unfolding split_at
replace_string str orig rep buflen = elim (split_at orig str) [
  | none ↦ snprintf buflen str
  | some (before, after) ↦
      if leb buflen (length before) then none else snprintf buflen (before ++ rep ++ after)
]

-- `Hash`, for SHA-1 or MD5; none for an exception.
unfoldable pub hash : Crypto → Bool → Bytes → Option Bytes
unfolding to_string
hash c is_sha s = elim (c.create_hash is_sha) [
  | none ↦ none
  | some h ↦ if c.hash_data_fails s then none else some (to_string (c.hash_value (c.hash_data s h)))
]

-- What the enclosure says of a file.
pub record Enclosure : Type 0 where
  pub url : Bytes
  pub name : Bytes
  pub version : Bytes
  pub size : ℕ
  pub md5 : Bytes
  pub sha : Bytes
  pub dsa : Bytes
  pub keyversion : ℕ

-- The attributes of the enclosure.
abbrev pub enclosure_of : Enclosure → Attrs
enclosure_of e =
    (codes "url", e.url)
    ∷ (codes "os", codes "windows")
    ∷ (codes "name", e.name)
    ∷ (codes "version", e.version)
    ∷ (codes "length", print_unsigned e.size)
    ∷ (codes "md5Signature", e.md5)
    ∷ (codes "shaSignature", e.sha)
    ∷ (codes "edSignature", e.dsa)
    ∷ (codes "edKeyVersion", codes "1." ++ print_unsigned e.keyversion)
    ∷ (codes "type", codes "application/octet-stream")
    ∷ []

abbrev pub attribute_text : Bytes × Bytes → Bytes
attribute_text (name, value) = name ++ codes "=\"" ++ value ++ codes "\""

-- Attributes, one a line.
abbrev pub attributes_text : Attrs → Bytes
attributes_text [] = []
attributes_text (a ∷ []) = attribute_text a
attributes_text (a ∷ b ∷ rest) = attribute_text a ++ codes "\n\t\t" ++ attributes_text (b ∷ rest)

-- What is written to `std::cout`.
abbrev pub item_text : ℕ → Bytes → Attrs → Bytes
item_text now pub_date enclosure =
    codes "\n\t<title></title>\n\t<link></link>\n\t<description></description>\n\t<published>"
    ++ print_unsigned now
    ++ codes "</published>\n\t<pubDate>"
    ++ pub_date
    ++ codes "</pubDate>\n\t<enclosure "
    ++ attributes_text enclosure
    ++ codes " />\n\n"

-- What the tool does: it prints an item, shows an error, or reads on behind the end of `t_url`.
pub data Outcome : Type 0 where
  printed : Bytes → Outcome
  failed : SignError → Outcome
  overrun : Outcome

-- The surroundings: `time`, and its text as a date.
pub record Clock : Type 0 where
  pub now : ℕ
  pub pub_date : Bytes

-- `Sign`, or no text where there is no pair of keys.
unfoldable pub signature : (c : Crypto) → Signer c → Option SignKeyPair → Bytes → Bytes
unfolding encode_to_string
signature c signer none s = []
signature c signer (some k) s = encode_to_string (signer.sign s k)

module _ (c : Crypto) (signer : Signer c) (clock : Clock) where
  unfoldable pub sign_loaded : Bytes → Bytes → Bytes → Option SignKeyPair → ℕ → Loaded → Outcome
  unfolding hash signature replace_string basename
  sign_loaded filename version url keypair keyversion (not_loaded e) = failed e
  sign_loaded filename version url keypair keyversion (loaded s) = elim (hash c true s) [
    | none ↦ failed hash_failed
    | some sha ↦ elim (hash c false s) [
      | none ↦ failed hash_failed
      | some md5 ↦ elim (replace_string url (codes "%%") (basename filename) 1024) [
        | none ↦ overrun
        | some t_url ↦ printed (
            item_text clock.now clock.pub_date (
              enclosure_of (record {
                url = t_url;
                name = basename filename;
                version = version;
                size = length s;
                md5 = md5;
                sha = sha;
                dsa = signature c signer keypair s;
                keyversion = keyversion;
              })))
      ]
    ]
  ]

  -- `SignManifestEd`
  unfoldable pub sign_manifest_ed :
      (Bytes → Option Source) → Bytes → Bytes → Bytes → Option SignKeyPair → ℕ → Outcome
  unfolding load sign_loaded
  sign_manifest_ed open_file filename version url keypair keyversion =
      sign_loaded filename version url keypair keyversion (load (open_file filename))

  -- `SignManifest`
  unfoldable pub sign_manifest : (Bytes → Option Source) → Bytes → Bytes → Bytes → Outcome
  unfolding sign_manifest_ed
  sign_manifest open_file filename version url =
      sign_manifest_ed open_file filename version url none 0
