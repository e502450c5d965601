-- ===== src/Tests/Signing.antt =====
-- The signing tool: sign/signmanifest.cpp and signtoolshim.cpp.
use mathlib.Core.List.{append-nil, append_assoc}
use libappupdater.Config.Keys.{KeyTable, set_ed25519_key}
use libappupdater.Config.Keys.Table.{zeros, free_slot, initial, initial-IsKeyTable}
use libappupdater.Manifest.{new_manifest}
use libappupdater.Manifest.Parser.{new_context}
use libappupdater.Prelude.{
  List, ℕ, ◌+◌, ◌*◌, ◌^◌, ◌⊎◌, none, suc, ◌%◌, Bytes, [], ◌∷◌, ◌++◌, Option, some, map, ◌≡◌, true,
  false, refl, sym, ap, arith, All, codes, length, str_eq, str_eq_iff,
}
use libappupdater.Sign.{
  SignKeyPair, Signer, Source, Clock, hash, replace_string, loaded, printed, load, sign_manifest_ed,
}
use libappupdater.Sign.Accepted.{IsAccepted, sign_manifest_ed-IsAccepted}
use libappupdater.Sign.Plain.{IsPlain, all_plain, all_plain-IsPlain}
use libappupdater.Sign.Signed.{KnowsKey}
use libappupdater.CLib.{print_unsigned}
use libappupdater.Util.Basename.{basename}
use libappupdater.Sign.Tool.{
  SignToolArgs, ToolSystem, usage, failure, signed, exe_version, sign_tool,
}
use libappupdater.Sign.Tool.Ending.{IsRun, sign_tool-IsRun}
use libappupdater.Util.Getopt.{kind, read_argument, next_argument, getopt}
use libappupdater.Updater.Verify.{Crypto}
use libappupdater.Util.Tables.{IsByte}

-- A hash that is its data, and a signature that is the length of its data.
abbrev seal : Bytes → Bytes
seal s = (length s % 256) ∷ zeros 63

zeros-IsByte : (n : ℕ) → All IsByte (zeros n)
zeros-IsByte ℕ.zero = tt
zeros-IsByte (suc n) = (omega arith, zeros-IsByte n)

seal_refl : (s : Bytes) → str_eq (seal s) (seal s) ≡ true
seal_refl s = (str_eq_iff (seal s) (seal s)).1 refl

seal-IsByte : (s : Bytes) → All IsByte (seal s)
seal-IsByte s = (omega arith, zeros-IsByte 63)

abbrev sealing : Crypto
sealing = record {
  Hash = Bytes;
  Verification = Bytes × Bytes;
  create_hash = λ is_sha. some [];
  hash_data = λ piece h. h ++ piece;
  hash_data_fails = λ piece. false;
  hash_value = λ h. map (λ c. c % 256) h;
  verify_init = λ signature key. (signature, []);
  verify_update = λ piece v. (v.0, v.1 ++ piece);
  verify_final = λ v. str_eq (v.0) (seal v.1);
  hash_data_nil = append-nil;
  hash_data_append = λ a b h. sym (append_assoc h a b);
  verify_update_nil = λ v. ap (λ s. (v.0, s)) (append-nil v.1);
  verify_update_append = λ a b v. ap (λ s. (v.0, s)) (sym (append_assoc v.1 a b));
}

abbrev sealer : Signer sealing
sealer = record {
  IsPair = λ k. Unit {0};
  sign = λ s k. seal s;
  sign_length = λ s k. refl;
  sign_bytes = λ s k. seal-IsByte s;
  sign_verifies = λ s k pair. seal_refl s;
}

hash-IsByte : (h : Bytes) → All IsByte (map (λ c. c % 256) h)
hash-IsByte [] = tt
hash-IsByte (c ∷ h) = (omega arith, hash-IsByte h)

abbrev pair : SignKeyPair
pair = record { public_key = 7 ∷ zeros 31; private_key = [] }

abbrev contents : Bytes
contents = 1 ∷ 2 ∷ 3 ∷ []

abbrev one_file : Bytes → Option Source
one_file name = some (record { file_size = some 3; contents = some contents })

abbrev noon : Clock
noon = record { now = 1745400000; pub_date = codes "Wed, 23 Apr 2025 12:00:00 +0000" }

abbrev setup : Bytes
setup = codes "dist\\setup.exe"

abbrev address : Bytes
address = codes "https://example.org/%%"

abbrev output : Bytes
output =
    codes "\n\t<title></title>\n\t<link></link>\n\t<description></description>\n"
    ++ codes
        "\t<published>1745400000</published>\n\t<pubDate>Wed, 23 Apr 2025 12:00:00 +0000</pubDate>\n"
    ++ codes
        "\t<enclosure url=\"https://example.org/setup.exe\"\n\t\tos=\"windows\"\n\t\tname=\"setup.exe\"\n"
    ++ codes
        "\t\tversion=\"1.2\"\n\t\tlength=\"3\"\n\t\tmd5Signature=\"010203\"\n\t\tshaSignature=\"010203\"\n"
    ++ codes "\t\tedSignature=\"AwAAAAAAAAAAAAAAAAAAAAAAAAAAAAAAAAAAAAAAAAAA"
    ++ codes "AAAAAAAAAAAAAAAAAAAAAAAAAAAAAAAAAAAAAAAAAA==\"\n\t\tedKeyVersion=\"1.1\"\n"
    ++ codes "\t\ttype=\"application/octet-stream\" />\n\n"

prints :
    sign_manifest_ed sealing sealer noon one_file setup (codes "1.2") address (some pair) 1
    ≡ printed output
unfolding sign_manifest_ed print_unsigned
prints = refl

is_loaded : load (one_file setup) ≡ loaded (contents ++ [])
unfolding load
is_loaded = refl

is_hashed :
    (hash sealing true contents ≡ some (codes "010203"))
    × (hash sealing false contents ≡ some (codes "010203"))
unfolding hash
is_hashed = (refl, refl)

is_replaced :
    replace_string address (codes "%%") (basename setup) 1024
    ≡ some (codes "https://example.org/setup.exe")
unfolding replace_string basename
is_replaced = refl

inputs-IsPlain :
    IsPlain address × IsPlain (basename setup) × IsPlain (codes "1.2") × IsPlain noon.pub_date
unfolding basename all_plain
inputs-IsPlain = (
  all_plain-IsPlain address refl,
  all_plain-IsPlain (codes "setup.exe") refl,
  all_plain-IsPlain (codes "1.2") refl,
  all_plain-IsPlain noon.pub_date refl,
)

abbrev keys : KeyTable
keys = record {
  ed25519_keys = record { version = 1; public_key = 7 ∷ zeros 31 } ∷ free_slot ∷ free_slot ∷ [];
  public_keys = 1;
}

known : KnowsKey (λ k. Unit {0}) keys (some pair) 1
unfolding set_ed25519_key
known = (tt, refl, omega arith, omega arith, (initial, initial-IsKeyTable, refl))

sign_manifest_ed-IsAccepted_example :
    IsAccepted sealing sealer noon
      (λ t. [])
      (λ i. false)
      (λ s. s ∷ [])
      (sign_manifest_ed sealing sealer noon one_file setup (codes "1.2") address (some pair) 1)
      (codes "1.2")
      keys
      (contents ∷ [])
      (new_context [])
      []
      new_manifest
sign_manifest_ed-IsAccepted_example =
    sign_manifest_ed-IsAccepted sealing sealer noon (λ t. []) (λ i. false) (λ s. s ∷ []) one_file
      setup (codes "1.2") address (some pair) 1 (codes "010203") (codes "010203")
      (codes "https://example.org/setup.exe") keys (contents ∷ []) (new_context []) [] new_manifest
      is_loaded is_hashed.0 is_hashed.1 is_replaced hash-IsByte inputs-IsPlain.0 inputs-IsPlain.1
      inputs-IsPlain.2 inputs-IsPlain.3 (record { nonempty = refl; hashed = refl }, tt) known refl

abbrev build_machine : ToolSystem
build_machine = record {
  product_version = λ file. some (1 * 2 ^ 16 + 300, 2 * 2 ^ 16 + 7);
  access = λ file. true;
  load_pem = λ file. some pair;
  open_file = one_file;
}

-- The parts of a version are taken modulo 256.
wrapped_version : exe_version build_machine setup ≡ some (codes "1.44.2.7")
unfolding exe_version print_unsigned
wrapped_version = refl

abbrev no_defaults : SignToolArgs
no_defaults = record { default_version = none; default_hosturl = none; hosturlalt = none }

-- `signtool -H https://example.org/%% -V 1.2 -K key.pem dist\setup.exe`
abbrev command : List Bytes
command =
    codes "signtool"
    ∷ codes "-H"
    ∷ address
    ∷ codes "-V1.2"
    ∷ codes "-K"
    ∷ codes "key.pem"
    ∷ setup
    ∷ []

runs : sign_tool sealing sealer noon build_machine no_defaults command ≡ signed (printed output)
unfolding sign_tool print_unsigned kind read_argument next_argument getopt
runs = refl

sign_tool-IsRun_example :
    (sign_tool sealing sealer noon build_machine no_defaults command ≡ usage)
    ⊎ (sign_tool sealing sealer noon build_machine no_defaults command ≡ failure)
    ⊎ IsRun sealing sealer noon build_machine no_defaults command
        (sign_tool sealing sealer noon build_machine no_defaults command)
sign_tool-IsRun_example = sign_tool-IsRun sealing sealer noon build_machine no_defaults command
