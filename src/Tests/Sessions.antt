-- ===== src/Tests/Sessions.antt =====
-- The settings that `Config` keeps: src/AutoConfig.cpp.
use libappupdater.CLib.{value_in}
use libappupdater.Config.Keys.{set_public_key, set_ed25519_key, public_length}
use libappupdater.Config.Keys.Encoded.{with_char, set_public_key-encode_text}
use libappupdater.Config.Keys.Table.{initial, initial-IsKeyTable, zeros}
use libappupdater.Config.Session.{
  Resources, CachedText, Config, company, app_name, has_eddsa_pub, get_registry_path,
  get_private_value,
}
use libappupdater.Config.Session.Keyed.{
  IsSession, IsAnswered, key_resource, has_eddsa_pub-IsAnswered,
}
use libappupdater.Config.Session.Path.{known, first_path, kept_path, get_registry_path_again}
use libappupdater.Prelude.{
  ℕ, zero, suc, Bytes, All, true, false, [], none, some, ◌≡◌, ◌≢◌, refl, arith, codes, str_eq,
  if◌then◌else◌,
}
use libappupdater.Tests.Updates.{plain}
use libappupdater.Updater.Verify.Trusted.{IsTrusted, verify-has_eddsa_pub}
use libappupdater.Util.Base64.{encode_text, decode_to_string}
use libappupdater.Util.Tables.{IsByte}

abbrev zero_key : Bytes
zero_key = zeros public_length

abbrev no_text : CachedText
no_text = record { value = []; queried = false }

abbrev fresh : Config
fresh = record {
  host_url = no_text;
  channel = no_text;
  os_label = no_text;
  application_name = no_text;
  application_version = no_text;
  company_name = no_text;
  build_label = no_text;
  registry_path = [];
  default_registry_path = [];
  keys = initial;
  keys_queried = false;
}

-- The resources of a program with a key and the name of its company, but without its own name.
abbrev nameless : Resources
nameless = record {
  updater = λ name.
      if str_eq name (codes "EdDSAPubKey")
      then some (codes "AQEBAQEBAQEBAQEBAQEBAQEBAQEBAQEBAQEBAQEBAQE=")
      else if str_eq name (codes "EdDSAKeyVer")
      then some (codes "0x10")
      else none;
  version_field = λ name. if str_eq name (codes "CompanyName") then some (codes "Acme") else none;
  file_flags = some 5;
}

fresh-IsSession : IsSession nameless fresh
fresh-IsSession = record { table = initial-IsKeyTable; asked = λ queried. ground (arith, queried) }

has_eddsa_pub-IsAnswered_example : IsAnswered nameless fresh (has_eddsa_pub nameless fresh)
has_eddsa_pub-IsAnswered_example = has_eddsa_pub-IsAnswered nameless fresh fresh-IsSession

get_registry_path_again_example :
    ((get_registry_path nameless fresh).0
      ≡ first_path (known nameless company fresh) (known nameless app_name fresh))
    × ((get_registry_path nameless (get_registry_path nameless fresh).1).0
        ≡ some (kept_path (known nameless company fresh) (known nameless app_name fresh)))
get_registry_path_again_example = get_registry_path_again nameless fresh refl refl

registry_path-failed : (get_registry_path nameless fresh).0 ≡ none
unfolding get_registry_path str_eq
registry_path-failed = refl

registry_path-partial :
    (get_registry_path nameless (get_registry_path nameless fresh).1).0
    ≡ some (codes "Software\\Acme\\")
unfolding get_registry_path str_eq
registry_path-partial = refl

key_taken : (has_eddsa_pub nameless fresh).0 ≡ some true
unfolding has_eddsa_pub str_eq decode_to_string value_in
key_taken = refl

zero_key-IsByte : (n : ℕ) → All IsByte (zeros n)
zero_key-IsByte zero = tt
zero_key-IsByte (suc n) = (omega arith, zero_key-IsByte n)

set_public_key-encode_text_example :
    (set_public_key (encode_text zero_key) 2 initial ≡ set_ed25519_key zero_key 2 initial)
    × (set_public_key (with_char (encode_text zero_key) b' ') 2 initial
        ≡ set_ed25519_key (zeros public_length) 2 initial)
set_public_key-encode_text_example =
    set_public_key-encode_text zero_key 2 b' ' initial (zero_key-IsByte 32) refl
      (λ e. ground (arith, e))

nameless_key : key_resource nameless ≢ some []
unfolding get_private_value str_eq
nameless_key e = ground (arith, e)

verify-has_eddsa_pub_example : IsTrusted plain fresh (has_eddsa_pub nameless fresh)
verify-has_eddsa_pub_example =
    verify-has_eddsa_pub plain nameless fresh fresh-IsSession nameless_key
