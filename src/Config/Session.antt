-- ===== src/Config/Session.antt =====
-- src/AutoConfig.cpp: the texts that `Config` is told or takes from the resources of the program, and
-- keeps; the path in the registry; and `HasEdDSAPub`. The resources are a parameter; an exception is
-- none. Each operation holds the lock throughout.
pub mod Keyed
pub mod Path
mod Texts
use libappupdater.CLib.{c_string, strtoul_auto}
use libappupdater.Config.Keys.{KeyTable, KeyResult, ok, throws, set_public_key}
use libappupdater.Manifest.Parser.{strip_prefix}
use libappupdater.Prelude.{
  ℕ, ◌/◌, ◌%◌, Bytes, Bool, true, false, not, ◌&&◌, ◌||◌, [], ◌∷◌, ◌++◌, Option, none, some, codes,
  ◌==◌, ltb, length, is_empty, if◌then◌else◌,
}

-- The resources `UPDATER\name`, the fields of `StringFileInfo`, and `dwFileFlags`; none where a call
-- fails.
pub record Resources : Type 0 where
  pub updater : Bytes → Option Bytes
  pub version_field : Bytes → Option Bytes
  pub file_flags : Option ℕ

abbrev without_nul : Bytes → Bytes
without_nul [] = []
without_nul (c ∷ []) = if c == 0 then [] else c ∷ []
without_nul (c ∷ d ∷ s) = c ∷ without_nul (d ∷ s)

-- `GetPrivateValue`, of a resource that is required or not.
unfoldable pub get_private_value : Resources → Bytes → Bool → Option Bytes
get_private_value res name required =
    let missing : Option Bytes = if required then none else some [] in
    elim (res.updater name) [
      | some value ↦ if is_empty value then missing else some (without_nul value)
      | none ↦ missing
    ]

-- A member and its bit of `queried_status_`.
pub record CachedText : Type 0 where
  pub value : Bytes
  pub queried : Bool

pub record Config : Type 0 where
  pub host_url : CachedText
  pub channel : CachedText
  pub os_label : CachedText
  pub application_name : CachedText
  pub application_version : CachedText
  pub company_name : CachedText
  pub build_label : CachedText
  pub registry_path : Bytes
  pub default_registry_path : Bytes
  pub keys : KeyTable
  pub keys_queried : Bool

pub data Setting : Type 0 where
  feed_url channel_name os app_name app_version company build : Setting

abbrev pub cached : Setting → Config → CachedText
cached feed_url c = c.host_url
cached channel_name c = c.channel
cached os c = c.os_label
cached app_name c = c.application_name
cached app_version c = c.application_version
cached company c = c.company_name
cached build c = c.build_label

abbrev pub store : Setting → CachedText → Config → Config
store feed_url t c = record c { host_url = t }
store channel_name t c = record c { channel = t }
store os t c = record c { os_label = t }
store app_name t c = record c { application_name = t }
store app_version t c = record c { application_version = t }
store company t c = record c { company_name = t }
store build t c = record c { build_label = t }

-- `std::string::find`
abbrev pub contains : Bytes → Bytes → Bool
contains part [] = elim (strip_prefix part []) [ some rest ↦ true | none ↦ false ]
contains part (c ∷ s) = elim (strip_prefix part (c ∷ s)) [
  | some rest ↦ true
  | none ↦ contains part s
]

-- The names that a new project has are ignored.
abbrev company_of : Bytes → Bytes
company_of name =
    if contains (codes "<Company") name
      || contains (codes "<company") name
      || contains (codes "TODO") name
    then []
    else name

-- `label.resize(label.size() - 1)`
abbrev without_last : Bytes → Bytes
without_last [] = []
without_last (c ∷ []) = []
without_last (c ∷ d ∷ s) = c ∷ without_last (d ∷ s)

-- `VS_FF_DEBUG` is 1, `VS_FF_PATCHED` is 4 and `VS_FF_PRERELEASE` is 2.
abbrev label_of : ℕ → Bytes
label_of flags =
    let label =
      (if flags % 2 == 0 then [] else codes "debug,")
      ++ (if flags / 4 % 2 == 0 then [] else codes "patched,")
      ++ (if flags / 2 % 2 == 0 then [] else codes "pre-release,") in
    if ltb 2 (length label) then without_last label else label

-- What a getter reads, when it has no text and has not read it before.
unfoldable pub read_setting : Resources → Setting → Option Bytes
unfolding get_private_value strip_prefix
read_setting res feed_url = get_private_value res (codes "FeedURL") true
read_setting res channel_name = get_private_value res (codes "Channel") false
read_setting res os = get_private_value res (codes "OSLabel") false
read_setting res app_name = res.version_field (codes "ProductName")
read_setting res app_version = res.version_field (codes "ProductVersion")
read_setting res company = elim (res.version_field (codes "CompanyName")) [
  | none ↦ none
  | some name ↦ some (company_of name)
]
read_setting res build = elim res.file_flags [ none ↦ none | some flags ↦ some (label_of flags) ]

-- `GetFeedURL`, `GetChannel`, `GetOSLabel`, `GetAppName`, `GetAppVersion`, `GetCompanyName` and
-- `GetBuildLabel`.
unfoldable pub get_setting : Resources → Setting → Config → Option Bytes × Config
unfolding read_setting
get_setting res s c =
    if not (is_empty (cached s c).value) || (cached s c).queried
    then (some (cached s c).value, c)
    else elim (read_setting res s) [
      | none ↦ (none, c)
      | some value ↦ (some value, store s (record { value = value; queried = true }) c)
    ]

-- `SetHostURL`, `SetChannel`, `SetOSLabel`, `SetAppName`, `SetAppVersion` and `SetCompanyName`; none is
-- NULL. The build label has no setter.
unfoldable set_setting : Setting → Option Bytes → Config → Config
set_setting s text c =
    let value : Bytes = elim text [ none ↦ [] | some t ↦ t ] in
    store s (record { value = value; queried = (cached s c).queried }) c

-- `SetRegistryPath`
abbrev set_registry_path : Option Bytes → Config → Config
set_registry_path path c = record c { registry_path = elim path [ none ↦ [] | some p ↦ p ] }

-- The rest of `GetDefaultRegistryPath`, with the name of the company. The path is extended before the
-- name of the program is asked for.
abbrev pub path_with : Resources → Bytes → Config → Option Bytes × Config
path_with res vendor c =
    let base = codes "Software\\" ++ (if is_empty vendor then [] else vendor ++ codes "\\") in
    let (name, c') = get_setting res app_name (record c { default_registry_path = base }) in
    elim name [
      | none ↦ (none, c')
      | some n ↦ (
        some (base ++ n ++ codes "\\AutoUpdate"),
        record c' { default_registry_path = base ++ n ++ codes "\\AutoUpdate" },
      )
    ]

-- `GetDefaultRegistryPath`
unfoldable pub get_default_registry_path : Resources → Config → Option Bytes × Config
unfolding get_setting
get_default_registry_path res c =
    let start = record c { default_registry_path = codes "Software\\" } in
    let (vendor, c') = get_setting res company start in
    let more : Option Bytes × Config = elim vendor [
      | none ↦ (none, c')
      | some v ↦ path_with res v c'
    ] in
    if is_empty c.default_registry_path then more else (some c.default_registry_path, c)

-- `GetRegistryPath`
unfoldable pub get_registry_path : Resources → Config → Option Bytes × Config
unfolding get_default_registry_path
get_registry_path res c =
    let (path, c') = get_default_registry_path res c in
    let kept : Option Bytes × Config = elim path [
      | none ↦ (none, c')
      | some p ↦ (some p, record c' { registry_path = p })
    ] in
    if is_empty c.registry_path then kept else (some c.registry_path, c)

-- The answer of `HasEdDSAPub`, with the bit set.
abbrev pub has_keys : Config → Option Bool × Config
has_keys c = (some (not (c.keys.public_keys == 0)), c)

-- A key of the resources, whose version is another.
unfoldable pub take_key : Resources → Bytes → Config → Option Bool × Config
unfolding get_private_value strtoul_auto set_public_key
take_key res key c = elim (get_private_value res (codes "EdDSAKeyVer") true) [
  | none ↦ (none, c)
  | some version ↦ elim (set_public_key (c_string key) (strtoul_auto version) c.keys) [
    | throws e ↦ (none, c)
    | ok t ↦ has_keys (record c { keys = t; keys_queried = true })
  ]
]

-- `HasEdDSAPub`
unfoldable pub has_eddsa_pub : Resources → Config → Option Bool × Config
unfolding take_key
has_eddsa_pub res c =
    let read : Option Bool × Config = elim (get_private_value res (codes "EdDSAPubKey") false) [
      | none ↦ (none, c)
      | some key ↦
          if is_empty key then has_keys (record c { keys_queried = true }) else take_key res key c
    ] in
    if c.keys.public_keys == 0 && not c.keys_queried then read else has_keys c
