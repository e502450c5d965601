-- ===== src/Updater/Release.antt =====
-- src/AutoGitHub.cpp: `GitHub::GetLatestRelease`. The JSON library is a parameter, with the calls
-- that the function makes; the text of an error and the log are left out.
pub mod Assets
use libappupdater.CLib.{c_string, stricmp_eq}
use libappupdater.Prelude.{
  ℕ, Bytes, Bool, true, false, not, List, [], ◌∷◌, ◌++◌, Option, none, some, ◌==◌, is_empty, codes,
  if◌then◌else◌,
}
use libappupdater.Updater.Check.{
  Download, not_opened, incomplete, raised, complete, Release, release_raised, release_failed,
  release, is_endpoint,
}

pub record Json : Type 1 where
  pub Value : Type 0
  -- `cJSON_ParseWithLength`
  pub parse : Bytes → Option Value
  -- `cJSON_GetObjectItem`, and `cJSON_HasObjectItem`.
  pub member : Value → Bytes → Option Value
  -- `cJSON_IsArray`, with `cJSON_GetArraySize` and `cJSON_GetArrayItem`.
  pub elements : Value → Option (List Value)
  -- `cJSON_GetStringValue` of an item that is there.
  pub string_value : Value → Option Bytes

-- The text before the first `~` and the text behind it.
unfoldable pub split_endpoint : Bytes → Option (Bytes × Bytes)
split_endpoint [] = none
split_endpoint (c ∷ s) =
    if c == b'~'
    then some ([], s)
    else elim (split_endpoint s) [ none ↦ none | some (api, manifest) ↦ some (c ∷ api, manifest) ]

-- `substr` up to the first `~` and behind it; without one, both are the whole text.
abbrev pub api_and_manifest : Bytes → Bytes × Bytes
api_and_manifest url = elim (split_endpoint url) [ none ↦ (url, url) | some parts ↦ parts ]

module _ (json : Json) where
  open json use {Value, parse, member, elements, string_value}

  abbrev pub text_of : Value → Bytes → Option Bytes
  text_of asset name = elim (member asset name) [ none ↦ none | some v ↦ string_value v ]

  -- The address of an asset, if it has the name that is asked for.
  unfoldable pub asset_url : Bytes → Value → Option Bytes
  unfolding stricmp_eq
  asset_url manifest asset = elim (text_of asset (codes "name")) [
    | none ↦ none
    | some name ↦
        if stricmp_eq (c_string manifest) name
        then text_of asset (codes "browser_download_url")
        else none
  ]

  -- The loop over the assets, which ends at the first that has an address.
  unfoldable pub find_asset : Bytes → List Value → Bytes
  unfolding asset_url
  find_asset manifest [] = []
  find_asset manifest (asset ∷ assets) = elim (asset_url manifest asset) [
    | none ↦ find_asset manifest assets
    | some url ↦ url
  ]

  unfoldable pub release_asset : Bytes → Value → Bytes
  unfolding find_asset
  release_asset manifest v = elim (member v (codes "assets")) [
    | none ↦ []
    | some assets ↦ elim (elements assets) [ none ↦ [] | some list ↦ find_asset manifest list ]
  ]

  -- What follows the download of the releases.
  unfoldable pub read_release : Bytes → Download → Release
  unfolding release_asset
  read_release manifest raised = release_raised
  read_release manifest not_opened = release_failed
  read_release manifest incomplete = release_failed
  read_release manifest (complete payload) = elim (parse payload) [
    | none ↦ release_failed
    | some v ↦ release (release_asset manifest v)
  ]

  -- `GetLatestRelease`
  unfoldable pub get_latest_release : (Bytes → Download) → Bytes → Release
  unfolding is_endpoint split_endpoint read_release
  get_latest_release get url =
      let (api, manifest) = api_and_manifest url in
      let read = read_release manifest (get (api ++ codes "/releases/latest")) in
      if not (is_endpoint url)
      then release_failed
      else if is_empty manifest
      then release_failed
      else read
