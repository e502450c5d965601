-- ===== src/Tests/Releases.antt =====
-- The releases on GitHub: src/AutoGitHub.cpp.
use libappupdater.CLib.{stricmp_eq}
use libappupdater.Prelude.{ℕ, Bytes, [], ◌∷◌, some, none, ◌==◌, str_eq, if◌then◌else◌, refl, codes}
use libappupdater.Updater.Check.{Download, complete, contains}
use libappupdater.Updater.Release.{Json, get_latest_release, split_endpoint, asset_url}
use libappupdater.Updater.Release.Assets.{IsReleased, get_latest_release-IsReleased}

-- A release 0 with the assets 2, which has no address, and 3.
abbrev numbered : Json
numbered = record {
  Value = ℕ;
  parse = λ payload. some 0;
  member = λ v name.
      if str_eq name (codes "assets")
      then some 1
      else if str_eq name (codes "name")
      then some 4
      else if v == 3
      then some 5
      else none;
  elements = λ v. if v == 1 then some (2 ∷ 3 ∷ []) else none;
  string_value = λ v. some (if v == 4 then codes "App.Manifest" else codes "https://a.org/x");
}

abbrev answered : Bytes → Download
answered url = complete []

get_latest_release-IsReleased_example :
    IsReleased numbered answered
      (codes "https://api.github.com/repos/a/b~app.manifest")
      (codes "https://a.org/x")
unfolding get_latest_release contains split_endpoint str_eq stricmp_eq asset_url
get_latest_release-IsReleased_example =
    get_latest_release-IsReleased numbered answered
      (codes "https://api.github.com/repos/a/b~app.manifest") (codes "https://a.org/x") refl refl
