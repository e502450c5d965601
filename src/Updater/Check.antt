-- ===== src/Updater/Check.antt =====
-- src/AutoUpdater.cpp: `AutoUpdater::IsAvailable`, and src/AutoGitHub.cpp: `GitHub::IsEndpoint`.
-- Downloads, the answer of GitHub's interface, the progress dialog and the XML parser are
-- parameters.
pub mod Offer
use Prim.Native.Nat.{Ordering, lt}
use libappupdater.Config.Keys.{KeyTable, public_key_number, public_key_find}
use libappupdater.Manifest.{AutoManifest}
use libappupdater.Manifest.Selection.{LoadResult, threw, no_match, loaded}
use libappupdater.Prelude.{
  ℕ, Bytes, Bool, true, false, not, ◌&&◌, ◌||◌, [], ◌∷◌, Option, none, some, ◌==◌, is_empty, codes,
  if◌then◌else◌,
}
use libappupdater.Version.{compare}

-- `inet.get` and `inet.completion`.
pub data Download : Type 0 where
  not_opened incomplete raised : Download
  complete : Bytes → Download

-- `GetLatestRelease`: an exception, an error, or the URL of the manifest, empty if there is none.
pub data Release : Type 0 where
  release_raised release_failed : Release
  release : Bytes → Release

-- `LastError`, by its messages; that of a refused release or of an exception is not told apart.
pub data LastError : Type 0 where
  no_error release_error no_github_manifest no_manifest_download no_channel : LastError
  no_signature unknown_key no_release_notes exception : LastError

-- The result: 1, 0, -1 and -2.
pub data Availability : Type 0 where
  available up_to_date unavailable channel_not_available : Availability

-- What `IsAvailable` takes from outside: settings, the network, the parser and the dialog.
pub record Environment : Type 0 where
  pub app_version : Bytes
  pub feed_url : Bytes
  pub keys : KeyTable
  pub get : Bytes → Download
  pub get_latest_release : Bytes → Release
  pub load : Bytes → LoadResult
  pub progress_cancelled : Bool
  pub progress_stopped : Bool

-- The parts of the implementation's state that are changed.
pub record Session : Type 0 where
  pub manifest : AutoManifest
  pub last_error : LastError

abbrev pub set_last_error : LastError → Session → Session
set_last_error e s = record s { last_error = e }

-- `find_first_of` of one byte: there is such a byte.
unfoldable pub contains : ℕ → Bytes → Bool
contains c [] = false
contains c (x ∷ s) = x == c || contains c s

-- `GitHub::IsEndpoint`: `find_first_of` finds any byte of its text.
unfoldable pub is_endpoint : Bytes → Bool
unfolding contains
is_endpoint [] = false
is_endpoint (c ∷ s) = contains c (codes "https://api.github.com/repos/") && contains b'~' (c ∷ s)

-- The check of the manifest's signature and key.
unfoldable pub signature_error : KeyTable → AutoManifest → LastError
unfolding public_key_find
signature_error t m =
    if public_key_number t == 0
    then no_error
    else if is_empty m.attribute_ed_signature
    then no_signature
    else elim (public_key_find m.attribute_ed_key_version t) [
      | none ↦ unknown_key
      | some _ ↦ no_error
    ]

abbrev pub is_less : Ordering → Bool
is_less lt = true
is_less _ = false

module _ (env : Environment) where
  -- The release notes of a newer version.
  unfoldable pub fetch_notes : Session → Availability × Session
  fetch_notes s =
      if is_empty s.manifest.release_notes_link
      then (available, s)
      else elim (env.get s.manifest.release_notes_link) [
        | complete notes ↦ (
          available,
          record s { manifest = record (s.manifest) { release_notes_content = notes } },
        )
        | raised ↦ (unavailable, set_last_error exception s)
        | _ ↦ (unavailable, set_last_error no_release_notes s)
      ]

  -- The comparison of the versions.
  unfoldable pub check_version : Session → Availability × Session
  unfolding fetch_notes compare
  check_version s =
      let newer = fetch_notes s in
      if is_less (compare env.app_version s.manifest.attribute_version)
      then newer
      else (up_to_date, s)

  unfoldable pub check_suitable : LastError → Session → Availability × Session
  unfolding check_version
  check_suitable no_error s = check_version s
  check_suitable e s = (unavailable, set_last_error e s)

  -- The manifest's text.
  unfoldable pub check_loaded : LoadResult → Session → Availability × Session
  unfolding signature_error check_suitable
  check_loaded threw s = (unavailable, set_last_error exception s)
  check_loaded no_match s = (channel_not_available, set_last_error no_channel s)
  check_loaded (loaded m) s =
      let s' = record s { manifest = m } in
      if env.progress_cancelled
      then (unavailable, s')
      else check_suitable (signature_error env.keys m) s'

  unfoldable pub check_download : Download → Session → Availability × Session
  unfolding check_loaded
  check_download (complete text) s = check_loaded (env.load text) s
  check_download not_opened s = (unavailable, s)
  check_download incomplete s = (unavailable, set_last_error no_manifest_download s)
  check_download raised s = (unavailable, set_last_error exception s)

  -- A manifest's URL; an empty one is not downloaded.
  unfoldable pub check_url : Bytes → Session → Availability × Session
  unfolding check_download
  check_url url s = if is_empty url then (unavailable, s) else check_download (env.get url) s

  unfoldable pub check_release : Release → Session → Availability × Session
  unfolding check_url
  check_release release_raised s = (unavailable, set_last_error exception s)
  check_release release_failed s = (unavailable, set_last_error release_error s)
  check_release (release url) s =
      if is_empty url then (unavailable, set_last_error no_github_manifest s) else check_url url s

  -- The guarded part of `IsAvailable`.
  unfoldable pub attempt : Session → Availability × Session
  unfolding check_url check_release is_endpoint
  attempt s =
      if is_endpoint env.feed_url
      then check_release (env.get_latest_release env.feed_url) s
      else check_url env.feed_url s

  -- The end of the progress dialog.
  abbrev pub finished : Bool → Availability × Session → Availability × Session
  finished interactive r = if interactive && env.progress_stopped then (unavailable, r.1) else r

  -- `IsAvailable`; without a feed it raises an exception.
  unfoldable pub is_available : Bool → Session → Option (Availability × Session)
  unfolding attempt
  is_available interactive s =
      if is_empty env.feed_url then none else some (finished interactive (attempt s))
