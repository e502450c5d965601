-- ===== src/Updater/Install.antt =====
-- src/AutoUpdater.cpp: `InstallNow`. The download, the cancel button of the dialog, the files and
-- the start of a process are parameters; what the user sees and what is started is a list of
-- events, the newest first. The keys are those that `Config::HasEdDSAPub`, which the function calls
-- before `Verify`, leaves. The flag `exeDirect` is true in the source, so that its other branch is
-- dead.
pub mod Launched
use libappupdater.CLib.{sprintf_s}
use libappupdater.Config.Keys.{KeyTable}
use libappupdater.Manifest.{AutoManifest}
use libappupdater.Prelude.{
  ℕ, Bytes, Bool, true, false, not, ◌&&◌, List, [], ◌∷◌, ◌++◌, Option, none, some, is_empty, codes,
  if◌then◌else◌,
}
use libappupdater.Updater.Target.{
  Directories, get_target_name, Target, no_target, endless, aborted, target,
}
use libappupdater.Updater.Verify.{Crypto, Image, verify, Verdict, threw, refused, verified}

pub data Event : Type 0 where
  -- `updater(...)` and `updater.message(...)`
  said : Bytes → Event
  failed : Bytes → Event
  -- The program and its command line.
  started : Bytes → Bytes → Event

-- `d_tempdir`, `d_tempfile` and `d_lasterror`, with the events so far.
pub record InstallState : Type 0 where
  pub temp_dir : Bytes
  pub temp_file : Bytes
  pub last_error : Option Bytes
  pub events : List Event

-- How `InstallNow` ends; it does not end while `GetTargetName` finds no name for a directory.
pub data Ending : Type 0 where
  raised stuck ended_program : Ending
  returned : Bool → Ending

pub record Surroundings : Type 0 where
  pub directories : Directories
  -- `Download::get` of an address into a file, with `completion`; none if it throws.
  pub download : Bytes → Bytes → Option Bool
  -- `ProgressCancelled` after the download.
  pub cancelled : Bool
  -- The file once it is downloaded, if it can be opened.
  pub open_image : Bytes → Option Image
  -- `CreateProcessA` of a program and its command line.
  pub create_process : Bytes → Bytes → Bool

abbrev pub event : Event → InstallState → InstallState
event e s = record s { events = e ∷ s.events }

-- What is shown in an interactive run only.
abbrev pub event_if : Bool → Event → InstallState → InstallState
event_if true e s = event e s
event_if false e s = s

-- An error that is shown and kept.
abbrev pub set_last_error : Bool → Bytes → InstallState → InstallState
set_last_error interactive msg s = record (event_if interactive (failed msg) s) {
  last_error = some msg;
}

-- `RetainTemp`
abbrev pub retain_temp : InstallState → InstallState
retain_temp s = record s { temp_file = [] }

abbrev pub command_text : AutoManifest → Bytes → Bytes
command_text m file =
    if is_empty m.installer_arguments
    then codes "\"" ++ file ++ codes "\""
    else codes "\"" ++ file ++ codes "\" " ++ m.installer_arguments

-- The command line, in a buffer of 1024 bytes of which the last is kept.
unfoldable pub command_line : AutoManifest → Bytes → Option Bytes
unfolding sprintf_s
command_line m file = sprintf_s 1023 (command_text m file)

-- The start of the installer.
unfoldable pub start_installer :
    Surroundings → Bool → Bytes → Option Bytes → InstallState → Ending × InstallState
start_installer env interactive file none s = (ended_program, s)
start_installer env interactive file (some line) s =
    if env.create_process file line
    then (returned true, retain_temp (event (started file line) s))
    else (raised, event_if interactive (failed (codes "Unable to execute installer")) s)

-- What follows `Verify`.
unfoldable pub after_verify :
    Surroundings → Bool → AutoManifest → Bytes → Verdict → InstallState → Ending × InstallState
unfolding start_installer command_line
after_verify env interactive m file threw s = (raised, s)
after_verify env interactive m file refused s =
    (returned false, set_last_error interactive (codes "Installer verification failure.") s)
after_verify env interactive m file verified s =
    start_installer env interactive file (command_line m file)
      (event (said (codes "Running installer ...")) s)

-- What follows a download that was not made or was cancelled.
unfoldable pub not_downloaded : Bool → Bool → Bool → InstallState → InstallState
not_downloaded interactive getfile cancelled s =
    if cancelled
    then event_if interactive (said (codes "Install canceled.")) s
    else if getfile
    then s
    else set_last_error interactive (codes "Unable to download installer") s

module _ (c : Crypto) where
  unfoldable pub after_download :
      Surroundings
      → Bool
      → KeyTable
      → AutoManifest
      → Bytes
      → Bool
      → InstallState
      → Ending × InstallState
  unfolding after_verify not_downloaded verify
  after_download env interactive t m file getfile s =
      let image = verify c t m (env.open_image file) in
      let checked =
        after_verify env interactive m file image
          (event_if interactive (said (codes "Verifying installer image ...")) s) in
      if getfile && not env.cancelled
      then checked
      else (returned false, not_downloaded interactive getfile env.cancelled s)

  unfoldable pub download_to :
      Surroundings → Bool → KeyTable → AutoManifest → Bytes → InstallState → Ending × InstallState
  unfolding after_download
  download_to env interactive t m file s =
      let s' = event_if interactive (said (codes "Downloading update ...")) s in
      elim (env.download m.attribute_url file) [
        | none ↦ (raised, s')
        | some getfile ↦ after_download env interactive t m file getfile s'
      ]

  -- `InstallNow`, with the rounds that `GetTargetName` has for its loop.
  unfoldable pub install_now :
      Surroundings → ℕ → Bool → KeyTable → AutoManifest → InstallState → Ending × InstallState
  unfolding download_to get_target_name
  install_now env rounds interactive t m s = elim (get_target_name env.directories rounds m) [
    | no_target ↦ (raised, s)
    | endless ↦ (stuck, s)
    | aborted ↦ (ended_program, s)
    | target dir file ↦
        download_to env interactive t m file (record s { temp_dir = dir; temp_file = file })
  ]
