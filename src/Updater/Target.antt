-- ===== src/Updater/Target.antt =====
-- src/AutoUpdater.cpp: `GetTargetName`, the file that an installer is downloaded to. What the
-- system says of its directories is a parameter.
pub mod Rounds
use libappupdater.CLib.{sprintf_s}
use libappupdater.Manifest.{AutoManifest}
use libappupdater.Prelude.{
  ℕ, zero, suc, ◌+◌, ◌<◌, Bytes, Bool, true, false, List, [], ◌∷◌, ◌++◌, Option, none, some, leb,
  ◌==◌, is_empty, codes, length, if◌then◌else◌,
}

-- What `CreateDirectoryA` says: done, there is one already, or another error.
pub data Created : Type 0 where
  created already_exists not_created : Created

pub record Directories : Type 0 where
  -- `SHGetFolderPathA` of `CSIDL_INTERNET_CACHE`, if it succeeds.
  pub internet_cache : Option Bytes
  -- `_access` and the attributes of the path.
  pub is_directory : Bytes → Bool
  -- `GetTempPathA`, if its text has a length from 1 to `MAX_PATH`.
  pub temp_path : Option Bytes
  -- The text of the unique identifier of each round.
  pub uuid : ℕ → Bytes
  pub create_directory : Bytes → Created

abbrev pub max_path : ℕ
max_path = 260

-- The cache, if it is there, otherwise the temporary directory.
abbrev pub cache_or_temp : Directories → Bytes → Option Bytes
cache_or_temp d [] = d.temp_path
cache_or_temp d (c ∷ s) = if d.is_directory (c ∷ s) then some (c ∷ s) else d.temp_path

unfoldable pub base_path : Directories → Option Bytes
base_path d = elim d.internet_cache [ none ↦ d.temp_path | some path ↦ cache_or_temp d path ]

-- A backslash at the end, if there is none.
unfoldable pub with_backslash : Bytes → Bytes
with_backslash [] = []
with_backslash (c ∷ []) = if c == b'\\' then c ∷ [] else c ∷ b'\\' ∷ []
with_backslash (c ∷ d ∷ s) = c ∷ with_backslash (d ∷ s)

-- What the loop over the identifiers ends with; `searching` is a loop without an end yet.
pub data Search : Type 0 where
  searching no_directory : Search
  made : Bytes → Search

-- The loop, from the round `i` on, for some rounds.
unfoldable pub make_directory : Directories → Bytes → ℕ → ℕ → Search
make_directory d path zero i = searching
make_directory d path (suc rounds) i =
    let dir = path ++ d.uuid i in
    let more = make_directory d path rounds (i + 1) in
    elim (d.create_directory dir) [
      | created ↦ made dir
      | already_exists ↦ more
      | not_created ↦ no_directory
    ]

-- The name of the file in the directory; none if the buffer is too small, where the C library ends
-- the program.
unfoldable pub file_in : AutoManifest → Bytes → Option Bytes
unfolding sprintf_s
file_in m dir =
    if is_empty m.attribute_name
    then sprintf_s max_path (dir ++ codes "\\installer-" ++ m.attribute_version ++ codes ".exe")
    else sprintf_s max_path (dir ++ codes "\\" ++ m.attribute_name)

-- The result of `GetTargetName`: an exception, no end of the loop so far, the end of the program,
-- or the directory and the file in it.
pub data Target : Type 0 where
  no_target endless aborted : Target
  target : Bytes → Bytes → Target

abbrev pub named : Bytes → Option Bytes → Target
named dir none = aborted
named dir (some file) = target dir file

unfoldable pub get_target_name : Directories → ℕ → AutoManifest → Target
unfolding base_path with_backslash make_directory file_in
get_target_name d rounds m = elim (base_path d) [
  | none ↦ no_target
  | some path ↦ elim (make_directory d (with_backslash path) rounds 0) [
    | searching ↦ endless
    | no_directory ↦ no_target
    | made dir ↦ named dir (file_in m dir)
  ]
]
