-- ===== src/Tests/Installation.antt =====
-- The installation: src/AutoUpdater.cpp.
use libappupdater.CLib.{sprintf_s}
use libappupdater.Config.Keys.Table.{initial}
use libappupdater.Prelude.{
  ◌+◌, joined, Bytes, true, false, [], ◌∷◌, some, none, map, ◌≡◌, ◌⊎◌, refl, codes, arith, str_eq,
  if◌then◌else◌,
}
use libappupdater.Tests.Updates.{plain, newer}
use libappupdater.Updater.Install.{
  InstallState, Surroundings, Ending, install_now, after_verify, command_text,
}
use libappupdater.Updater.Install.Launched.{
  Nothing, Checked, programs, install_now-Checked, install_now-IsVerified,
}
use libappupdater.Updater.Target.{
  Directories, created, already_exists, make_directory, made, target, get_target_name,
}
use libappupdater.Updater.Target.Rounds.{make_directory-ended}
use libappupdater.Updater.Verify.{Image}
use libappupdater.Updater.Verify.Accepted.{IsVerified}

-- The first directory is taken.
abbrev disk : Directories
disk = record {
  internet_cache = none;
  is_directory = λ path. true;
  temp_path = some (codes "t");
  uuid = λ i. (i + b'0') ∷ [];
  create_directory = λ path. if str_eq path (codes "t\\0") then already_exists else created;
}

abbrev image : Image
image = record { size = 3; reads = map some ((1 ∷ 2 ∷ []) ∷ (3 ∷ []) ∷ []) }

abbrev machine : Surroundings
machine = record {
  directories = disk;
  download = λ url file. some true;
  cancelled = false;
  open_image = λ file. some image;
  create_process = λ file line. true;
}

abbrev idle : InstallState
idle = record { temp_dir = []; temp_file = []; last_error = none; events = [] }

make_directory-ended_example : make_directory disk (codes "t\\") 2 0 ≡ made (codes "t\\1")
unfolding str_eq
make_directory-ended_example =
    make_directory-ended disk (codes "t\\") 1 0 0 (λ j lt. ground (arith, lt))
      (λ e. ground (arith, e))

abbrev installed : Ending × InstallState
installed = install_now plain machine 2 true initial newer idle

install_now-Checked_example :
    Nothing false [] installed
    ⊎ ((dir : Bytes) × (file : Bytes) × (get_target_name disk 2 newer ≡ target dir file)
        × Checked plain machine true initial newer file [] installed)
install_now-Checked_example = install_now-Checked plain machine true initial newer 2 idle

install_now-IsVerified_example :
    (dir : Bytes) × (file : Bytes) × (get_target_name disk 2 newer ≡ target dir file)
    × (programs installed.1.events ≡ (file, command_text newer file) ∷ [])
    × IsVerified plain initial newer 3 (joined ((1 ∷ 2 ∷ []) ∷ (3 ∷ []) ∷ []))
unfolding install_now after_verify libappupdater.CLib.value_in libappupdater.CLib.sprintf_s
install_now-IsVerified_example =
    install_now-IsVerified plain machine true initial newer 2 idle (λ file. 3)
      (λ file. (1 ∷ 2 ∷ []) ∷ (3 ∷ []) ∷ [])
      (λ file. (
        record { nonempty = refl; hashed = refl },
        (record { nonempty = refl; hashed = refl }, tt),
      ))
      (λ file. refl) refl
