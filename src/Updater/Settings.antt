-- ===== src/Updater/Settings.antt =====
-- src/AutoUpdater.cpp: the operations of `AutoUpdater` on the stored settings. The clock is an
-- argument: `now` is the first `time(NULL)` of an operation and `later` the second.
pub mod Schedule
pub mod Skip
use libappupdater.Config.Store.{
  ConfigStore, read_int, read_bool, read_string, write_int, write_bool, write_string, int_max,
  time_max,
}
use libappupdater.Prelude.{
  ℕ, ◌*◌, Bytes, Bool, true, false, not, ◌&&◌, List, [], ◌∷◌, str_eq, is_empty, codes,
  if◌then◌else◌,
}
use libappupdater.Prelude.Int.{ℤ, pos, negsuc, pos_part, ◌+ℤ◌, lt_ℤ, eq_ℤ}

-- `ConfigKeys`
abbrev pub auto_interval : Bytes
auto_interval = codes "AutoInterval"

abbrev pub auto_check : Bytes
auto_check = codes "AutoCheck"

abbrev pub auto_once : Bytes
auto_once = codes "AutoOnce"

abbrev pub auto_skip : Bytes
auto_skip = codes "AutoSkip"

abbrev pub auto_last : Bytes
auto_last = codes "AutoLast"

abbrev pub auto_channel : Bytes
auto_channel = codes "AutoChannel"

abbrev pub auto_host : Bytes
auto_host = codes "AutoHost"

abbrev pub skip_version : Bytes
skip_version = codes "SkipVersion"

abbrev pub skip_time : Bytes
skip_time = codes "SkipTime"

abbrev pub skip_interval : Bytes
skip_interval = codes "SkipInterval"

abbrev pub config_keys : List Bytes
config_keys =
    auto_interval ∷ auto_check ∷ auto_once ∷ auto_skip ∷ auto_last ∷ auto_channel ∷ auto_host
    ∷ skip_version ∷ skip_time ∷ skip_interval ∷ []

-- `ExecuteMode`
pub data ExecuteMode : Type 0 where
  dump reset disable enable auto prompt ignore_skip reinstall : ExecuteMode

-- `UpdateStatus`
pub data UpdateStatus : Type 0 where
  status_prompt status_disabled status_enabled status_already : UpdateStatus

abbrev pub day : ℕ
day = 60 * 60 * 24

-- An interval in days, from 1 to `longest`, in seconds; any other is the default.
abbrev pub interval_seconds : ℕ → ℕ → ℤ → ℤ
interval_seconds longest default days =
    if lt_ℤ (pos 0) days && not (lt_ℤ (pos longest) days)
    then pos (pos_part days * day)
    else pos (default * day)

module _ (c : ConfigStore) where
  open c use {State}

  -- `Once`
  unfoldable pub once : State → Bool
  unfolding read_bool
  once s = let (value, good) = read_bool c s auto_once in if good then value else false

  -- `SetOnce`
  unfoldable pub set_once : Bool → State → State
  unfolding write_bool
  set_once state s = write_bool c s auto_once state

  -- `GetAuto`
  unfoldable pub get_auto : State → Bool
  unfolding read_bool
  get_auto s = (read_bool c s auto_check).0

  -- `SetAuto`
  unfoldable pub set_auto : Bool → ℤ → State → State
  unfolding write_bool write_int
  set_auto state now s =
      let s' = write_bool c s auto_check state in
      write_int c s' auto_last (if state then now else pos 0)

  -- `Reset`
  delete_all : List Bytes → State → State
  delete_all [] s = s
  delete_all (k ∷ ks) s = delete_all ks (c.delete_value s k)

  unfoldable pub reset_values : State → State
  unfolding delete_all
  reset_values s = delete_all config_keys s

  -- The case `ExecutePrompt` of `Status`; the flag is `ExecuteAuto == mode`.
  unfoldable pub prompt_status : Bool → State → UpdateStatus
  unfolding read_bool
  prompt_status is_auto s =
      let (autocheck, good) = read_bool c s auto_check in
      if good
      then (if autocheck
          then status_enabled
          else if is_auto
          then status_disabled
          else status_prompt)
      else status_prompt

  -- The case `ExecuteAuto` of `Status`, which falls through.
  unfoldable pub auto_status : ℤ → ℤ → State → UpdateStatus × State
  unfolding read_int prompt_status write_int
  auto_status now later s =
      let expires = interval_seconds 60 2 (read_int c int_max s auto_interval).0 in
      let (autolast, good) = read_int c time_max s auto_last in
      if good && not (eq_ℤ autolast (pos 0))
      then (if lt_ℤ now (autolast +ℤ expires)
          then (status_already, s)
          else let s' = write_int c s auto_last later in (prompt_status true s', s'))
      else (prompt_status true s, s)

  -- `Status`
  unfoldable pub status : ExecuteMode → ℤ → ℤ → State → UpdateStatus × State
  unfolding set_auto auto_status
  status disable now later s = (status_disabled, set_auto false now s)
  status enable now later s = (status_enabled, set_auto true now s)
  status auto now later s = auto_status now later s
  status prompt now later s = (prompt_status false s, s)
  status _ now later s = (status_prompt, s)

  -- What `IsSkipped` does with a version that is no longer skipped.
  unfoldable pub clear_skip : State → State
  unfolding write_int
  clear_skip s = write_int c (write_string c s skip_version []) skip_time (pos 0)

  -- `IsSkipped` of the version that was skipped.
  unfoldable pub skip_expired : ℤ → State → Bool × State
  unfolding read_int clear_skip
  skip_expired now s =
      let (skiptime, good) = read_int c time_max s skip_time in
      let interval = (read_int c int_max s skip_interval).0 in
      if good && lt_ℤ (pos 0) skiptime
      then (if not (lt_ℤ interval (pos 0))
          then (if not (lt_ℤ now (skiptime +ℤ interval_seconds 180 14 interval))
              then (false, clear_skip s)
              else (true, s))
          else (true, s))
      else (true, s)

  -- `IsSkipped`, for the manifest's version.
  unfoldable pub is_skipped : Bytes → ℤ → State → Bool × State
  unfolding read_string skip_expired clear_skip
  is_skipped version now s =
      let (skipped, good) = read_string c s skip_version in
      if good && not (is_empty skipped)
      then (if str_eq skipped version then skip_expired now s else (false, clear_skip s))
      else (false, s)

  -- `InstallLater`
  unfoldable pub install_later : ℤ → State → State
  unfolding write_int
  install_later now s =
      let s' = write_int c s auto_last now in
      write_int c (write_string c s' skip_version []) skip_time (pos 0)

  -- `InstallSkip`, for the manifest's version.
  unfoldable pub install_skip : Bytes → ℤ → State → State
  unfolding write_int
  install_skip version now s = write_int c (write_string c s skip_version version) skip_time now
