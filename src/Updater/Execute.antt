-- ===== src/Updater/Execute.antt =====
-- src/AutoUpdater.cpp: `AutoUpdater::Execute`. The dialogs are parameters: the answer to the first
-- prompt, and the install dialog, which may change the settings and leave an error. The result is
-- the source's number; logging, the messages and the removal of temporary files are left out.
pub mod Installed
use libappupdater.Config.Store.{ConfigStore}
use libappupdater.Prelude.{
  Bytes, Bool, true, false, not, ◌&&◌, ◌||◌, Option, none, some, if◌then◌else◌,
}
use libappupdater.Prelude.Int.{ℤ, pos, negsuc}
use libappupdater.Updater.Check.{
  Environment, Session, Availability, available, up_to_date, LastError, no_error, is_available,
}
use libappupdater.Updater.Settings.{
  ExecuteMode, dump, reset, auto, ignore_skip, reinstall, UpdateStatus, status_prompt,
  status_enabled, once, set_once, set_auto, reset_values, status, is_skipped,
}

-- The answers `PROMPT_AUTO`, `PROMPT_ONCE` and `PROMPT_NO`, or none of them.
pub data PromptAnswer : Type 0 where
  prompt_auto prompt_once prompt_no prompt_closed : PromptAnswer

-- What `InstallDialog` leaves: whether the update was installed, whether there is an error now, and
-- the settings.
pub record Installation (S : Type 0) : Type 0 where
  pub installed : Bool
  pub failed : Bool
  pub settings : S

abbrev pub is_reinstall : ExecuteMode → Bool
is_reinstall reinstall = true
is_reinstall _ = false

abbrev pub ignores_skip : ExecuteMode → Bool
ignores_skip reinstall = true
ignores_skip ignore_skip = true
ignores_skip _ = false

abbrev pub is_auto : ExecuteMode → Bool
is_auto auto = true
is_auto _ = false

-- An update, or the installed version again, is to be offered.
abbrev pub is_offered : ExecuteMode → Availability → Bool
is_offered mode available = true
is_offered mode up_to_date = is_reinstall mode
is_offered mode _ = false

abbrev pub has_error : LastError → Bool
has_error no_error = false
has_error _ = true

module _ (c : ConfigStore) where
  open c use {State}

  -- What the dialogs do.
  pub record Dialogs : Type 0 where
    pub answer : PromptAnswer
    pub install_dialog : State → Installation State

  -- The answer to the prompt: the status, whether dialogs are shown from now on, and the settings.
  unfoldable pub after_prompt : PromptAnswer → Bool → ℤ → State → UpdateStatus × Bool × State
  unfolding set_auto
  after_prompt prompt_auto interactive now s = (status_enabled, true, set_auto c true now s)
  after_prompt prompt_once interactive now s = (status_enabled, true, s)
  after_prompt prompt_no interactive now s = (status_prompt, interactive, set_auto c false now s)
  after_prompt prompt_closed interactive now s = (status_prompt, interactive, s)

  -- The status, and the prompt where it is one: the first time only, in the automatic mode.
  unfoldable pub prompted :
      Dialogs → ExecuteMode → Bool → ℤ → UpdateStatus × State → UpdateStatus × Bool × State
  unfolding after_prompt once
  prompted d mode interactive now (status_prompt, s) =
      if not (is_auto mode && once c s)
      then after_prompt d.answer interactive now s
      else (status_prompt, interactive, s)
  prompted d mode interactive now (t, s) = (t, interactive, s)

  -- The offer of an update, with the error flag.
  unfoldable pub offer : Dialogs → ExecuteMode → Bytes → ℤ → State → ℤ × Bool × State
  unfolding is_skipped set_once
  offer d mode version now s =
      let (skipped, s1) = is_skipped c version now s in
      if ignores_skip mode || not skipped
      then (let i = d.install_dialog s1 in
          if i.installed
          then (pos 2, i.failed, set_once c true i.settings)
          else (pos 3, i.failed, i.settings))
      else (pos 3, false, s1)

  unfoldable pub after_check :
      Dialogs → ExecuteMode → ℤ → Availability → Session → State → ℤ × Bool × State
  unfolding offer
  after_check d mode now a r s =
      let offered = offer d mode r.manifest.attribute_version now s in
      if is_offered mode a
      then offered
      else (elim a [ up_to_date ↦ (pos 1, false, s) | _ ↦ (pos 0, false, s) ])

  -- A result is an error if one is left, by the check or by the dialog.
  abbrev pub with_error : Bool → ℤ × Bool × State → ℤ × State
  with_error error (ret, failed, s) = if error || failed then (negsuc 0, s) else (ret, s)

  unfoldable pub guarded :
      Dialogs → ExecuteMode → ℤ → Option (Availability × Session) → State → ℤ × State
  unfolding after_check
  guarded d mode now none s = (negsuc 0, s)
  guarded d mode now (some (a, r)) s =
      with_error (has_error r.last_error) (after_check d mode now a r s)

  unfoldable pub checked :
      Environment → Dialogs → ExecuteMode → ℤ → Session → UpdateStatus × Bool × State → ℤ × State
  unfolding guarded is_available
  checked env d mode now session (status_enabled, interactive, s) =
      guarded d mode now (is_available env interactive session) s
  checked env d mode now session (t, interactive, s) = (pos 0, s)

  -- `Execute`
  unfoldable pub execute :
      Environment → Dialogs → ExecuteMode → Bool → ℤ → ℤ → Session → State → ℤ × State
  unfolding checked prompted status reset_values
  execute env d reset interactive now later session s = (pos 0, reset_values c s)
  execute env d dump interactive now later session s = (pos 0, s)
  execute env d mode interactive now later session s =
      checked env d mode now session (prompted d mode interactive now (status c mode now later s))
