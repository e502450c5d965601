-- ===== src/Updater/Execute/Installed.antt =====
-- When `Execute` has installed an update.
use libappupdater.Config.Store.{ConfigStore}
use libappupdater.Prelude.{Bytes, Bool, true, false, some, ◌≡◌, ◌⊎◌}
use libappupdater.Prelude.Int.{ℤ, pos}
use libappupdater.Updater.Check.{
  Environment, Session, Availability, available, up_to_date, is_available, no_error,
}
use libappupdater.Updater.Settings.{ExecuteMode, ignore_skip, reinstall, once, set_once, is_skipped}
use libappupdater.Updater.Execute.{Dialogs, Installation, checked}

module _ (c : ConfigStore) where
  open c use {State}

  -- The install dialog was shown, for a version that is not skipped or in a mode that does not mind,
  -- and installed the update without an error; the settings are its own, with the mark.
  pub record FromDialog (d : Dialogs c) (mode : ExecuteMode) (version : Bytes) (now : ℤ)
      (before after : State) : Type 0 where
    pub wanted :
        (mode ≡ reinstall) ⊎ (mode ≡ ignore_skip) ⊎ ((is_skipped c version now before).0 ≡ false)
    pub installed : (d.install_dialog (is_skipped c version now before).1).installed ≡ true
    pub marked :
        after
        ≡ set_once c true
            (Installation.settings (d.install_dialog (is_skipped c version now before).1))

  -- The outcome 2 of an offer is a dialog that installed, with its error flag.
  abbrev Remembers : Dialogs c → ExecuteMode → Bytes → ℤ → State → ℤ × Bool × State → Type 0
  Remembers d mode version now before r =
      r.0 ≡ pos 2
      → FromDialog d mode version now before (r.2)
        × (r.1 ≡ Installation.failed (d.install_dialog (is_skipped c version now before).1))

  -- What `Execute` has done when it returns 2.
  pub record IsInstalled (env : Environment) (d : Dialogs c) (mode : ExecuteMode) (now : ℤ)
      (session : Session) (s : State) : Type 0 where
    pub interactive : Bool
    pub availability : Availability
    pub result : Session
    pub before : State
    pub checked : is_available env interactive session ≡ some (availability, result)
    pub offered : (availability ≡ available) ⊎ ((availability ≡ up_to_date) × (mode ≡ reinstall))
    pub no_check_error : result.last_error ≡ no_error
    pub dialog : FromDialog d mode result.manifest.attribute_version now before s
    pub no_dialog_error :
        Installation.failed
          (d.install_dialog (is_skipped c result.manifest.attribute_version now before).1)
        ≡ false
    pub remembered : once c s ≡ true

  -- A result that is right when it says that an update was installed.
  abbrev Right : Environment → Dialogs c → ExecuteMode → ℤ → Session → ℤ × State → Type 0
  Right env d mode now session r = r.0 ≡ pos 2 → IsInstalled env d mode now session (r.1)
