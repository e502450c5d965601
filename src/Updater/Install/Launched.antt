-- ===== src/Updater/Install/Launched.antt =====
-- src/AutoUpdater.cpp: what `InstallNow` starts, and what it leaves where it starts nothing.
use libappupdater.CLib.{sprintf_s_text}
use libappupdater.Config.Keys.{KeyTable}
use libappupdater.Manifest.{AutoManifest}
use libappupdater.Prelude.{
  ℕ, Bytes, Bool, true, false, not, ◌&&◌, List, [], ◌∷◌, map, All, joined, Option, none, some,
  if◌then◌else◌, ◌≡◌, ◌≢◌, ◌⊎◌, inl, inr, refl, sym, ap, ◌∙◌, arith, codes, subst,
}
use libappupdater.Updater.Install.{
  Event, said, failed, started, InstallState, Ending, raised, stuck, ended_program, returned,
  Surroundings, event, event_if, retain_temp, set_last_error, command_text, command_line,
  start_installer, after_verify, not_downloaded, after_download, download_to, install_now,
}
use libappupdater.Updater.Target.{Target, no_target, endless, aborted, target, get_target_name}
use libappupdater.Updater.Verify.{Crypto, Verdict, threw, refused, verified, verify}
use libappupdater.Updater.Verify.Accepted.{IsRead, IsVerified, verify-IsVerified}

-- The programs that were started, with their command lines.
abbrev pub programs : List Event → List (Bytes × Bytes)
programs [] = []
programs (started file line ∷ es) = (file, line) ∷ programs es
programs (said x ∷ es) = programs es
programs (failed x ∷ es) = programs es

-- Nothing is started. If the function returns, it returns false, and the user has cancelled or an
-- error is kept.
pub record Nothing (cancelled : Bool) (ps : List (Bytes × Bytes)) (r : Ending × InstallState)
    : Type 0 where
  pub none_started : programs r.1.events ≡ ps
  pub not_true : r.0 ≢ returned true
  pub explained :
      r.0 ≡ returned false → (cancelled ≡ true) ⊎ ((msg : Bytes) × (r.1.last_error ≡ some msg))

-- The installer is started, and its file is kept.
pub record Starts (m : AutoManifest) (file : Bytes) (ps : List (Bytes × Bytes))
    (r : Ending × InstallState) : Type 0 where
  pub one_started : programs r.1.events ≡ (file, command_text m file) ∷ ps
  pub is_true : r.0 ≡ returned true
  pub retained : r.1.temp_file ≡ []

programs-event_if :
    (b : Bool) (x : Bytes) (s : InstallState)
    → (programs (InstallState.events (event_if b (said x) s)) ≡ programs s.events)
      × (programs (InstallState.events (event_if b (failed x) s)) ≡ programs s.events)
programs-event_if true x s = (refl, refl)
programs-event_if false x s = (refl, refl)

Nothing-raised :
    (cancelled : Bool) (s : InstallState) → Nothing cancelled (programs s.events) (raised, s)
Nothing-raised cancelled s = record {
  none_started = refl;
  not_true = λ e. ground (arith, e);
  explained = λ e. ground (arith, e);
}

abbrev Installs :
    Bool → AutoManifest → Bytes → List (Bytes × Bytes) → Ending × InstallState → Type 0
Installs cancelled m file ps r = Nothing cancelled ps r ⊎ Starts m file ps r

start_installer-Installs :
    (env : Surroundings) (interactive : Bool) (m : AutoManifest) (file : Bytes) (s : InstallState)
    (o : Option Bytes)
    → command_line m file ≡ o
    → Installs env.cancelled m file (programs s.events) (start_installer env interactive file o s)
unfolding start_installer command_line
start_installer-Installs env interactive m file s none e = inl record {
  none_started = refl;
  not_true = λ q. ground (arith, q);
  explained = λ q. ground (arith, q);
}
start_installer-Installs env interactive m file s (some line) e = go (env.create_process file line)
  where
    go :
        (b : Bool)
        → Installs env.cancelled m file (programs s.events) (
            if b
            then (returned true, retain_temp (event (started file line) s))
            else (raised, event_if interactive (failed (codes "Unable to execute installer")) s))
    go true = inr record {
      one_started =
          ap (λ l. (file, l) ∷ programs s.events)
            (sprintf_s_text 1023 (command_text m file) line e);
      is_true = refl;
      retained = refl;
    }
    go false = inl record {
      none_started = (programs-event_if interactive (codes "Unable to execute installer") s).1;
      not_true = λ q. ground (arith, q);
      explained = λ q. ground (arith, q);
    }

-- What is kept when an error is reported.
Nothing-error :
    (cancelled interactive : Bool) (msg : Bytes) (s : InstallState)
    → Nothing cancelled (programs s.events) (returned false, set_last_error interactive msg s)
Nothing-error cancelled interactive msg s = record {
  none_started = (programs-event_if interactive msg s).1;
  not_true = λ q. ground (arith, q);
  explained = λ q. inr (msg, refl);
}

after_verify-Installs :
    (env : Surroundings) (interactive : Bool) (m : AutoManifest) (file : Bytes) (v : Verdict)
    (s : InstallState)
    → Nothing env.cancelled (programs s.events) (after_verify env interactive m file v s)
      ⊎ ((v ≡ verified)
          × Starts m file (programs s.events) (after_verify env interactive m file v s))
unfolding after_verify
after_verify-Installs env interactive m file threw s = inl (Nothing-raised env.cancelled s)
after_verify-Installs env interactive m file refused s =
    inl (Nothing-error env.cancelled interactive (codes "Installer verification failure.") s)
after_verify-Installs env interactive m file verified s =
    elim (start_installer-Installs env interactive m file
      (event (said (codes "Running installer ...")) s) (command_line m file) refl) [
        | inl n ↦ inl n
        | inr l ↦ inr (refl, l)
      ]

not_downloaded-Nothing :
    (interactive getfile cancelled : Bool) (s : InstallState)
    → (getfile && not cancelled) ≡ false
    → Nothing cancelled
        (programs s.events)
        (returned false, not_downloaded interactive getfile cancelled s)
unfolding not_downloaded
not_downloaded-Nothing interactive getfile true s h = record {
  none_started = (programs-event_if interactive (codes "Install canceled.") s).0;
  not_true = λ q. ground (arith, q);
  explained = λ q. inl refl;
}
not_downloaded-Nothing interactive true false s h = absurd (ground (arith, h))
not_downloaded-Nothing interactive false false s h =
    Nothing-error false interactive (codes "Unable to download installer") s

both : (a b : Bool) → (a && not b) ≡ true → (a ≡ true) × (b ≡ false)
both a b h = ground (arith, h)

module _ (c : Crypto) (env : Surroundings) (interactive : Bool) (t : KeyTable)
    (m : AutoManifest) where
  -- What is known of an installer that is started.
  pub record Checked (file : Bytes) (ps : List (Bytes × Bytes)) (r : Ending × InstallState)
      : Type 0 where
    pub downloaded : env.download m.attribute_url file ≡ some true
    pub not_cancelled : env.cancelled ≡ false
    pub accepted : verify c t m (env.open_image file) ≡ verified
    pub starts : Starts m file ps r

  after_download-Checked :
      (file : Bytes) (getfile : Bool) (s : InstallState)
      → env.download m.attribute_url file ≡ some getfile
      → Nothing env.cancelled
          (programs s.events)
          (after_download c env interactive t m file getfile s)
        ⊎ Checked file (programs s.events) (after_download c env interactive t m file getfile s)
  unfolding after_download
  after_download-Checked file getfile s e = go (getfile && not env.cancelled) refl
    where
      s' : InstallState
      s' = event_if interactive (said (codes "Verifying installer image ...")) s

      result : Bool → Ending × InstallState
      result b =
          if b
          then after_verify env interactive m file (verify c t m (env.open_image file)) s'
          else (returned false, not_downloaded interactive getfile env.cancelled s)

      go :
          (b : Bool)
          → (getfile && not env.cancelled) ≡ b
          → Nothing env.cancelled (programs s.events) (result b)
            ⊎ Checked file (programs s.events) (result b)
      go true h =
          let (got, kept_on) = both getfile env.cancelled h in
          elim (subst
            (λ ps.
              Nothing env.cancelled ps (result true)
              ⊎ ((verify c t m (env.open_image file) ≡ verified) × Starts m file ps (result true)))
            ((programs-event_if interactive (codes "Verifying installer image ...") s).0)
            (after_verify-Installs env interactive m file (verify c t m (env.open_image file))
              s')) [
                | inl n ↦ inl n
                | inr (v, l) ↦ inr record {
                  downloaded = e ∙ ap (λ b. some b) got;
                  not_cancelled = kept_on;
                  accepted = v;
                  starts = l;
                }
              ]
      go false h = inl (not_downloaded-Nothing interactive getfile env.cancelled s h)

  download_to-Checked :
      (file : Bytes) (s : InstallState)
      → Nothing env.cancelled (programs s.events) (download_to c env interactive t m file s)
        ⊎ Checked file (programs s.events) (download_to c env interactive t m file s)
  unfolding download_to
  download_to-Checked file s =
      subst
        (λ ps.
          Nothing env.cancelled ps (download_to c env interactive t m file s)
          ⊎ Checked file ps (download_to c env interactive t m file s))
        ((programs-event_if interactive (codes "Downloading update ...") s).0)
        (go (env.download m.attribute_url file) refl)
    where
      s' : InstallState
      s' = event_if interactive (said (codes "Downloading update ...")) s

      result : Option Bool → Ending × InstallState
      result o = elim o [
        | none ↦ (raised, s')
        | some getfile ↦ after_download c env interactive t m file getfile s'
      ]

      go :
          (o : Option Bool)
          → env.download m.attribute_url file ≡ o
          → Nothing env.cancelled (programs s'.events) (result o)
            ⊎ Checked file (programs s'.events) (result o)
      go none e = inl (Nothing-raised env.cancelled s')
      go (some getfile) e = after_download-Checked file getfile s' e

  -- An installer is started by `InstallNow` at most once, and only if its file was downloaded to
  -- the name that `GetTargetName` gave, the user has not cancelled and `Verify` accepted that file;
  -- then the command line is that of the manifest, the result is true and the file stays. Otherwise
  -- nothing is started, and if the function returns, it returns false and the user has cancelled or
  -- an error is kept.
  pub install_now-Checked :
      (rounds : ℕ) (s : InstallState)
      → Nothing env.cancelled (programs s.events) (install_now c env rounds interactive t m s)
        ⊎ ((dir : Bytes) × (file : Bytes) × (get_target_name env.directories rounds m
              ≡ target dir file)
            × Checked file (programs s.events) (install_now c env rounds interactive t m s))
  unfolding install_now
  install_now-Checked rounds s = go (get_target_name env.directories rounds m) refl
    where
      result : Target → Ending × InstallState
      result g = elim g [
        | no_target ↦ (raised, s)
        | endless ↦ (stuck, s)
        | aborted ↦ (ended_program, s)
        | target dir file ↦
            download_to c env interactive t m file (record s { temp_dir = dir; temp_file = file })
      ]

      go :
          (g : Target)
          → get_target_name env.directories rounds m ≡ g
          → Nothing env.cancelled (programs s.events) (result g)
            ⊎ ((dir : Bytes) × (file : Bytes) × (get_target_name env.directories rounds m
                  ≡ target dir file)
                × Checked file (programs s.events) (result g))
      go no_target e = inl (Nothing-raised env.cancelled s)
      go endless e = inl record {
        none_started = refl;
        not_true = λ q. ground (arith, q);
        explained = λ q. ground (arith, q);
      }
      go aborted e = inl record {
        none_started = refl;
        not_true = λ q. ground (arith, q);
        explained = λ q. ground (arith, q);
      }
      go (target dir file) e =
          elim (download_to-Checked file (record s { temp_dir = dir; temp_file = file })) [
            | inl n ↦ inl n
            | inr l ↦ inr (dir, file, e, l)
          ]

  -- If `InstallNow` returns true, where every file can be opened and is read without error, then it
  -- started one program, the file of the name that `GetTargetName` gave, with the command line of
  -- the manifest. That file is not empty, has the length and the hash that the manifest states, and,
  -- if the application has set a public key, the manifest names a key that is there and its
  -- signature is that key's of the contents of that file.
  pub install_now-IsVerified :
      (rounds : ℕ) (s : InstallState) (size : Bytes → ℕ) (pieces : Bytes → List Bytes)
      → ((file : Bytes) → All (IsRead c) (pieces file))
      → ((file : Bytes)
          → env.open_image file
            ≡ some (record { size = size file; reads = map some (pieces file) }))
      → (install_now c env rounds interactive t m s).0 ≡ returned true
      → (dir : Bytes) × (file : Bytes) × (get_target_name env.directories rounds m
          ≡ target dir file)
        × (programs (install_now c env rounds interactive t m s).1.events
            ≡ (file, command_text m file) ∷ programs s.events)
        × IsVerified c t m (size file) (joined (pieces file))
  install_now-IsVerified rounds s size pieces p image e = elim (install_now-Checked rounds s) [
    | inl n ↦ absurd (n.not_true e)
    | inr (dir, file, g, l) ↦ (
      dir,
      file,
      g,
      l.starts.one_started,
      (verify-IsVerified c t m (size file) (pieces file) (p file)).0
          (ap (λ i. verify c t m i) (sym (image file)) ∙ l.accepted),
    )
  ]
