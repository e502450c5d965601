-- ===== src/Updater/Settings/Schedule.antt =====
-- When a check is due, and for how long a version is skipped.
use libappupdater.CLib.{print_int}
use libappupdater.CLib.{stricmp_eq}
use libappupdater.Config.Store.{
  ConfigStore, Storable, read_int, read_bool, read_string, write_int, write_bool, int_max, time_max,
}
use libappupdater.Config.Store.Values.{
  FitsMax, Storable-print_int, read_int-write_int, read_bool-write_bool, read_int-write_ne,
  read_bool-write_ne, read_string-write_ne,
}
use libappupdater.Prelude.{
  ℕ, ◌≤◌, ◌<◌, Bytes, Bool, true, false, ◌≡◌, refl, ◌∙◌, arith, codes, if◌then◌else◌,
}
use libappupdater.Prelude.Int.{ℤ, pos, ◌+ℤ◌, lt_ℤ, eq_ℤ}
use libappupdater.Updater.Settings.{
  auto_interval, auto_check, auto_last, status_prompt, status_disabled, status_enabled,
  status_already, auto, prompt, disable, interval_seconds, set_auto, prompt_status, auto_status,
  status,
}

module _ (c : ConfigStore) where
  open c use {State, read, write, read_write}

  -- A written number does not change what is read under another name.
  module _ (s : State) (name other : Bytes) (i : ℤ) (differ : stricmp_eq name other ≡ false)
      (fits : FitsMax time_max i) where
    ints_kept : (max : ℕ) → read_int c max (write_int c s name i) other ≡ read_int c max s other
    unfolding write_int
    ints_kept = read_int-write_ne c s name other (print_int i) differ (Storable-print_int i fits)

    bools_kept : read_bool c (write_int c s name i) other ≡ read_bool c s other
    unfolding write_int
    bools_kept = read_bool-write_ne c s name other (print_int i) differ (Storable-print_int i fits)

    strings_kept : read_string c (write_int c s name i) other ≡ read_string c s other
    unfolding write_int
    strings_kept =
        read_string-write_ne c s name other (print_int i) differ (Storable-print_int i fits)

  short_bool : (b : Bool) → Storable (codes (if b then "1" else "0"))
  short_bool true = (omega arith, refl)
  short_bool false = (omega arith, refl)

  abbrev last_set : Bool → ℕ → ℤ
  last_set state t = if state then pos t else pos 0

  last_set-FitsMax : (state : Bool) (t : ℕ) → t ≤ time_max → FitsMax time_max (last_set state t)
  last_set-FitsMax true t h = h
  last_set-FitsMax false t h = omega arith

  -- What the settings read after `SetAuto`.
  module _ (state : Bool) (t : ℕ) (h : t ≤ time_max) (s : State) where
    interval-set_auto :
        read_int c int_max (set_auto c state (pos t) s) auto_interval
        ≡ read_int c int_max s auto_interval
    unfolding set_auto write_bool stricmp_eq
    interval-set_auto =
        ints_kept (write_bool c s auto_check state) auto_last auto_interval (last_set state t) refl
          (last_set-FitsMax state t h) int_max
        ∙ read_int-write_ne c s auto_check auto_interval _ refl (short_bool state) int_max

    last-set_auto :
        read_int c time_max (set_auto c state (pos t) s) auto_last ≡ (last_set state t, true)
    unfolding set_auto
    last-set_auto =
        read_int-write_int c time_max (write_bool c s auto_check state) auto_last (last_set state t)
          (last_set-FitsMax state t h) (omega arith)

    check-set_auto : read_bool c (set_auto c state (pos t) s) auto_check ≡ (state, true)
    unfolding set_auto stricmp_eq
    check-set_auto =
        bools_kept (write_bool c s auto_check state) auto_last auto_check (last_set state t) refl
          (last_set-FitsMax state t h)
        ∙ read_bool-write_bool c s auto_check state

  prompt_status_of :
      (is_auto b : Bool) (s : State)
      → read_bool c s auto_check ≡ (b, true)
      → prompt_status c is_auto s
        ≡ (if b then status_enabled else if is_auto then status_disabled else status_prompt)
  unfolding prompt_status
  prompt_status_of is_auto b s e = rw e refl

  -- After automatic checks were enabled at a time `t` that is not 0, an automatic check at time `n`
  -- is already done before the interval is over, and leaves the settings alone; from then on it is
  -- due, and the time of the check is stored.
  pub auto_status-set_auto :
      (s : State) (t n l : ℕ)
      → 0 < t
      → t ≤ time_max
      → l ≤ time_max
      → status c auto (pos n) (pos l) (set_auto c true (pos t) s) ≡ (
          if lt_ℤ (pos n) (pos t +ℤ interval_seconds 60 2 (read_int c int_max s auto_interval).0)
          then (status_already, set_auto c true (pos t) s)
          else (status_enabled, write_int c (set_auto c true (pos t) s) auto_last (pos l)))
  unfolding status auto_status stricmp_eq
  auto_status-set_auto s t n l pos_t h k =
      let nonzero : eq_ℤ (pos t) (pos 0) ≡ false = ground arith in
      let s' = set_auto c true (pos t) s in
      let due =
        prompt_status_of true true (write_int c s' auto_last (pos l))
          (bools_kept s' auto_last auto_check (pos l) refl k ∙ check-set_auto true t h s) in
      rw (interval-set_auto true t h s, last-set_auto true t h s, nonzero, due) refl

  -- After automatic checks were disabled at time `t`, an automatic check is disabled at any time,
  -- and a check that may prompt asks the user.
  pub status-set_auto-false :
      (s : State) (t n l : ℕ)
      → t ≤ time_max
      → (status c auto (pos n) (pos l) (status c disable (pos t) (pos t) s).1
          ≡ (status_disabled, set_auto c false (pos t) s))
        × (status c prompt (pos n) (pos l) (status c disable (pos t) (pos t) s).1
            ≡ (status_prompt, set_auto c false (pos t) s))
  unfolding status auto_status
  status-set_auto-false s t n l h =
      let off = λ (is_auto : Bool).
        prompt_status_of is_auto false (set_auto c false (pos t) s) (check-set_auto false t h s) in
      (rw (last-set_auto false t h s, off true) refl, rw (off false) refl)
