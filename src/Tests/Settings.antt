-- ===== src/Tests/Settings.antt =====
-- The settings and the keys: src/AutoConfig.cpp and src/AutoUpdater.cpp.
use libappupdater.Config.Keys.{set_ed25519_key, public_key_find, public_length}
use libappupdater.Config.Keys.Table.{
  KeyStored, initial, initial-IsKeyTable, zeros, set_ed25519_key-KeyStored, version_zero_found,
}
use libappupdater.Config.Store.{read_int, write_int, int_max}
use libappupdater.Prelude.{true, false, some, ◌≡◌, refl, arith, codes, if◌then◌else◌}
use libappupdater.Prelude.Int.{pos, ◌+ℤ◌, lt_ℤ}
use libappupdater.Tests.Inputs.{store, no_settings}
use libappupdater.Updater.Settings.{
  auto, auto_interval, auto_last, interval_seconds, set_auto, status, status_already,
  status_enabled, is_skipped, install_skip, clear_skip,
}
use libappupdater.Updater.Settings.Schedule.{auto_status-set_auto}
use libappupdater.Updater.Settings.Skip.{blank_is_not_skipped}

set_ed25519_key-KeyStored_example :
    KeyStored (zeros 32) 4 initial (set_ed25519_key (zeros 32) 4 initial)
set_ed25519_key-KeyStored_example =
    set_ed25519_key-KeyStored (zeros 32) 4 initial initial-IsKeyTable (λ e. ground (arith, e)) refl

version_zero_found_example : public_key_find (codes "1.0") initial ≡ some (zeros public_length)
version_zero_found_example = version_zero_found initial initial-IsKeyTable (omega arith)

auto_status-set_auto_example :
    status store auto (pos 5000) (pos 5001) (set_auto store true (pos 1000) no_settings) ≡ (
      if lt_ℤ
        (pos 5000)
        (pos 1000 +ℤ interval_seconds 60 2 (read_int store int_max no_settings auto_interval).0)
      then (status_already, set_auto store true (pos 1000) no_settings)
      else (
        status_enabled,
        write_int store (set_auto store true (pos 1000) no_settings) auto_last (pos 5001),
      ))
auto_status-set_auto_example =
    auto_status-set_auto store no_settings 1000 5000 5001 (omega arith) (omega arith) (omega arith)

blank_is_not_skipped_example :
    is_skipped store
      (codes "1.2 b")
      (pos 2000)
      (install_skip store (codes "1.2 b") (pos 1000) no_settings)
    ≡ (false, clear_skip store (install_skip store (codes "1.2 b") (pos 1000) no_settings))
blank_is_not_skipped_example =
    blank_is_not_skipped store no_settings b'1' (codes ".2") b' ' (codes "b") 1000 2000
      (refl, (refl, (refl, tt))) refl (omega arith, refl) (omega arith)
