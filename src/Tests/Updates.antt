-- ===== src/Tests/Updates.antt =====
-- The check for an update, the verification of a file and the whole of `Execute`:
-- src/AutoUpdater.cpp.
use libappupdater.Config.Keys.Table.{initial}
use libappupdater.Manifest.{AutoManifest, new_manifest}
use libappupdater.Manifest.Selection.{loaded}
use libappupdater.Prelude.{
  joined, Bytes, true, false, [], ◌∷◌, ◌++◌, some, map, ◌≡◌, ◌↔◌, refl, sym, ap, codes, str_eq,
}
use libappupdater.Tests.Inputs.{store}
use mathlib.Core.List.{append-nil, append_assoc}
use libappupdater.Updater.Check.{Environment, Session, complete, release_failed, no_error}
use libappupdater.Updater.Execute.{Dialogs, prompt_once}
use libappupdater.Updater.Verify.{Crypto, verified, verify}
use libappupdater.Updater.Verify.Accepted.{IsVerified, verify-IsVerified}

-- A hash that is its data, and a signature that is its data.
abbrev pub plain : Crypto
plain = record {
  Hash = Bytes;
  Verification = Bytes × Bytes;
  create_hash = λ is_sha. some [];
  hash_data = λ piece h. h ++ piece;
  hash_data_fails = λ piece. false;
  hash_value = λ h. h;
  verify_init = λ signature key. (signature, []);
  verify_update = λ piece v. (v.0, v.1 ++ piece);
  verify_final = λ v. str_eq (v.0) (v.1);
  hash_data_nil = append-nil;
  hash_data_append = λ a b h. sym (append_assoc h a b);
  verify_update_nil = λ v. ap (λ s. (v.0, s)) (append-nil v.1);
  verify_update_append = λ a b v. ap (λ s. (v.0, s)) (sym (append_assoc v.1 a b));
}

abbrev pub newer : AutoManifest
newer = record new_manifest {
  attribute_version = codes "1.1";
  attribute_length = codes "3";
  attribute_sha_signature = codes "010203";
}

verify-IsVerified_example :
    (verify plain initial newer
        (some (record { size = 3; reads = map some ((1 ∷ 2 ∷ []) ∷ (3 ∷ []) ∷ []) }))
      ≡ verified)
    ↔ IsVerified plain initial newer 3 (joined ((1 ∷ 2 ∷ []) ∷ (3 ∷ []) ∷ []))
verify-IsVerified_example =
    verify-IsVerified plain initial newer 3 ((1 ∷ 2 ∷ []) ∷ (3 ∷ []) ∷ [])
      (record { nonempty = refl; hashed = refl }, (record { nonempty = refl; hashed = refl }, tt))

abbrev site : Environment
site = record {
  app_version = codes "1.0";
  feed_url = codes "https://example.org/feed.xml";
  keys = initial;
  get = λ url. complete [];
  get_latest_release = λ url. release_failed;
  load = λ feed. loaded newer;
  progress_cancelled = false;
  progress_stopped = false;
}

abbrev fresh : Session
fresh = record { manifest = new_manifest; last_error = no_error }

abbrev dialogs : Dialogs store
dialogs = record {
  answer = prompt_once;
  install_dialog = λ s. record { installed = true; failed = false; settings = s };
}
