-- ===== src/Updater/Verify/Trusted.antt =====
-- `AutoUpdater::Verify` after `Config::HasEdDSAPub`, in a program with a key in its resources.
use libappupdater.Config.Keys.{KeyTable}
use libappupdater.Config.Session.{Resources, Config, has_eddsa_pub}
use libappupdater.Config.Session.Keyed.{
  IsSession, IsAnswered, key_resource, has_eddsa_pub-IsAnswered,
}
use libappupdater.Manifest.{AutoManifest}
use libappupdater.Prelude.{
  ℕ, Bytes, Bool, true, false, List, [], Option, none, some, map, joined, ◌≡◌, ◌≢◌, ◌⊎◌, inl, inr,
  not, ◌==◌, refl, arith, All, ◌==◌,
}
use libappupdater.Updater.Verify.{Crypto, verified, verify}
use libappupdater.Updater.Verify.Accepted.{IsRead, IsSignedFile, verify-IsVerified}

module _ (c : Crypto) where
  keyed_file :
      (t : KeyTable) (m : AutoManifest) (contents : Bytes)
      → true ≡ not (t.public_keys == 0)
      → (t.public_keys ≡ 0) ⊎ IsSignedFile c t m contents
      → IsSignedFile c t m contents
  keyed_file t m contents e (inl z) = absurd (ground (arith, e, z))
  keyed_file t m contents e (inr f) = f

  -- After an answer of `HasEdDSAPub`, a file that `Verify` accepts is signed.
  abbrev pub IsTrusted : Config → Option Bool × Config → Type 0
  IsTrusted d (none, d') = d' ≡ d
  IsTrusted d (some b, d') =
      (b ≡ true)
      × ((m : AutoManifest) (size : ℕ) (pieces : List Bytes)
          → All (IsRead c) pieces
          → verify c d'.keys m (some (record { size = size; reads = map some pieces })) ≡ verified
          → IsSignedFile c d'.keys m (joined pieces))

  -- In a program whose resources have a key, from a state that satisfies the invariant, `HasEdDSAPub`
  -- fails and leaves the state alone, or it answers that keys are set, and then every file that
  -- `Verify` accepts is signed with the key that its manifest names.
  pub verify-has_eddsa_pub :
      (res : Resources) (d : Config)
      → IsSession res d
      → key_resource res ≢ some []
      → IsTrusted d (has_eddsa_pub res d)
  verify-has_eddsa_pub res d h given = go (has_eddsa_pub res d) (has_eddsa_pub-IsAnswered res d h)
    where
      go : (r : Option Bool × Config) → IsAnswered res d r → IsTrusted d r
      go (none, d') (same, _, _) = same
      go (some false, d') (_, _, _, empty, _) = absurd (given (empty refl))
      go (some true, d') (_, _, answer, _, _) = (
        refl,
        λ m size pieces read accepted.
            keyed_file d'.keys m (joined pieces) answer
              ((verify-IsVerified c d'.keys m size pieces read).0 accepted).signed,
      )
