-- ===== src/Updater/Check/Offer.antt =====
-- What an available update is.
use Prim.Native.Nat.{lt}
use libappupdater.Config.Keys.{KeyTable, public_key_find}
use libappupdater.Manifest.{AutoManifest}
use libappupdater.Manifest.Selection.{loaded}
use libappupdater.Prelude.{Bytes, true, false, Option, none, some, ◌≡◌, ◌⊎◌, is_empty}
use libappupdater.Updater.Check.{
  complete, release, Availability, available, Environment, Session, is_endpoint,
}
use libappupdater.Version.{compare}

-- The manifest has a signature and names a key that is there.
pub record HasKnownKey (t : KeyTable) (m : AutoManifest) : Type 0 where
  pub some_signature : is_empty m.attribute_ed_signature ≡ false
  pub key : Bytes
  pub key_found : public_key_find m.attribute_ed_key_version t ≡ some key

module _ (env : Environment) where
  -- The manifest with its release notes, if it has a link to them: they are downloaded from there.
  abbrev pub IsNoted : AutoManifest → AutoManifest → Type 0
  IsNoted original m =
      ((is_empty original.release_notes_link ≡ true) × (m ≡ original))
      ⊎ ((notes : Bytes) × (env.get original.release_notes_link ≡ complete notes)
          × (m ≡ record original { release_notes_content = notes }))

  -- The manifest is of a newer version and has the signature that the keys ask for; the user has not
  -- cancelled.
  pub record IsSuitable (original m : AutoManifest) : Type 0 where
    pub newer : compare env.app_version original.attribute_version ≡ lt
    pub signed : (env.keys.public_keys ≡ 0) ⊎ HasKnownKey env.keys original
    pub noted : IsNoted original m
    pub not_cancelled : env.progress_cancelled ≡ false

  -- The address is the feed, or that of the latest release of a feed of GitHub.
  abbrev pub IsManifestUrl : Bytes → Type 0
  IsManifestUrl url =
      ((is_endpoint env.feed_url ≡ false) × (url ≡ env.feed_url))
      ⊎ ((is_endpoint env.feed_url ≡ true) × (env.get_latest_release env.feed_url ≡ release url))

  -- The manifest is that of the text at the address, with its release notes.
  pub record IsFrom (url : Bytes) (m : AutoManifest) : Type 0 where
    pub text : Bytes
    pub original : AutoManifest
    pub downloaded : env.get url ≡ complete text
    pub parsed : env.load text ≡ loaded original
    pub suitable : IsSuitable original m

  pub record IsOffer (m : AutoManifest) : Type 0 where
    pub url : Bytes
    pub manifest_url : IsManifestUrl url
    pub from : IsFrom url m

  -- The manifest of an available update.
  abbrev Good : (AutoManifest → Type 0) → Availability × Session → Type 0
  Good p r = r.0 ≡ available → p r.1.manifest

  or_else : Availability × Session → Option (Availability × Session) → Availability × Session
  or_else d none = d
  or_else d (some r) = r
