-- ===== src/Manifest.antt =====
-- src/AutoManifest.h: the class `AutoManifest`. `published` is a time, and `weight` is kept by the
-- selection.
pub mod Selection
pub mod Parser
use libappupdater.Prelude.{ℕ, Bytes, []}
use libappupdater.Prelude.Int.{ℤ, pos}

pub record AutoManifest : Type 0 where
  pub build_label : Bytes
  pub os_label : Bytes
  pub title : Bytes
  pub link : Bytes
  pub version : Bytes
  pub minimum_system_version : Bytes
  pub critical_update : Bytes
  pub installer_arguments : Bytes
  pub published : ℤ
  pub pub_date : Bytes
  pub description : Bytes
  pub release_notes_link : Bytes
  pub release_notes_content : Bytes
  pub attribute_url : Bytes
  pub attribute_name : Bytes
  pub attribute_version : Bytes
  pub attribute_length : Bytes
  pub attribute_type : Bytes
  pub attribute_sha_signature : Bytes
  pub attribute_md5_signature : Bytes
  pub attribute_ed_signature : Bytes
  pub attribute_ed_key_version : Bytes
  pub weight : ℕ

-- `AutoManifest()`
abbrev pub new_manifest : AutoManifest
new_manifest = record {
  build_label = [];
  os_label = [];
  title = [];
  link = [];
  version = [];
  minimum_system_version = [];
  critical_update = [];
  installer_arguments = [];
  published = pos 0;
  pub_date = [];
  description = [];
  release_notes_link = [];
  release_notes_content = [];
  attribute_url = [];
  attribute_name = [];
  attribute_version = [];
  attribute_length = [];
  attribute_type = [];
  attribute_sha_signature = [];
  attribute_md5_signature = [];
  attribute_ed_signature = [];
  attribute_ed_key_version = [];
  weight = 0;
}
