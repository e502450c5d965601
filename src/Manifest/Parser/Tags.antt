-- ===== src/Manifest/Parser/Tags.antt =====
-- src/AutoManifest.cpp: the element names, the counters of open elements and the fields of an item
-- that keep an element's text.
use libappupdater.Manifest.{AutoManifest}
use libappupdater.Manifest.Parser.{
  Levels, ParserContext, Attrs, edit, parser_error, prefix_field_match,
}
use libappupdater.Prelude.{
  Bytes, Bool, false, not, Option, none, some, ◌&&◌, [], ◌∷◌, str_eq, is_empty, codes,
  if◌then◌else◌,
}
use libappupdater.Prelude.Int.{ℤ}

-- The elements that keep their text.
pub data Field : Type 0 where
  title link description release_notes_link version minimum_system_version critical_update : Field
  installer_arguments published pub_date : Field

pub data Tag : Type 0 where
  channel item tags enclosure other : Tag
  kept : Field → Tag

-- The element of a name. The names differ, so that the order of the tests, which `OnStartElement`
-- and `OnEndElement` do not share, does not matter.
unfoldable pub tag_of : Bytes → Tag
unfolding prefix_field_match str_eq
tag_of name =
    if str_eq name (codes "channel")
    then channel
    else if str_eq name (codes "item")
    then item
    else if str_eq name (codes "title")
    then kept title
    else if str_eq name (codes "link")
    then kept link
    else if str_eq name (codes "description")
    then kept description
    else if prefix_field_match name (codes "releaseNotesLink")
    then kept release_notes_link
    else if prefix_field_match name (codes "version")
    then kept version
    else if prefix_field_match name (codes "minimumSystemVersion")
    then kept minimum_system_version
    else if str_eq name (codes "published")
    then kept published
    else if str_eq name (codes "pubDate")
    then kept pub_date
    else if prefix_field_match name (codes "criticalUpdate")
    then kept critical_update
    else if prefix_field_match name (codes "installerArguments")
    then kept installer_arguments
    else if prefix_field_match name (codes "tags")
    then tags
    else if str_eq name (codes "enclosure")
    then enclosure
    else other

abbrev pub level_of : Field → Levels → ℤ
level_of title l = l.title_level
level_of link l = l.link_level
level_of description l = l.description_level
level_of release_notes_link l = l.release_notes_link_level
level_of version l = l.version_level
level_of minimum_system_version l = l.minimum_system_version_level
level_of critical_update l = l.critical_update_level
level_of installer_arguments l = l.installer_arguments_level
level_of published l = l.published_level
level_of pub_date l = l.pub_date_level

abbrev pub edit_level : Field → (ℤ → ℤ) → Levels → Levels
edit_level title f l = record l { title_level = f l.title_level }
edit_level link f l = record l { link_level = f l.link_level }
edit_level description f l = record l { description_level = f l.description_level }
edit_level release_notes_link f l = record l {
  release_notes_link_level = f l.release_notes_link_level;
}
edit_level version f l = record l { version_level = f l.version_level }
edit_level minimum_system_version f l = record l {
  minimum_system_version_level = f l.minimum_system_version_level;
}
edit_level critical_update f l = record l { critical_update_level = f l.critical_update_level }
edit_level installer_arguments f l = record l {
  installer_arguments_level = f l.installer_arguments_level;
}
edit_level published f l = record l { published_level = f l.published_level }
edit_level pub_date f l = record l { pub_date_level = f l.pub_date_level }

-- The text that an end tag trims and, but for three elements, a text is appended to.
abbrev pub edit_text : Field → (Bytes → Bytes) → AutoManifest → AutoManifest
edit_text title f m = record m { title = f m.title }
edit_text link f m = record m { link = f m.link }
edit_text description f m = record m { description = f m.description }
edit_text release_notes_link f m = record m { release_notes_link = f m.release_notes_link }
edit_text version f m = record m { version = f m.version }
edit_text minimum_system_version f m = record m {
  minimum_system_version = f m.minimum_system_version;
}
edit_text critical_update f m = record m { critical_update = f m.critical_update }
edit_text installer_arguments f m = record m { installer_arguments = f m.installer_arguments }
edit_text published f m = record m { pub_date = f m.pub_date }
edit_text pub_date f m = record m { pub_date = f m.pub_date }

-- A change that reads the item that `manifest` points to.
abbrev pub at_newest :
    (AutoManifest → ParserContext → ParserContext) → ParserContext → ParserContext
at_newest f ctx = elim ctx.manifests [ [] ↦ ctx | m ∷ _ ↦ f m ctx ]

-- The attributes of an enclosure.
pub data Attribute : Type 0 where
  attr_name attr_url attr_version attr_length attr_type attr_build attr_os attr_sha_signature
        attr_md5_signature attr_ed_signature attr_ed_key_version :
      Attribute

unfoldable pub attribute_of : Bytes → Option Attribute
unfolding str_eq
attribute_of var =
    if str_eq var (codes "name")
    then some attr_name
    else if str_eq var (codes "url")
    then some attr_url
    else if str_eq var (codes "version")
    then some attr_version
    else if str_eq var (codes "length")
    then some attr_length
    else if str_eq var (codes "type")
    then some attr_type
    else if str_eq var (codes "build")
    then some attr_build
    else if str_eq var (codes "os")
    then some attr_os
    else if str_eq var (codes "shaSignature")
    then some attr_sha_signature
    else if str_eq var (codes "md5Signature")
    then some attr_md5_signature
    else if str_eq var (codes "edSignature")
    then some attr_ed_signature
    else if str_eq var (codes "edKeyVersion")
    then some attr_ed_key_version
    else none

abbrev pub set_attribute : Attribute → Bytes → AutoManifest → AutoManifest
set_attribute attr_name value m = record m { attribute_name = value }
set_attribute attr_url value m = record m { attribute_url = value }
set_attribute attr_version value m = record m { attribute_version = value }
set_attribute attr_length value m = record m { attribute_length = value }
set_attribute attr_type value m = record m { attribute_type = value }
set_attribute attr_build value m = record m { build_label = value }
set_attribute attr_os value m = record m { os_label = value }
set_attribute attr_sha_signature value m = record m { attribute_sha_signature = value }
set_attribute attr_md5_signature value m = record m { attribute_md5_signature = value }
set_attribute attr_ed_signature value m = record m { attribute_ed_signature = value }
set_attribute attr_ed_key_version value m = record m { attribute_ed_key_version = value }

-- The label of the build or of the operating system is set to something else.
unfoldable pub is_redefined : Attribute → Bytes → AutoManifest → Bool
unfolding str_eq
is_redefined attr_build value m = not (is_empty m.build_label) && not (str_eq m.build_label value)
is_redefined attr_os value m = not (is_empty m.os_label) && not (str_eq m.os_label value)
is_redefined _ value m = false

abbrev pub redefined_message : Attribute → Bytes
redefined_message attr_build = codes "build attribute redefined"
redefined_message _ = codes "os attribute redefined"

unfoldable pub enclosure_field :
    Option Attribute → Bytes → AutoManifest → ParserContext → ParserContext
unfolding is_redefined
enclosure_field none value m ctx = ctx
enclosure_field (some a) value m ctx =
    if is_redefined a value m
    then parser_error (redefined_message a) ctx
    else edit (set_attribute a value) ctx

-- One attribute of an enclosure, for the item `m`.
unfoldable pub enclosure_attribute : Bytes → Bytes → AutoManifest → ParserContext → ParserContext
unfolding attribute_of enclosure_field
enclosure_attribute var value m ctx = enclosure_field (attribute_of var) value m ctx

-- The loop over the attributes of an enclosure, of the newest item.
unfoldable pub enclosure_attributes : Attrs → ParserContext → ParserContext
unfolding enclosure_attribute
enclosure_attributes [] ctx = ctx
enclosure_attributes ((var, value) ∷ rest) ctx =
    enclosure_attributes rest (at_newest (enclosure_attribute var value) ctx)
