-- ===== src/Manifest/Parser/Handlers.antt =====
-- src/AutoManifest.cpp: `OnStartElement`, `OnEndElement`, `OnText` and `AutoManifest::Load`. Of
-- expat the model takes the list of calls that it makes for a text, and whether it then finds the
-- text malformed; `pub_date` is the C library's text of a time, and `beyond` says which words
-- behind an attribute list are not NULL.
pub mod Kept
pub mod Items
pub mod Text
pub mod Channel
use libappupdater.CLib.{atoi}
use libappupdater.Manifest.{AutoManifest}
use libappupdater.Manifest.Parser.{
  Attrs, ParserContext, channel_omitted, channel_none, channel_active, channel_inactive, is_none,
  is_active, is_inactive, channel_match, parser_error, parser_warning, parser_complete, edit,
  push_manifest, prefix_field_match, find_attr, find_seen, trim, is_one, is_zero, up, down,
}
use libappupdater.Manifest.Parser.Tags.{
  Tag, Field, channel, item, tags, enclosure, kept, title, link, description, release_notes_link,
  version, minimum_system_version, critical_update, installer_arguments, published, pub_date,
  tag_of, level_of, edit_level, edit_text, enclosure_attributes,
}
use libappupdater.Prelude.{
  ℕ, Bytes, Bool, true, false, not, ◌&&◌, List, [], ◌∷◌, ◌++◌, Option, none, some, str_eq, is_empty,
  codes, length, if◌then◌else◌,
}
use libappupdater.Prelude.Int.{ℤ, pos, lt_ℤ}

-- A call of a handler.
pub data Event : Type 0 where
  start_element : Bytes → Attrs → Event
  end_element : Bytes → Event
  text : Bytes → Event

channel_name_of : Attrs → Bytes
unfolding find_attr str_eq
channel_name_of attrs = elim (find_attr (codes "name") attrs) [ none ↦ [] | some n ↦ n ]

-- `<channel>` outside of a channel.
unfoldable pub start_channel : Attrs → ParserContext → ParserContext
unfolding channel_name_of channel_match
start_channel attrs ctx =
    let name = channel_name_of attrs in
    if channel_match ctx name
    then record ctx { channel_status = channel_active; channel_name = name }
    else record ctx { channel_status = channel_inactive; channel_name = [] }

-- `<item>`
unfoldable pub start_item : ParserContext → ParserContext
start_item ctx =
    if ctx.in_item
    then parser_error (codes "nested manifest components") ctx
    else if is_none ctx.channel_status
    then record (push_manifest [] ctx) { channel_status = channel_omitted }
    else if is_inactive ctx.channel_status
    then ctx
    else push_manifest ctx.channel_name ctx

-- The attributes that a description and a critical update have.
unfoldable pub field_attributes : (ℕ → Bool) → Field → Attrs → ParserContext → ParserContext
unfolding find_seen str_eq prefix_field_match
field_attributes beyond description attrs ctx =
    if is_zero ctx.levels.description_level
    then elim (find_seen beyond (length attrs) 0 (λ var. str_eq var (codes "url")) attrs) [
      | none ↦ ctx
      | some value ↦ edit (λ m. record m { release_notes_link = value }) ctx
    ]
    else ctx
field_attributes beyond critical_update attrs ctx =
    if is_zero ctx.levels.critical_update_level
    then elim (find_seen beyond (length attrs) 0 (λ var. prefix_field_match var (codes "version"))
        attrs) [
          | none ↦ edit (λ m. record m { critical_update = codes "*" }) ctx
          | some value ↦ edit (λ m. record m { critical_update = value }) ctx
        ]
    else ctx
field_attributes beyond _ attrs ctx = ctx

abbrev pub raise : Field → ParserContext → ParserContext
raise f ctx = record ctx { levels = edit_level f up ctx.levels }

abbrev pub lower : Field → ParserContext → ParserContext
lower f ctx = record ctx { levels = edit_level f down ctx.levels }

-- The tags of an item.
unfoldable pub start_in_item : (ℕ → Bool) → Tag → Attrs → ParserContext → ParserContext
unfolding field_attributes enclosure_attributes
start_in_item beyond (kept f) attrs ctx = raise f (field_attributes beyond f attrs ctx)
start_in_item beyond tags attrs ctx =
    if ctx.in_tags
    then parser_error (codes "nested tags component") ctx
    else record ctx { in_tags = true }
start_in_item beyond enclosure attrs ctx =
    if ctx.has_manifest then enclosure_attributes attrs ctx else ctx
start_in_item beyond _ attrs ctx = ctx

abbrev pub start_other : (ℕ → Bool) → Tag → Attrs → ParserContext → ParserContext
start_other beyond tag attrs ctx =
    if ctx.in_tags then ctx else if ctx.in_item then start_in_item beyond tag attrs ctx else ctx

unfoldable pub start_tag : (ℕ → Bool) → Tag → Attrs → ParserContext → ParserContext
unfolding start_channel start_item start_in_item str_eq
start_tag beyond channel attrs ctx =
    if is_none ctx.channel_status
    then start_channel attrs ctx
    else if is_active ctx.channel_status
    then parser_error (codes "nested channel components") ctx
    else if is_inactive ctx.channel_status
    then parser_error (codes "nested channel components") ctx
    else parser_error (codes "unexpected channel component") ctx
start_tag beyond item attrs ctx = start_item ctx
start_tag beyond tag attrs ctx = start_other beyond tag attrs ctx

-- `OnStartElement`
unfoldable pub on_start_element : (ℕ → Bool) → Bytes → Attrs → ParserContext → ParserContext
unfolding tag_of start_tag
on_start_element beyond name attrs ctx = start_tag beyond (tag_of name) attrs ctx

-- What the end of an element does to its text. A critical update's is an attribute, and the link of
-- the release notes is trimmed with the description.
abbrev pub finish : Field → AutoManifest → AutoManifest
finish description m = record m {
  description = trim m.description;
  release_notes_link = trim m.release_notes_link;
}
finish f m = edit_text f trim m

unfoldable pub end_in_item : Tag → ParserContext → ParserContext
end_in_item (kept f) ctx =
    lower f (if is_one (level_of f ctx.levels) then edit (finish f) ctx else ctx)
end_in_item item ctx = record ctx { has_manifest = false; in_item = false }
end_in_item _ ctx = ctx

unfoldable pub end_outside : Tag → ParserContext → ParserContext
end_outside channel ctx =
    let closed = if is_active ctx.channel_status then parser_complete ctx else ctx in
    record closed { channel_status = channel_none }
end_outside _ ctx = ctx

unfoldable pub end_in_tags : Tag → ParserContext → ParserContext
end_in_tags tags ctx = record ctx { in_tags = false }
end_in_tags _ ctx = ctx

unfoldable pub end_tag : Tag → ParserContext → ParserContext
unfolding end_in_tags end_in_item end_outside
end_tag tag ctx =
    if ctx.in_tags
    then end_in_tags tag ctx
    else if ctx.in_item
    then end_in_item tag ctx
    else end_outside tag ctx

-- `OnEndElement`; the `assert` is left out.
unfoldable pub on_end_element : Bytes → ParserContext → ParserContext
unfolding tag_of end_tag
on_end_element name ctx = end_tag (tag_of name) ctx

-- The element whose text is read: the first of those whose counter is 1.
abbrev pub open_field : ParserContext → Option Field
open_field ctx =
    if is_one ctx.levels.title_level
    then some title
    else if is_one ctx.levels.link_level
    then some link
    else if is_one ctx.levels.description_level
    then some description
    else if is_one ctx.levels.release_notes_link_level
    then some release_notes_link
    else if is_one ctx.levels.version_level
    then some version
    else if is_one ctx.levels.minimum_system_version_level
    then some minimum_system_version
    else if is_one ctx.levels.installer_arguments_level
    then some installer_arguments
    else if is_one ctx.levels.published_level
    then some published
    else if is_one ctx.levels.pub_date_level
    then some pub_date
    else none

-- A text of `<published>`: seconds, with the date when there is none yet.
unfoldable pub publish : (ℤ → Bytes) → Bytes → AutoManifest → AutoManifest
unfolding atoi
publish pub_date_of s m =
    if is_empty s
    then m
    else (let t = atoi s in
        if lt_ℤ (pos 0) t && is_empty m.pub_date
        then record m { published = t; pub_date = pub_date_of t }
        else record m { published = t })

unfoldable pub has_link : ParserContext → Bool
has_link ctx = elim ctx.manifests [ [] ↦ false | m ∷ _ ↦ not (is_empty m.release_notes_link) ]

unfoldable pub text_of : (ℤ → Bytes) → Field → Bytes → ParserContext → ParserContext
unfolding publish has_link
text_of pub_date_of published s ctx = edit (publish pub_date_of s) ctx
text_of pub_date_of release_notes_link s ctx = edit (edit_text release_notes_link (λ t. t ++ s)) (
    if has_link ctx
    then parser_warning
        (codes "description url attribute and releaseNotesLink element are mutually exclusive") ctx
    else ctx)
text_of pub_date_of f s ctx = edit (edit_text f (λ t. t ++ s)) ctx

-- `OnText`
unfoldable pub on_text : (ℤ → Bytes) → Bytes → ParserContext → ParserContext
unfolding text_of
on_text pub_date_of s ctx =
    if ctx.in_tags
    then ctx
    else if ctx.in_item && ctx.has_manifest
    then elim (open_field ctx) [ none ↦ ctx | some f ↦ text_of pub_date_of f s ctx ]
    else ctx

module _ (pub_date_of : ℤ → Bytes) (beyond : ℕ → Bool) where
  unfoldable pub handle : Event → ParserContext → ParserContext
  unfolding on_start_element on_end_element on_text
  handle (start_element name attrs) ctx = on_start_element beyond name attrs ctx
  handle (end_element name) ctx = on_end_element name ctx
  handle (text s) ctx = on_text pub_date_of s ctx

  -- The calls, up to the one that stops the parser.
  unfoldable pub run : List Event → ParserContext → ParserContext
  unfolding handle
  run [] ctx = ctx
  run (e ∷ es) ctx =
      let next = run es (handle e ctx) in
      if ctx.failed then ctx else if ctx.completed then ctx else next
