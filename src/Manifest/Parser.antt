-- ===== src/Manifest/Parser.antt =====
-- src/AutoManifest.cpp: the parser's context and its handlers of start tags, end tags and text.
-- Expat calls them; it is no part of the model, which takes the list of calls. Logging is left out.
pub mod Tags
pub mod Handlers
pub mod Trimmed
use libappupdater.Manifest.{AutoManifest, new_manifest}
use libappupdater.Prelude.{
  ℕ, ◌+◌, ◌*◌, Bytes, Bool, true, false, not, ◌&&◌, ◌||◌, List, [], ◌∷◌, ◌++◌, Option, none, some,
  ltb, ◌==◌, str_eq, is_empty, codes, length, if◌then◌else◌,
}
use libappupdater.Prelude.Int.{ℤ, pos, negsuc, ◌+ℤ◌, eq_ℤ}

-- `ChannelStatus`
pub data ChannelStatus : Type 0 where
  channel_omitted channel_none channel_active channel_inactive : ChannelStatus

abbrev pub is_none : ChannelStatus → Bool
is_none channel_none = true
is_none _ = false

abbrev pub is_active : ChannelStatus → Bool
is_active channel_active = true
is_active _ = false

abbrev pub is_inactive : ChannelStatus → Bool
is_inactive channel_inactive = true
is_inactive _ = false

-- The counters of open elements, one for each element whose text is kept.
pub record Levels : Type 0 where
  pub title_level : ℤ
  pub link_level : ℤ
  pub description_level : ℤ
  pub release_notes_link_level : ℤ
  pub version_level : ℤ
  pub minimum_system_version_level : ℤ
  pub critical_update_level : ℤ
  pub installer_arguments_level : ℤ
  pub published_level : ℤ
  pub pub_date_level : ℤ

abbrev pub no_levels : Levels
no_levels = record {
  title_level = pos 0;
  link_level = pos 0;
  description_level = pos 0;
  release_notes_link_level = pos 0;
  version_level = pos 0;
  minimum_system_version_level = pos 0;
  critical_update_level = pos 0;
  installer_arguments_level = pos 0;
  published_level = pos 0;
  pub_date_level = pos 0;
}

-- `ParserContext`. `manifests` has the newest first; `has_manifest` says that `manifest` is not
-- NULL, and it then points to the newest. `failed` is `XML_StopParser(parser, XML_FALSE)` and
-- `completed` is `XML_StopParser(parser, XML_TRUE)`.
pub record ParserContext : Type 0 where
  pub required_channel : Bytes
  pub error : Bytes
  pub failed : Bool
  pub completed : Bool
  pub warnings : List Bytes
  pub channel_status : ChannelStatus
  pub channel_name : Bytes
  pub in_item : Bool
  pub in_tags : Bool
  pub levels : Levels
  pub manifests : List AutoManifest
  pub has_manifest : Bool

abbrev pub new_context : Bytes → ParserContext
new_context required = record {
  required_channel = required;
  error = [];
  failed = false;
  completed = false;
  warnings = [];
  channel_status = channel_none;
  channel_name = [];
  in_item = false;
  in_tags = false;
  levels = no_levels;
  manifests = [];
  has_manifest = false;
}

-- What follows a prefix, or the whole text.
unfoldable pub strip_prefix : Bytes → Bytes → Option Bytes
strip_prefix [] s = some s
strip_prefix (p ∷ ps) [] = none
strip_prefix (p ∷ ps) (c ∷ s) = if p == c then strip_prefix ps s else none

-- `PrefixFieldMatch`
unfoldable pub prefix_field_match : Bytes → Bytes → Bool
unfolding strip_prefix str_eq
prefix_field_match field required = elim (strip_prefix (codes "updater:") field) [
  | some rest ↦ str_eq rest required
  | none ↦ elim (strip_prefix (codes "sparkle:") field) [
    | some rest ↦ str_eq rest required
    | none ↦ str_eq field required
  ]
]

-- `EmptyOrRelease`
unfoldable pub empty_or_release : Bytes → Bool
unfolding str_eq
empty_or_release channel = is_empty channel || str_eq channel (codes "release")

-- `ChannelMatch`
unfoldable pub channel_match : ParserContext → Bytes → Bool
unfolding empty_or_release str_eq
channel_match ctx channel =
    str_eq channel ctx.required_channel
    || empty_or_release channel && empty_or_release ctx.required_channel

-- `ParserError`
abbrev pub parser_error : Bytes → ParserContext → ParserContext
parser_error msg ctx = record ctx { error = msg; failed = true }

-- `ParserWarning`
abbrev pub parser_warning : Bytes → ParserContext → ParserContext
parser_warning msg ctx = record ctx { warnings = ctx.warnings ++ msg ∷ [] }

-- `ParserComplete`
abbrev pub parser_complete : ParserContext → ParserContext
parser_complete ctx = record ctx { completed = true }

abbrev pub edit_newest : (AutoManifest → AutoManifest) → List AutoManifest → List AutoManifest
edit_newest f [] = []
edit_newest f (m ∷ ms) = f m ∷ ms

-- A write through the pointer `manifest`, if it is not NULL.
abbrev pub edit : (AutoManifest → AutoManifest) → ParserContext → ParserContext
edit f ctx =
    if ctx.has_manifest then record ctx { manifests = edit_newest f ctx.manifests } else ctx

-- `manifests.push_back(AutoManifest())`, with the build label of the channel.
abbrev pub push_manifest : Bytes → ParserContext → ParserContext
push_manifest label ctx = record ctx {
  manifests = record new_manifest { build_label = label } ∷ ctx.manifests;
  has_manifest = true;
  in_item = true;
}

abbrev pub Attrs : Type 0
Attrs = List (Bytes × Bytes)

-- A loop `for (i = 0; attrs[i]; i += 2)` to the first attribute with that name.
unfoldable pub find_attr : Bytes → Attrs → Option Bytes
unfolding str_eq
find_attr name [] = none
find_attr name ((var, value) ∷ rest) = if str_eq var name then some value else find_attr name rest

-- `attrs[i + i]` is not NULL, for the pair `k` of `n`, so that `i` is `2 * k`: the array has `2 *
-- n` texts and a NULL, and what lies beyond it is `beyond`.
abbrev pub seen : (ℕ → Bool) → ℕ → ℕ → Bool
seen beyond n k = if ltb (2 * k) n then true else if 2 * k == n then false else beyond (4 * k)

-- A loop `for (i = 0; attrs[i] && attrs[i + i]; i += 2)` from the pair `k` of `n` on, to the first
-- attribute that passes the test.
unfoldable pub find_seen : (ℕ → Bool) → ℕ → ℕ → (Bytes → Bool) → Attrs → Option Bytes
find_seen beyond n k test [] = none
find_seen beyond n k test ((var, value) ∷ rest) =
    if not (seen beyond n k)
    then none
    else if test var
    then some value
    else find_seen beyond n (k + 1) test rest

abbrev pub is_blank : ℕ → Bool
is_blank c = c == b' ' || c == 9 || c == 10

-- `ltrim` and `rtrim` with the blanks `ws`.
unfoldable pub ltrim : Bytes → Bytes
ltrim [] = []
ltrim (c ∷ s) = if is_blank c then ltrim s else c ∷ s

unfoldable pub rtrim : Bytes → Bytes
rtrim [] = []
rtrim (c ∷ s) = let rest = rtrim s in if is_empty rest && is_blank c then [] else c ∷ rest

-- `trim`
abbrev pub trim : Bytes → Bytes
trim s = ltrim (rtrim s)

abbrev pub is_one : ℤ → Bool
is_one level = eq_ℤ level (pos 1)

abbrev pub is_zero : ℤ → Bool
is_zero level = eq_ℤ level (pos 0)

abbrev pub up : ℤ → ℤ
up level = level +ℤ pos 1

abbrev pub down : ℤ → ℤ
down level = level +ℤ negsuc 0
