-- ===== src/Tests/Manifests.antt =====
-- The parser and the selection of an item: src/AutoManifest.cpp.
use libappupdater.Manifest.{AutoManifest, new_manifest}
use libappupdater.Manifest.Parser.{
  trim, ParserContext, new_context, no_levels, edit_newest, find_seen,
}
use libappupdater.Manifest.Parser.Handlers.{Event, start_element, end_element, text, run}
use libappupdater.Manifest.Parser.Handlers.Channel.{
  ignoring, is_end_of_channel, run-ignoring, find_seen-two,
}
use libappupdater.Manifest.Parser.Handlers.Items.{IsPointer, run-IsPointer, run-keeps}
use libappupdater.Manifest.Parser.Handlers.Text.{in_item_of, trim_link, run-element}
use libappupdater.Manifest.Parser.Tags.{kept, title, edit_text, tag_of}
use libappupdater.Manifest.Parser.Trimmed.{IsTrimmed}
use libappupdater.Manifest.Selection.{System, best_match}
use libappupdater.Manifest.Selection.Best.{IsFirstBest, chosen, best_match-IsFirstBest}
use libappupdater.Prelude.{
  joined, ℕ, Bytes, Bool, true, false, List, [], ◌∷◌, ◌++◌, some, none, map, ◌≡◌, refl, codes,
  str_eq, if◌then◌else◌,
}
use libappupdater.Prelude.Int.{ℤ}

abbrev windows : System
windows = record { is_x64 = true; get_version = some (10, 0); rtl_get_version = some (10, 0) }

abbrev generic : AutoManifest
generic = record new_manifest {
  title = codes "all";
  os_label = codes "windows";
  minimum_system_version = codes "6.1";
}

abbrev specific : AutoManifest
specific = record new_manifest { title = codes "x64"; os_label = codes "windows-x64" }

best_match-IsFirstBest_example :
    (n : AutoManifest) × IsFirstBest windows (generic ∷ specific ∷ []) n
    × (best_match windows (generic ∷ specific ∷ []) ≡ chosen windows n)
best_match-IsFirstBest_example = best_match-IsFirstBest windows generic (specific ∷ [])

abbrev no_date : ℤ → Bytes
no_date _ = codes "Sat 20 Dec 2014"

abbrev nothing_behind : ℕ → Bool
nothing_behind _ = false

title_tag : tag_of (codes "title") ≡ kept title
unfolding tag_of str_eq
title_tag = refl

run-element_example :
    (run no_date nothing_behind
        (start_element (codes "title") []
          ∷ (map text (codes " a" ∷ codes "b" ∷ []) ++ end_element (codes "title") ∷ []))
        (in_item_of (new_context []) no_levels (new_manifest ∷ []))
      ≡ in_item_of (new_context []) no_levels (
          edit_newest
            (λ m.
              trim_link title
                (edit_text title (λ t. trim (t ++ joined (codes " a" ∷ codes "b" ∷ []))) m))
            (new_manifest ∷ [])))
    × ((s : Bytes) → IsTrimmed s (trim s))
run-element_example =
    run-element no_date nothing_behind title (codes "title") (codes " a" ∷ codes "b" ∷ [])
      (new_context []) (new_manifest ∷ []) refl title_tag

abbrev feed : List Event
feed =
    start_element (codes "channel") ((codes "name", codes "beta") ∷ [])
    ∷ start_element (codes "item") []
    ∷ start_element (codes "title") []
    ∷ text (codes "T ")
    ∷ []

run-IsPointer_example :
    IsPointer
      (run no_date nothing_behind feed (new_context (codes "beta"))).has_manifest
      (run no_date nothing_behind feed (new_context (codes "beta"))).in_item
      (run no_date nothing_behind feed (new_context (codes "beta"))).manifests
run-IsPointer_example = run-IsPointer no_date nothing_behind feed (codes "beta")

abbrev between : ParserContext
between = record (new_context (codes "beta")) { manifests = generic ∷ [] }

run-keeps_example :
    (newer : List AutoManifest) × ((run no_date nothing_behind feed between).manifests
      ≡ newer ++ generic ∷ [])
run-keeps_example = run-keeps no_date nothing_behind feed between refl

run-ignoring_example :
    (run no_date nothing_behind
      (start_element (codes "item") [] ∷ text (codes "x") ∷ [])
      (ignoring between)).manifests
    ≡ generic ∷ []
unfolding is_end_of_channel
run-ignoring_example =
    run-ignoring no_date nothing_behind (start_element (codes "item") [] ∷ text (codes "x") ∷ [])
      between (refl, (refl, tt))

find_seen-two_example :
    find_seen nothing_behind 2 0
      (λ var. str_eq var (codes "url"))
      ((codes "x", []) ∷ (codes "url", codes "u") ∷ [])
    ≡ (if str_eq (codes "x") (codes "url") then some [] else none)
find_seen-two_example =
    find_seen-two nothing_behind (λ var. str_eq var (codes "url")) (codes "x", [])
      (codes "url", codes "u")
