-- ===== src/Manifest/Parser/Handlers/Text.antt =====
-- How the text of an element is put together.
use libappupdater.Manifest.{AutoManifest}
use libappupdater.Manifest.Parser.{ParserContext, Levels, no_levels, edit_newest, find_seen, trim}
use libappupdater.Manifest.Parser.Trimmed.{IsTrimmed, trim-IsTrimmed}
use libappupdater.Manifest.Parser.Tags.{
  Field, kept, title, link, description, release_notes_link, version, minimum_system_version,
  critical_update, installer_arguments, published, pub_date, tag_of, edit_level, edit_text,
}
use libappupdater.Manifest.Parser.Handlers.{
  Event, start_element, end_element, text, on_start_element, start_tag, start_in_item,
  field_attributes, on_end_element, end_tag, end_in_item, on_text, text_of, handle, run, finish,
}
use libappupdater.Prelude.{
  joined, ℕ, Bytes, Bool, true, false, List, [], ◌∷◌, ◌++◌, map, ◌≡◌, refl, sym, ap, ◌∙◌, arith,
}
use mathlib.Core.List.{append_assoc, append-nil}
use libappupdater.Prelude.Int.{ℤ, pos}

-- The elements whose text is appended as it comes.
abbrev pub is_text : Field → Bool
is_text release_notes_link = false
is_text critical_update = false
is_text published = false
is_text _ = true

-- A context in an item, with those items and counters.
abbrev pub in_item_of : ParserContext → Levels → List AutoManifest → ParserContext
in_item_of ctx l ms = record ctx {
  failed = false;
  completed = false;
  in_item = true;
  in_tags = false;
  has_manifest = true;
  levels = l;
  manifests = ms;
}

edit_text-edit_text :
    (f : Field) (g h : Bytes → Bytes) (m : AutoManifest)
    → edit_text f g (edit_text f h m) ≡ edit_text f (λ t. g (h t)) m
edit_text-edit_text title g h m = refl
edit_text-edit_text link g h m = refl
edit_text-edit_text description g h m = refl
edit_text-edit_text release_notes_link g h m = refl
edit_text-edit_text version g h m = refl
edit_text-edit_text minimum_system_version g h m = refl
edit_text-edit_text critical_update g h m = refl
edit_text-edit_text installer_arguments g h m = refl
edit_text-edit_text published g h m = refl
edit_text-edit_text pub_date g h m = refl

edit_text-id : (f : Field) (m : AutoManifest) → edit_text f (λ t. t) m ≡ m
edit_text-id title m = refl
edit_text-id link m = refl
edit_text-id description m = refl
edit_text-id release_notes_link m = refl
edit_text-id version m = refl
edit_text-id minimum_system_version m = refl
edit_text-id critical_update m = refl
edit_text-id installer_arguments m = refl
edit_text-id published m = refl
edit_text-id pub_date m = refl

abbrev append_text : Field → Bytes → List AutoManifest → List AutoManifest
append_text f s ms = edit_newest (edit_text f (λ t. t ++ s)) ms

append_text-nil : (f : Field) (ms : List AutoManifest) → append_text f [] ms ≡ ms
append_text-nil f [] = refl
append_text-nil f (m ∷ ms) =
    ap (λ g. edit_text f g m ∷ ms) (λ i t. append-nil t i) ∙ ap (λ x. x ∷ ms) (edit_text-id f m)

append_text-append_text :
    (f : Field) (s u : Bytes) (ms : List AutoManifest)
    → append_text f u (append_text f s ms) ≡ append_text f (s ++ u) ms
append_text-append_text f s u [] = refl
append_text-append_text f s u (m ∷ ms) =
    ap (λ x. x ∷ ms) (edit_text-edit_text f (λ t. t ++ u) (λ t. t ++ s) m)
    ∙ ap (λ g. edit_text f g m ∷ ms) (λ i t. append_assoc t s u i)

-- The end of a description trims the link of the release notes.
abbrev pub trim_link : Field → AutoManifest → AutoManifest
trim_link description m = record m { release_notes_link = trim m.release_notes_link }
trim_link _ m = m

finish-edit_text :
    (f : Field) (g : Bytes → Bytes) (m : AutoManifest)
    → finish f (edit_text f g m) ≡ trim_link f (edit_text f (λ t. trim (g t)) m)
finish-edit_text title g m = refl
finish-edit_text link g m = refl
finish-edit_text description g m = refl
finish-edit_text release_notes_link g m = refl
finish-edit_text version g m = refl
finish-edit_text minimum_system_version g m = refl
finish-edit_text critical_update g m = refl
finish-edit_text installer_arguments g m = refl
finish-edit_text published g m = refl
finish-edit_text pub_date g m = refl

finish-newest :
    (f : Field) (g : Bytes → Bytes) (ms : List AutoManifest)
    → edit_newest (finish f) (edit_newest (edit_text f g) ms)
      ≡ edit_newest (λ m. trim_link f (edit_text f (λ t. trim (g t)) m)) ms
finish-newest f g [] = refl
finish-newest f g (m ∷ ms) = ap (λ x. x ∷ ms) (finish-edit_text f g m)

module _ (pub_date_of : ℤ → Bytes) (beyond : ℕ → Bool) where
  handle-text :
      (f : Field) (s : Bytes) (ctx : ParserContext) (ms : List AutoManifest)
      → is_text f ≡ true
      → handle pub_date_of beyond (text s) (in_item_of ctx (edit_level f (λ _. pos 1) no_levels) ms)
        ≡ in_item_of ctx (edit_level f (λ _. pos 1) no_levels) (append_text f s ms)
  unfolding handle on_text text_of
  handle-text f s ctx ms h = ground (arith, h)

  run-texts :
      (f : Field) (pieces : List Bytes) (rest : List Event) (ctx : ParserContext)
      (ms : List AutoManifest)
      → is_text f ≡ true
      → run pub_date_of beyond
          (map text pieces ++ rest)
          (in_item_of ctx (edit_level f (λ _. pos 1) no_levels) ms)
        ≡ run pub_date_of beyond rest (
            in_item_of ctx (edit_level f (λ _. pos 1) no_levels) (append_text f (joined pieces) ms))
  unfolding run
  run-texts f [] rest ctx ms h =
      ap (λ x. run pub_date_of beyond rest (in_item_of ctx (edit_level f (λ _. pos 1) no_levels) x))
        (sym (append_text-nil f ms))
  run-texts f (s ∷ pieces) rest ctx ms h =
      ap (run pub_date_of beyond (map text pieces ++ rest)) (handle-text f s ctx ms h)
      ∙ run-texts f pieces rest ctx (append_text f s ms) h
      ∙ ap
          (λ x.
            run pub_date_of beyond rest (in_item_of ctx (edit_level f (λ _. pos 1) no_levels) x))
          (append_text-append_text f s (joined pieces) ms)

  start-field :
      (f : Field) (ctx : ParserContext) (ms : List AutoManifest)
      → is_text f ≡ true
      → start_tag beyond (kept f) [] (in_item_of ctx no_levels ms)
        ≡ in_item_of ctx (edit_level f (λ _. pos 1) no_levels) ms
  unfolding start_tag start_in_item field_attributes find_seen
  start-field f ctx ms h = ground (arith, h)

  end-field :
      (f : Field) (ctx : ParserContext) (ms : List AutoManifest)
      → is_text f ≡ true
      → end_tag (kept f) (in_item_of ctx (edit_level f (λ _. pos 1) no_levels) ms)
        ≡ in_item_of ctx no_levels (edit_newest (finish f) ms)
  unfolding end_tag end_in_item
  end-field f ctx ms h = ground (arith, h)

  start-text :
      (f : Field) (name : Bytes) (ctx : ParserContext) (ms : List AutoManifest)
      → is_text f ≡ true
      → tag_of name ≡ kept f
      → handle pub_date_of beyond (start_element name []) (in_item_of ctx no_levels ms)
        ≡ in_item_of ctx (edit_level f (λ _. pos 1) no_levels) ms
  unfolding handle on_start_element
  start-text f name ctx ms h k = rw k (start-field f ctx ms h)

  end-text :
      (f : Field) (name : Bytes) (ctx : ParserContext) (ms : List AutoManifest)
      → is_text f ≡ true
      → tag_of name ≡ kept f
      → handle pub_date_of beyond
          (end_element name)
          (in_item_of ctx (edit_level f (λ _. pos 1) no_levels) ms)
        ≡ in_item_of ctx no_levels (edit_newest (finish f) ms)
  unfolding handle on_end_element
  end-text f name ctx ms h k = rw k (end-field f ctx ms h)

  pub run-finish :
      (f : Field) (name : Bytes) (pieces : List Bytes) (ctx : ParserContext)
      (ms : List AutoManifest)
      → is_text f ≡ true
      → tag_of name ≡ kept f
      → run pub_date_of beyond
          (start_element name [] ∷ (map text pieces ++ end_element name ∷ []))
          (in_item_of ctx no_levels ms)
        ≡ in_item_of ctx no_levels
            (edit_newest (finish f) (edit_newest (edit_text f (λ t. t ++ joined pieces)) ms))
  unfolding run
  run-finish f name pieces ctx ms h k =
      ap (run pub_date_of beyond (map text pieces ++ end_element name ∷ []))
        (start-text f name ctx ms h k)
      ∙ run-texts f pieces (end_element name ∷ []) ctx ms h
      ∙ end-text f name ctx (append_text f (joined pieces) ms) h k

  -- An element without attributes in an item, none other open and its text one that is only
  -- appended to, delivered in any pieces: its start and its end leave the item with the text
  -- appended to what the element had before and the whole trimmed, the end of a description with the
  -- link of the release notes trimmed too, and the rest of the context as it was. A trimmed text is
  -- the text without blanks, tabs and line feeds at its two ends, and otherwise whole.
  pub run-element :
      (f : Field) (name : Bytes) (pieces : List Bytes) (ctx : ParserContext)
      (ms : List AutoManifest)
      → is_text f ≡ true
      → tag_of name ≡ kept f
      → (run pub_date_of beyond
            (start_element name [] ∷ (map text pieces ++ end_element name ∷ []))
            (in_item_of ctx no_levels ms)
          ≡ in_item_of ctx no_levels
              (edit_newest (λ m. trim_link f (edit_text f (λ t. trim (t ++ joined pieces)) m)) ms))
        × ((s : Bytes) → IsTrimmed s (trim s))
  run-element f name pieces ctx ms h k = (
    run-finish f name pieces ctx ms h k
        ∙ ap (in_item_of ctx no_levels) (finish-newest f (λ t. t ++ joined pieces) ms),
    trim-IsTrimmed,
  )
