-- ===== src/Sign/Reading.antt =====
-- sign/signmanifest.cpp and src/AutoManifest.cpp: the handlers on the calls for a printed item.
use libappupdater.Manifest.{AutoManifest}
use libappupdater.Manifest.Parser.{ParserContext, no_levels}
use libappupdater.Manifest.Parser.Tags.{
  Field, kept, title, link, description, pub_date, published, tag_of, edit_level, edit_text,
  attribute_of, enclosure_attributes,
}
use libappupdater.Manifest.Parser.Handlers.{
  Event, start_element, end_element, text, on_start_element, start_tag, start_in_item,
  field_attributes, on_end_element, end_tag, end_in_item, on_text, text_of, publish, handle, run,
  finish,
}
use libappupdater.Manifest.Parser.Handlers.Text.{in_item_of, is_text, run-finish}
use libappupdater.Prelude.{
  ℕ, Bytes, Bool, true, List, [], ◌∷◌, ◌++◌, map, joined, All, ◌≡◌, refl, ap, ◌∙◌, arith, codes,
  is_empty, str_eq,
}
use mathlib.Core.List.{append-nil}
use libappupdater.Prelude.Int.{ℤ, pos}
use libappupdater.CLib.{print_unsigned}
use libappupdater.Sign.{Enclosure, enclosure_of}
use libappupdater.Sign.Markup.{
  Node, empty_element, blank, calls, all_calls, all_calls-append, head_nodes, item_nodes,
}

-- The item with the attributes of the enclosure.
abbrev pub with_enclosure : Enclosure → AutoManifest → AutoManifest
with_enclosure e m = record m {
  os_label = codes "windows";
  attribute_url = e.url;
  attribute_name = e.name;
  attribute_version = e.version;
  attribute_length = print_unsigned e.size;
  attribute_type = codes "application/octet-stream";
  attribute_sha_signature = e.sha;
  attribute_md5_signature = e.md5;
  attribute_ed_signature = e.dsa;
  attribute_ed_key_version = codes "1." ++ print_unsigned e.keyversion;
}

module _ (pub_date_of : ℤ → Bytes) (beyond : ℕ → Bool) where
  run-append :
      (es fs : List Event) (ctx : ParserContext)
      → run pub_date_of beyond (es ++ fs) ctx
        ≡ run pub_date_of beyond fs (run pub_date_of beyond es ctx)
  unfolding run
  run-append [] fs ctx = refl
  run-append (e ∷ es) [] ctx = ground (arith, run-append es [] (handle pub_date_of beyond e ctx))
  run-append (e ∷ es) (f ∷ fs) ctx =
      ground (arith, run-append es (f ∷ fs) (handle pub_date_of beyond e ctx))

  module _ (ctx : ParserContext) (ms : List AutoManifest) where
    -- The calls leave an item open, no element in it, and the label of the operating system alone.
    abbrev Harmless : List Event → Type 0
    Harmless es =
        (m : AutoManifest)
        → (m' : AutoManifest) × (m'.os_label ≡ m.os_label)
          × (run pub_date_of beyond es (in_item_of ctx no_levels (m ∷ ms))
              ≡ in_item_of ctx no_levels (m' ∷ ms))

    Harmless-append : (es fs : List Event) → Harmless es → Harmless fs → Harmless (es ++ fs)
    Harmless-append es fs h k m =
        let (m', label, e) = h m in
        let (m'', label', e') = k m' in
        (
          m'',
          label' ∙ label,
          run-append es fs (in_item_of ctx no_levels (m ∷ ms))
              ∙ ap (run pub_date_of beyond fs) e
              ∙ e',
        )

    run-blank :
        (pieces : List Bytes) (m : AutoManifest)
        → run pub_date_of beyond (map text pieces) (in_item_of ctx no_levels (m ∷ ms))
          ≡ in_item_of ctx no_levels (m ∷ ms)
    unfolding run handle on_text
    run-blank [] m = refl
    run-blank (s ∷ ss) m = run-blank ss m

    Harmless-texts : (pieces : List Bytes) → Harmless (map text pieces)
    Harmless-texts pieces m = (m, refl, run-blank pieces m)

    kept_label :
        (f : Field) (g : Bytes → Bytes) (m : AutoManifest)
        → AutoManifest.os_label (finish f (edit_text f g m)) ≡ m.os_label
    kept_label title g m = refl
    kept_label _ g m = refl

    Harmless-element :
        (f : Field) (name : Bytes) (pieces : List Bytes)
        → is_text f ≡ true
        → tag_of name ≡ kept f
        → Harmless (start_element name [] ∷ (map text pieces ++ end_element name ∷ []))
    Harmless-element f name pieces h k m = (
      finish f (edit_text f (λ t. t ++ joined pieces) m),
      kept_label f (λ t. t ++ joined pieces) m,
      run-finish pub_date_of beyond f name pieces ctx (m ∷ ms) h k,
    )

    in_published : AutoManifest → ParserContext
    in_published m = in_item_of ctx (edit_level published (λ _. pos 1) no_levels) (m ∷ ms)

    publish_label :
        (s : Bytes) (m : AutoManifest)
        → AutoManifest.os_label (publish pub_date_of s m) ≡ m.os_label
    unfolding publish
    publish_label s m = ground arith

    Harmless-seconds :
        (pieces : List Bytes) (m : AutoManifest)
        → (m' : AutoManifest) × (m'.os_label ≡ m.os_label)
          × (run pub_date_of beyond
                (map text pieces ++ end_element (codes "published") ∷ [])
                (in_published m)
              ≡ in_item_of ctx no_levels (m' ∷ ms))
    unfolding run handle on_text on_end_element text_of end_tag tag_of str_eq end_in_item
        in_published
    Harmless-seconds [] m = (finish published m, refl, refl)
    Harmless-seconds (s ∷ ss) m =
        let (m', label, e) = Harmless-seconds ss (publish pub_date_of s m) in
        (m', label ∙ publish_label s m, e)

    Harmless-published :
        (pieces : List Bytes)
        → Harmless (
            start_element (codes "published") []
            ∷ (map text pieces ++ end_element (codes "published") ∷ []))
    unfolding run handle on_start_element start_tag start_in_item field_attributes tag_of str_eq
        in_published
    Harmless-published pieces m = Harmless-seconds pieces m

    run-enclosure :
        (e : Enclosure) (m : AutoManifest)
        → m.os_label ≡ []
        → run pub_date_of beyond
            (start_element (codes "enclosure") (enclosure_of e)
              ∷ end_element (codes "enclosure")
              ∷ [])
            (in_item_of ctx no_levels (m ∷ ms))
          ≡ in_item_of ctx no_levels (with_enclosure e m ∷ ms)
    unfolding run handle on_start_element start_tag start_in_item on_end_element end_tag end_in_item
        tag_of str_eq enclosure_attributes attribute_of
    run-enclosure e m h = let fresh : is_empty m.os_label ≡ true = ap is_empty h in rw fresh

    Harmless-nodes :
        (pieces : Bytes → List Bytes) (ns : List Node)
        → All (λ n. Harmless (calls pieces n)) ns
        → Harmless (all_calls pieces ns)
    unfolding run
    Harmless-nodes pieces [] h = Harmless-texts []
    Harmless-nodes pieces (n ∷ ns) h =
        Harmless-append (calls pieces n) (all_calls pieces ns) h.0 (Harmless-nodes pieces ns h.1)

    Harmless-head :
        (pieces : Bytes → List Bytes) (now : ℕ) (date : Bytes)
        → All (λ n. Harmless (calls pieces n)) (head_nodes now date)
    unfolding tag_of str_eq
    Harmless-head pieces now date =
        let gap = Harmless-texts (pieces (codes "\n\t")) in
        (
          gap,
          (
            Harmless-element title (codes "title") (pieces []) refl refl,
            (
              gap,
              (
                Harmless-element link (codes "link") (pieces []) refl refl,
                (
                  gap,
                  (
                    Harmless-element description (codes "description") (pieces []) refl refl,
                    (
                      gap,
                      (
                        Harmless-published (pieces (print_unsigned now)),
                        (
                          gap,
                          (
                            Harmless-element pub_date (codes "pubDate") (pieces date) refl refl,
                            (gap, tt),
                          ),
                        ),
                      ),
                    ),
                  ),
                ),
              ),
            ),
          ),
        )

    -- The calls for an item, in whatever pieces its texts come, give the newest item the attributes
    -- of its enclosure.
    pub run-item_nodes :
        (pieces : Bytes → List Bytes) (now : ℕ) (date : Bytes) (e : Enclosure) (m : AutoManifest)
        → m.os_label ≡ []
        → (m' : AutoManifest) × (run pub_date_of beyond
              (all_calls pieces (item_nodes now date (enclosure_of e)))
              (in_item_of ctx no_levels (m ∷ ms))
            ≡ in_item_of ctx no_levels (with_enclosure e m' ∷ ms))
    run-item_nodes pieces now date e m h =
        let attrs = enclosure_of e in
        let head = head_nodes now date in
        let tail : List Node =
          empty_element (codes "enclosure") attrs ∷ blank (codes "\n\n") ∷ [] in
        let tag : List Event =
          start_element (codes "enclosure") attrs ∷ end_element (codes "enclosure") ∷ [] in
        let (m', label, head_run) = Harmless-nodes pieces head (Harmless-head pieces now date) m in
        let last = with_enclosure e m' in
        let gap : List Event = map text (pieces (codes "\n\n")) in
        (
          m',
          ap (λ es. run pub_date_of beyond es (in_item_of ctx no_levels (m ∷ ms)))
                (all_calls-append pieces head tail)
              ∙ run-append (all_calls pieces head) (all_calls pieces tail)
                  (in_item_of ctx no_levels (m ∷ ms))
              ∙ ap (run pub_date_of beyond (all_calls pieces tail)) head_run
              ∙ ap (λ es. run pub_date_of beyond (tag ++ es) (in_item_of ctx no_levels (m' ∷ ms)))
                  (append-nil gap)
              ∙ run-append tag gap (in_item_of ctx no_levels (m' ∷ ms))
              ∙ ap (run pub_date_of beyond gap) (run-enclosure e m' (label ∙ h))
              ∙ run-blank (pieces (codes "\n\n")) last,
        )
