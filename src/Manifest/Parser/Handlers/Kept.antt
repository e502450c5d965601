-- ===== src/Manifest/Parser/Handlers/Kept.antt =====
-- What the handlers do to the list of items: an interface for invariants of this list, the pointer
-- to its newest item and the flag for an open item.
use libappupdater.Manifest.{AutoManifest, new_manifest}
use libappupdater.Manifest.Parser.{
  Attrs, ParserContext, channel_match, find_seen, edit, edit_newest, parser_error, parser_complete,
  is_none, is_active, is_inactive, is_one, is_zero, prefix_field_match,
}
use libappupdater.Manifest.Parser.Tags.{
  Tag, Field, channel, item, tags, enclosure, other, kept, title, description, release_notes_link,
  critical_update, published, tag_of, level_of, edit_text, enclosure_attribute,
  enclosure_attributes, enclosure_field, Attribute, attribute_of, set_attribute, is_redefined,
  redefined_message, at_newest,
}
use libappupdater.Manifest.Parser.Handlers.{
  start_other, Event, start_element, end_element, text, channel_name_of, start_channel, start_item,
  field_attributes, start_in_item, start_tag, on_start_element, end_in_item, end_outside,
  end_in_tags, end_tag, on_end_element, text_of, publish, has_link, on_text, open_field, handle,
  run, finish,
}
use libappupdater.Prelude.{
  ℕ, Bytes, Bool, true, false, ◌&&◌, ◌++◌, List, [], ◌∷◌, Option, none, some, ◌≡◌, refl, str_eq,
  codes, length, if◌then◌else◌, inl, inr, Bool-cases,
}
use libappupdater.Prelude.Int.{ℤ}

-- A property of `has_manifest`, `in_item` and `manifests` that the three changes of these keep.
pub record IsKept (P : Bool → Bool → List AutoManifest → Type 0) : Type 0 where
  pub edited :
      (f : AutoManifest → AutoManifest) (i : Bool) (ms : List AutoManifest)
      → P true i ms
      → P true i (edit_newest f ms)
  pub pushed :
      (m : AutoManifest) (h : Bool) (ms : List AutoManifest) → P h false ms → P true true (m ∷ ms)
  pub closed : (h : Bool) (ms : List AutoManifest) → P h true ms → P false false ms

module _ (P : Bool → Bool → List AutoManifest → Type 0) (keep : IsKept P) where
  open keep use {edited, pushed, closed}

  pub record Holds (ctx : ParserContext) : Type 0 where
    pub holds : P ctx.has_manifest ctx.in_item ctx.manifests

  Holds-if : (b : Bool) (x y : ParserContext) → Holds x → Holds y → Holds (if b then x else y)
  Holds-if true x y h k = h
  Holds-if false x y h k = k

  Holds-cond :
      (b : Bool) (x y : ParserContext) → (b ≡ true → Holds x) → Holds y → Holds (if b then x else y)
  Holds-cond true x y h k = h refl
  Holds-cond false x y h k = k

  Holds-unless :
      (b : Bool) (x y : ParserContext)
      → Holds x
      → (b ≡ false → Holds y)
      → Holds (if b then x else y)
  Holds-unless true x y h k = h
  Holds-unless false x y h k = k refl

  Holds-edit :
      (f : AutoManifest → AutoManifest) (ctx : ParserContext) → Holds ctx → Holds (edit f ctx)
  Holds-edit f ctx h = elim (Bool-cases ctx.has_manifest) [
    | inl e ↦ record { holds = rw e (edited f ctx.in_item ctx.manifests (rw e at h.holds)) }
    | inr e ↦ record { holds = rw e (rw e at h.holds) }
  ]

  enclosure_field-Holds :
      (a : Option Attribute) (value : Bytes) (m : AutoManifest) (ctx : ParserContext)
      → Holds ctx
      → Holds (enclosure_field a value m ctx)
  unfolding enclosure_field
  enclosure_field-Holds none value m ctx h = h
  enclosure_field-Holds (some a) value m ctx h =
      Holds-if (is_redefined a value m) (parser_error (redefined_message a) ctx)
        (edit (set_attribute a value) ctx) (record { holds = h.holds })
        (Holds-edit (set_attribute a value) ctx h)

  at_newest-Holds :
      (f : AutoManifest → ParserContext → ParserContext) (ctx : ParserContext)
      → ((m : AutoManifest) → Holds (f m ctx))
      → Holds ctx
      → Holds (at_newest f ctx)
  at_newest-Holds f ctx k h =
      elim ctx.manifests as (λ ms. Holds (elim ms [ [] ↦ ctx | m ∷ _ ↦ f m ctx ])) [
        | [] ↦ h
        | m ∷ _ ↦ k m
      ]

  enclosure_attributes-Holds :
      (attrs : Attrs) (ctx : ParserContext) → Holds ctx → Holds (enclosure_attributes attrs ctx)
  unfolding enclosure_attributes enclosure_attribute enclosure_field
  enclosure_attributes-Holds [] ctx h = h
  enclosure_attributes-Holds ((var, value) ∷ rest) ctx h =
      enclosure_attributes-Holds rest (at_newest (enclosure_attribute var value) ctx) (
        at_newest-Holds (enclosure_attribute var value) ctx
          (λ m. enclosure_field-Holds (attribute_of var) value m ctx h) h)

  start_channel-Holds :
      (attrs : Attrs) (ctx : ParserContext) → Holds ctx → Holds (start_channel attrs ctx)
  unfolding start_channel
  start_channel-Holds attrs ctx h =
      Holds-if (channel_match ctx (channel_name_of attrs)) _ _ (record { holds = h.holds })
        (record { holds = h.holds })

  start_item-Holds : (ctx : ParserContext) → Holds ctx → Holds (start_item ctx)
  unfolding start_item
  start_item-Holds ctx h =
      Holds-unless ctx.in_item _ _ (record { holds = h.holds })
        (λ e.
          let new = λ (l : Bytes).
            pushed (record new_manifest { build_label = l }) ctx.has_manifest ctx.manifests
              (rw e at h.holds) in
          Holds-if (is_none ctx.channel_status) _ _ (record { holds = new [] })
            (Holds-if (is_inactive ctx.channel_status) _ _ h
              (record { holds = new ctx.channel_name })))

  -- A change that an attribute makes, or another if there is none.
  Holds-found :
      (o : Option Bytes) (x : ParserContext) (f : Bytes → AutoManifest → AutoManifest)
      (ctx : ParserContext)
      → Holds x
      → Holds ctx
      → Holds (elim o [ none ↦ x | some value ↦ edit (f value) ctx ])
  Holds-found none x f ctx h k = h
  Holds-found (some value) x f ctx h k = Holds-edit (f value) ctx k

  field_attributes-Holds :
      (beyond : ℕ → Bool) (f : Field) (attrs : Attrs) (ctx : ParserContext)
      → Holds ctx
      → Holds (field_attributes beyond f attrs ctx)
  unfolding field_attributes
  field_attributes-Holds beyond description attrs ctx h =
      Holds-if (is_zero ctx.levels.description_level) _ ctx
        (Holds-found (find_seen beyond (length attrs) 0 (λ var. str_eq var (codes "url")) attrs) ctx
          (λ value m. record m { release_notes_link = value }) ctx h h)
        h
  field_attributes-Holds beyond critical_update attrs ctx h =
      Holds-if (is_zero ctx.levels.critical_update_level) _ ctx
        (Holds-found
          (find_seen beyond (length attrs) 0 (λ var. prefix_field_match var (codes "version"))
            attrs)
          (edit (λ m. record m { critical_update = codes "*" }) ctx)
          (λ value m. record m { critical_update = value }) ctx
          (Holds-edit (λ m. record m { critical_update = codes "*" }) ctx h) h)
        h
  field_attributes-Holds beyond _ attrs ctx h = h

  start_in_item-Holds :
      (beyond : ℕ → Bool) (tag : Tag) (attrs : Attrs) (ctx : ParserContext)
      → Holds ctx
      → Holds (start_in_item beyond tag attrs ctx)
  unfolding start_in_item
  start_in_item-Holds beyond (kept f) attrs ctx h =
      let k = field_attributes-Holds beyond f attrs ctx h in record { holds = k.holds }
  start_in_item-Holds beyond tags attrs ctx h =
      Holds-if ctx.in_tags _ _ (record { holds = h.holds }) (record { holds = h.holds })
  start_in_item-Holds beyond enclosure attrs ctx h =
      Holds-if ctx.has_manifest _ _ (enclosure_attributes-Holds attrs ctx h) h
  start_in_item-Holds beyond _ attrs ctx h = h

  start_other-Holds :
      (beyond : ℕ → Bool) (tag : Tag) (attrs : Attrs) (ctx : ParserContext)
      → Holds ctx
      → Holds (start_other beyond tag attrs ctx)
  start_other-Holds beyond tag attrs ctx h =
      Holds-if ctx.in_tags _ _ h
        (Holds-if ctx.in_item _ _ (start_in_item-Holds beyond tag attrs ctx h) h)

  start_tag-Holds :
      (beyond : ℕ → Bool) (tag : Tag) (attrs : Attrs) (ctx : ParserContext)
      → Holds ctx
      → Holds (start_tag beyond tag attrs ctx)
  unfolding start_tag
  start_tag-Holds beyond channel attrs ctx h =
      Holds-if (is_none ctx.channel_status) _ _ (start_channel-Holds attrs ctx h) (
        Holds-if (is_active ctx.channel_status) _ _ (record { holds = h.holds })
          (Holds-if (is_inactive ctx.channel_status) _ _ (record { holds = h.holds })
            (record { holds = h.holds })))
  start_tag-Holds beyond item attrs ctx h = start_item-Holds ctx h
  start_tag-Holds beyond (kept f) attrs ctx h = start_other-Holds beyond (kept f) attrs ctx h
  start_tag-Holds beyond tags attrs ctx h = start_other-Holds beyond tags attrs ctx h
  start_tag-Holds beyond enclosure attrs ctx h = start_other-Holds beyond enclosure attrs ctx h
  start_tag-Holds beyond other attrs ctx h = start_other-Holds beyond other attrs ctx h

  end_in_item-Holds :
      (tag : Tag) (ctx : ParserContext)
      → ctx.in_item ≡ true
      → Holds ctx
      → Holds (end_in_item tag ctx)
  unfolding end_in_item
  end_in_item-Holds (kept f) ctx e h =
      let k = Holds-if (is_one (level_of f ctx.levels)) _ ctx (Holds-edit (finish f) ctx h) h in
      record { holds = k.holds }
  end_in_item-Holds item ctx e h = record {
    holds = closed ctx.has_manifest ctx.manifests (rw e at h.holds);
  }
  end_in_item-Holds _ ctx e h = h

  end_outside-Holds : (tag : Tag) (ctx : ParserContext) → Holds ctx → Holds (end_outside tag ctx)
  unfolding end_outside
  end_outside-Holds channel ctx h =
      let k =
        Holds-if (is_active ctx.channel_status) (parser_complete ctx) ctx
          (record { holds = h.holds }) h in
      record { holds = k.holds }
  end_outside-Holds _ ctx h = h

  end_in_tags-Holds : (tag : Tag) (ctx : ParserContext) → Holds ctx → Holds (end_in_tags tag ctx)
  unfolding end_in_tags
  end_in_tags-Holds tags ctx h = record { holds = h.holds }
  end_in_tags-Holds _ ctx h = h

  end_tag-Holds : (tag : Tag) (ctx : ParserContext) → Holds ctx → Holds (end_tag tag ctx)
  unfolding end_tag
  end_tag-Holds tag ctx h = Holds-if ctx.in_tags _ _ (end_in_tags-Holds tag ctx h) (
      Holds-cond ctx.in_item _ _ (λ e. end_in_item-Holds tag ctx e h) (end_outside-Holds tag ctx h))

  text_of-Holds :
      (pub_date_of : ℤ → Bytes) (f : Field) (s : Bytes) (ctx : ParserContext)
      → Holds ctx
      → Holds (text_of pub_date_of f s ctx)
  unfolding text_of
  text_of-Holds pub_date_of published s ctx h = Holds-edit (publish pub_date_of s) ctx h
  text_of-Holds pub_date_of release_notes_link s ctx h =
      Holds-edit (edit_text release_notes_link (λ t. t ++ s)) _
        (Holds-if (has_link ctx) _ ctx (record { holds = h.holds }) h)
  text_of-Holds pub_date_of title s ctx h = Holds-edit (edit_text title (λ t. t ++ s)) ctx h
  text_of-Holds pub_date_of f s ctx h = Holds-edit (edit_text f (λ t. t ++ s)) ctx h

  Holds-open :
      (pub_date_of : ℤ → Bytes) (s : Bytes) (o : Option Field) (ctx : ParserContext)
      → Holds ctx
      → Holds (elim o [ none ↦ ctx | some f ↦ text_of pub_date_of f s ctx ])
  Holds-open pub_date_of s none ctx h = h
  Holds-open pub_date_of s (some f) ctx h = text_of-Holds pub_date_of f s ctx h

  on_text-Holds :
      (pub_date_of : ℤ → Bytes) (s : Bytes) (ctx : ParserContext)
      → Holds ctx
      → Holds (on_text pub_date_of s ctx)
  unfolding on_text
  on_text-Holds pub_date_of s ctx h = Holds-if ctx.in_tags ctx _ h (
      Holds-if (ctx.in_item && ctx.has_manifest) _ ctx
        (Holds-open pub_date_of s (open_field ctx) ctx h) h)

  module _ (pub_date_of : ℤ → Bytes) (beyond : ℕ → Bool) where
    handle-Holds :
        (e : Event) (ctx : ParserContext) → Holds ctx → Holds (handle pub_date_of beyond e ctx)
    unfolding handle on_start_element on_end_element
    handle-Holds (start_element name attrs) ctx h = start_tag-Holds beyond (tag_of name) attrs ctx h
    handle-Holds (end_element name) ctx h = end_tag-Holds (tag_of name) ctx h
    handle-Holds (text s) ctx h = on_text-Holds pub_date_of s ctx h

    -- A property that the three changes keep is kept by a run of the handlers.
    pub run-Holds :
        (es : List Event) (ctx : ParserContext) → Holds ctx → Holds (run pub_date_of beyond es ctx)
    unfolding run
    run-Holds [] ctx h = h
    run-Holds (e ∷ es) ctx h = Holds-if ctx.failed ctx _ h (
        Holds-if ctx.completed ctx _ h
          (run-Holds es (handle pub_date_of beyond e ctx) (handle-Holds e ctx h)))
