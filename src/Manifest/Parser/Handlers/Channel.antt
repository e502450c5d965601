-- ===== src/Manifest/Parser/Handlers/Channel.antt =====
-- Channels that are not asked for, and the attributes that a description and a critical update
-- read.
use libappupdater.Manifest.{AutoManifest}
use libappupdater.Manifest.Parser.{ParserContext, channel_inactive, parser_error, find_seen}
use libappupdater.Manifest.Parser.Tags.{Tag, channel, item, tags, enclosure, other, kept, tag_of}
use libappupdater.Manifest.Parser.Handlers.{
  Event, start_element, end_element, text, on_start_element, start_tag, start_item, on_end_element,
  end_tag, end_outside, on_text, handle, run,
}
use libappupdater.Prelude.{
  ℕ, Bytes, Bool, true, false, List, [], ◌∷◌, none, some, ◌≡◌, refl, ap, ◌∙◌, arith, All,
  if◌then◌else◌, codes,
}
use libappupdater.Prelude.Int.{ℤ}

-- A context inside of a channel that is not asked for.
abbrev pub ignoring : ParserContext → ParserContext
ignoring ctx = record ctx { channel_status = channel_inactive; in_item = false; in_tags = false }

abbrev is_channel : Tag → Bool
is_channel channel = true
is_channel _ = false

unfoldable pub is_end_of_channel : Event → Bool
unfolding tag_of
is_end_of_channel (end_element name) = is_channel (tag_of name)
is_end_of_channel _ = false

-- Still inside of such a channel, with the same items.
abbrev Ignores : ParserContext → ParserContext → Type 0
Ignores ctx next = (c : ParserContext) × (next ≡ ignoring c) × (c.manifests ≡ ctx.manifests)

start_tag-Ignores :
    (beyond : ℕ → Bool) (tag : Tag) (attrs : List (Bytes × Bytes)) (ctx : ParserContext)
    → Ignores ctx (start_tag beyond tag attrs (ignoring ctx))
unfolding start_tag start_item
start_tag-Ignores beyond channel attrs ctx =
    (parser_error (codes "nested channel components") ctx, refl, refl)
start_tag-Ignores beyond item attrs ctx = (ctx, refl, refl)
start_tag-Ignores beyond tags attrs ctx = (ctx, refl, refl)
start_tag-Ignores beyond enclosure attrs ctx = (ctx, refl, refl)
start_tag-Ignores beyond other attrs ctx = (ctx, refl, refl)
start_tag-Ignores beyond (kept f) attrs ctx = (ctx, refl, refl)

end_tag-Ignores :
    (tag : Tag) (ctx : ParserContext)
    → is_channel tag ≡ false
    → Ignores ctx (end_tag tag (ignoring ctx))
unfolding end_tag end_outside
end_tag-Ignores channel ctx h = ground (arith, h)
end_tag-Ignores item ctx h = (ctx, refl, refl)
end_tag-Ignores tags ctx h = (ctx, refl, refl)
end_tag-Ignores enclosure ctx h = (ctx, refl, refl)
end_tag-Ignores other ctx h = (ctx, refl, refl)
end_tag-Ignores (kept f) ctx h = (ctx, refl, refl)

module _ (pub_date_of : ℤ → Bytes) (beyond : ℕ → Bool) where
  handle-Ignores :
      (e : Event) (ctx : ParserContext)
      → is_end_of_channel e ≡ false
      → Ignores ctx (handle pub_date_of beyond e (ignoring ctx))
  unfolding handle on_start_element on_end_element on_text is_end_of_channel
  handle-Ignores (start_element name attrs) ctx h = start_tag-Ignores beyond (tag_of name) attrs ctx
  handle-Ignores (end_element name) ctx h = end_tag-Ignores (tag_of name) ctx h
  handle-Ignores (text s) ctx h = (ctx, refl, refl)

  same_if :
      (a b : Bool) (x y : ParserContext) (ms : List AutoManifest)
      → x.manifests ≡ ms
      → y.manifests ≡ ms
      → (if a then x else if b then x else y).manifests ≡ ms
  same_if a b x y ms h k = ground (arith, h, k)

  -- Inside of a channel that is not asked for, calls other than that for the end of a channel add
  -- no items and change none.
  pub run-ignoring :
      (es : List Event) (ctx : ParserContext)
      → All (λ e. is_end_of_channel e ≡ false) es
      → (run pub_date_of beyond es (ignoring ctx)).manifests ≡ ctx.manifests
  unfolding run
  run-ignoring [] ctx h = refl
  run-ignoring (e ∷ es) ctx h =
      let (c, next, same) = handle-Ignores e ctx (h.0) in
      same_if ctx.failed ctx.completed (ignoring ctx)
        (run pub_date_of beyond es (handle pub_date_of beyond e (ignoring ctx))) ctx.manifests refl
        (ap (λ x. (run pub_date_of beyond es x).manifests) next ∙ run-ignoring es c (h.1) ∙ same)

-- Of two attributes only the first is looked at, whatever lies behind the list: the loop's
-- condition reads `attrs[i + i]` where the value is `attrs[i + 1]`.
pub find_seen-two :
    (beyond : ℕ → Bool) (test : Bytes → Bool) (a b : Bytes × Bytes)
    → find_seen beyond 2 0 test (a ∷ b ∷ []) ≡ (if test (a.0) then some (a.1) else none)
unfolding find_seen
find_seen-two beyond test a b = ground arith
