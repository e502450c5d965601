-- ===== src/Manifest/Parser/Handlers/Items.antt =====
-- What the handlers keep of the items.
use libappupdater.Manifest.{AutoManifest}
use libappupdater.Manifest.Parser.{ParserContext, new_context, edit_newest}
use libappupdater.Manifest.Parser.Handlers.{Event, run}
use libappupdater.Manifest.Parser.Handlers.Kept.{IsKept, run-Holds}
use libappupdater.Prelude.{
  ℕ, Bytes, Bool, true, false, List, [], ◌∷◌, ◌++◌, ◌≡◌, refl, arith, is_empty,
}
use libappupdater.Prelude.Int.{ℤ}

-- The pointer to an item is not NULL just in an item, and it then points to one.
pub record IsPointer (has in_item : Bool) (ms : List AutoManifest) : Type 0 where
  pub same : has ≡ in_item
  pub points : has ≡ true → is_empty ms ≡ false

edit_newest-is_empty :
    (f : AutoManifest → AutoManifest) (ms : List AutoManifest)
    → is_empty ms ≡ false
    → is_empty (edit_newest f ms) ≡ false
edit_newest-is_empty f (m ∷ ms) h = refl
edit_newest-is_empty f [] h = h

IsPointer-IsKept : IsKept IsPointer
IsPointer-IsKept = record {
  edited =
      λ f i ms p. record { same = p.same; points = λ e. edit_newest-is_empty f ms (p.points e) };
  pushed = λ m h ms p. record { same = refl; points = λ e. refl };
  closed = λ h ms p. record { same = refl; points = λ e. ground (arith, e) };
}

-- The newer items are those before `old`, which no pointer leads to.
pub record IsOnto (old : List AutoManifest) (has in_item : Bool) (ms : List AutoManifest)
    : Type 0 where
  pub newer : List AutoManifest
  pub split : ms ≡ newer ++ old
  pub points : has ≡ true → is_empty newer ≡ false

edit_newest-append :
    (f : AutoManifest → AutoManifest) (ms old : List AutoManifest)
    → is_empty ms ≡ false
    → edit_newest f (ms ++ old) ≡ edit_newest f ms ++ old
edit_newest-append f (m ∷ ms) old h = refl
edit_newest-append f [] old h = ground (arith, h)

IsOnto-IsKept : (old : List AutoManifest) → IsKept (IsOnto old)
IsOnto-IsKept old = record {
  edited = λ f i ms p. record {
    newer = edit_newest f p.newer;
    split = rw p.split (edit_newest-append f p.newer old (p.points refl));
    points = λ e. edit_newest-is_empty f p.newer (p.points e);
  };
  pushed = λ m h ms p. record { newer = m ∷ p.newer; split = rw p.split refl; points = λ e. refl };
  closed = λ h ms p. record { newer = p.newer; split = p.split; points = λ e. ground (arith, e) };
}

module _ (pub_date_of : ℤ → Bytes) (beyond : ℕ → Bool) where
  -- After any calls of the handlers the pointer to an item is set just inside of an item, and it
  -- points to one.
  pub run-IsPointer :
      (es : List Event) (required : Bytes)
      → let r = run pub_date_of beyond es (new_context required) in
        IsPointer r.has_manifest r.in_item r.manifests
  run-IsPointer es required =
      (run-Holds IsPointer IsPointer-IsKept pub_date_of beyond es (new_context required)
        (record { holds = record { same = refl; points = λ e. ground (arith, e) } })).holds

  -- The items that are there when no item is open are never changed, removed or reordered.
  pub run-keeps :
      (es : List Event) (ctx : ParserContext)
      → ctx.has_manifest ≡ false
      → (newer : List AutoManifest) × ((run pub_date_of beyond es ctx).manifests
          ≡ newer ++ ctx.manifests)
  run-keeps es ctx e =
      let h =
        run-Holds (IsOnto ctx.manifests) (IsOnto-IsKept ctx.manifests) pub_date_of beyond es ctx
          (record {
            holds = record { newer = []; split = refl; points = λ k. ground (arith, e, k) };
          }) in
      (h.holds.newer, h.holds.split)
