-- ===== src/Config/Session/Texts.antt =====
-- The setters and getters of `Config` in src/AutoConfig.cpp: a text that is set or was read is kept.
use libappupdater.Config.Session.{
  Resources, CachedText, Config, Setting, feed_url, channel_name, os, app_name, app_version,
  company, build, cached, store, read_setting, get_setting, set_setting,
}
use libappupdater.Prelude.{
  Bytes, Bool, true, false, not, ◌||◌, Option, none, some, ◌≡◌, refl, ap, ◌∙◌, is_empty,
  if◌then◌else◌,
}

cached-store : (s : Setting) (t : CachedText) (c : Config) → cached s (store s t c) ≡ t
cached-store feed_url t c = refl
cached-store channel_name t c = refl
cached-store os t c = refl
cached-store app_name t c = refl
cached-store app_version t c = refl
cached-store company t c = refl
cached-store build t c = refl

abbrev is_kept : CachedText → Bool
is_kept t = not (is_empty t.value) || t.queried

get_setting_kept :
    (res : Resources) (s : Setting) (c : Config) (t : CachedText)
    → cached s c ≡ t
    → is_kept t ≡ true
    → get_setting res s c ≡ (some t.value, c)
unfolding get_setting
get_setting_kept res s c t e kept =
    rw (ap is_kept e ∙ kept) (ap (λ x. (some (CachedText.value x), c)) e)

or_true : (b : Bool) → (b || true) ≡ true
or_true true = refl
or_true false = refl

-- A text that is set and not empty is what the getter gives, and it leaves the state alone.
get_setting-set_setting :
    (res : Resources) (s : Setting) (c : Config) (text : Bytes)
    → is_empty text ≡ false
    → get_setting res s (set_setting s (some text) c) ≡ (some text, set_setting s (some text) c)
unfolding set_setting
get_setting-set_setting res s c text some_text =
    get_setting_kept res s _ _ (cached-store s _ c) (rw some_text refl)

abbrev IsStable : Resources → Setting → Config → Option Bytes × Config → Type 0
IsStable res s c (none, d) = d ≡ c
IsStable res s c (some text, d) = get_setting res s d ≡ (some text, d)

-- A getter that fails leaves the state alone; a text that it gave is given again, and then the state
-- is left alone.
get_setting-IsStable :
    (res : Resources) (s : Setting) (c : Config) → IsStable res s c (get_setting res s c)
unfolding get_setting
get_setting-IsStable res s c = go (is_kept (cached s c)) (read_setting res s) refl
  where
    go :
        (b : Bool) (o : Option Bytes)
        → is_kept (cached s c) ≡ b
        → IsStable res s c (
            if b then (some (cached s c).value, c) else elim o [
              | none ↦ (none, c)
              | some value ↦ (some value, store s (record { value = value; queried = true }) c)
            ])
    go true o kept = get_setting_kept res s c (cached s c) refl kept
    go false none kept = refl
    go false (some value) kept =
        get_setting_kept res s _ _ (cached-store s _ c) (or_true (not (is_empty value)))
