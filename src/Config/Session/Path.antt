-- ===== src/Config/Session/Path.antt =====
-- `GetRegistryPath` in src/AutoConfig.cpp: the path that it gives, and what a second call gives after
-- an exception.
use libappupdater.Config.Session.{
  Resources, Config, CachedText, Setting, feed_url, channel_name, os, app_name, app_version,
  company, build, cached, store, read_setting, get_setting, path_with, get_default_registry_path,
  get_registry_path,
}
use libappupdater.Prelude.{
  Bytes, Bool, true, false, not, ◌||◌, [], ◌++◌, Option, none, some, ◌≡◌, refl, sym, ap, subst, ◌∙◌,
  arith, codes, is_empty, if◌then◌else◌,
}

-- The text of a setting: the one that is kept, or the one of the resources.
abbrev pub known : Resources → Setting → Config → Option Bytes
known res s c =
    if not (is_empty (cached s c).value) || (cached s c).queried
    then some (cached s c).value
    else read_setting res s

-- What reading a setting leaves alone.
record IsReadFrom (c d : Config) : Type 0 where
  registry : d.registry_path ≡ c.registry_path
  default : d.default_registry_path ≡ c.default_registry_path

abbrev IsKnown : Option Bytes → Config → Option Bytes × Config → Type 0
IsKnown text c (o, d) = (o ≡ text) × IsReadFrom c d

abbrev with_text : Setting → Config → Option Bytes → Option Bytes × Config
with_text s c o = elim o [
  | none ↦ (none, c)
  | some value ↦ (some value, store s (record { value = value; queried = true }) c)
]

store-IsReadFrom : (s : Setting) (t : CachedText) (c : Config) → IsReadFrom c (store s t c)
store-IsReadFrom feed_url t c = record { registry = refl; default = refl }
store-IsReadFrom channel_name t c = record { registry = refl; default = refl }
store-IsReadFrom os t c = record { registry = refl; default = refl }
store-IsReadFrom app_name t c = record { registry = refl; default = refl }
store-IsReadFrom app_version t c = record { registry = refl; default = refl }
store-IsReadFrom company t c = record { registry = refl; default = refl }
store-IsReadFrom build t c = record { registry = refl; default = refl }

get_setting-IsKnown :
    (res : Resources) (s : Setting) (c : Config) → IsKnown (known res s c) c (get_setting res s c)
unfolding get_setting
get_setting-IsKnown res s c =
    go (not (is_empty (cached s c).value) || (cached s c).queried) (read_setting res s)
  where
    go :
        (b : Bool) (o : Option Bytes)
        → IsKnown
            (if b then some (cached s c).value else o)
            c
            (if b then (some (cached s c).value, c) else with_text s c o)
    go true o = (refl, record { registry = refl; default = refl })
    go false none = (refl, record { registry = refl; default = refl })
    go false (some v) = (refl, store-IsReadFrom s (record { value = v; queried = true }) c)

application_name-get_setting :
    (res : Resources) (c : Config)
    → (get_setting res company c).1.application_name ≡ c.application_name
unfolding get_setting
application_name-get_setting res c =
    go (not (is_empty c.company_name.value) || c.company_name.queried) (read_setting res company)
  where
    go :
        (b : Bool) (o : Option Bytes)
        → (if◌then◌else◌ {A = Option Bytes × Config} b
            (some c.company_name.value, c)
            (with_text company c o)).1.application_name
          ≡ c.application_name
    go true o = refl
    go false none = refl
    go false (some v) = refl

-- The path before the name of the program.
abbrev vendor_path : Bytes → Bytes
vendor_path vendor = codes "Software\\" ++ (if is_empty vendor then [] else vendor ++ codes "\\")

-- What a call answers, with the names of the company and of the program.
abbrev pub first_path : Option Bytes → Option Bytes → Option Bytes
first_path none name = none
first_path (some vendor) none = none
first_path (some vendor) (some name) = some (vendor_path vendor ++ name ++ codes "\\AutoUpdate")

-- The path that is kept.
abbrev pub kept_path : Option Bytes → Option Bytes → Bytes
kept_path none name = codes "Software\\"
kept_path (some vendor) none = vendor_path vendor
kept_path (some vendor) (some name) = vendor_path vendor ++ name ++ codes "\\AutoUpdate"

abbrev IsGiven : Config → Option Bytes → Option Bytes → Option Bytes × Config → Type 0
IsGiven c v n (o, d) =
    (o ≡ first_path v n)
    × (d.default_registry_path ≡ kept_path v n)
    × (d.registry_path ≡ c.registry_path)

path_with-IsGiven :
    (res : Resources) (c : Config) (vendor : Bytes)
    → IsGiven c (some vendor) (known res app_name c) (path_with res vendor c)
path_with-IsGiven res c vendor =
    go (get_setting res app_name base) (get_setting-IsKnown res app_name base)
  where
    base : Config
    base = record c { default_registry_path = vendor_path vendor }

    go :
        (r : Option Bytes × Config)
        → IsKnown (known res app_name c) base r
        → IsGiven c (some vendor) (known res app_name c) (elim r.0 [
          | none ↦ (none, r.1)
          | some n ↦ (
            some (vendor_path vendor ++ n ++ codes "\\AutoUpdate"),
            record r.1 { default_registry_path = vendor_path vendor ++ n ++ codes "\\AutoUpdate" },
          )
        ])
    go (none, d) (e, f) =
        subst (λ n. IsGiven c (some vendor) n (none, d)) e (refl, f.default, f.registry)
    go (some n, d) (e, f) =
        subst
          (λ x. IsGiven c (some vendor) x (
            some (vendor_path vendor ++ n ++ codes "\\AutoUpdate"),
            record d { default_registry_path = vendor_path vendor ++ n ++ codes "\\AutoUpdate" },
          ))
          e (refl, refl, f.registry)

get_default_registry_path-IsGiven :
    (res : Resources) (c : Config)
    → is_empty c.default_registry_path ≡ true
    → IsGiven c (known res company c) (known res app_name c) (get_default_registry_path res c)
unfolding get_default_registry_path
get_default_registry_path-IsGiven res c fresh = rw fresh (
    go (get_setting res company start) (get_setting-IsKnown res company start)
      (application_name-get_setting res start))
  where
    start : Config
    start = record c { default_registry_path = codes "Software\\" }

    same_name :
        (d : Config)
        → d.application_name ≡ c.application_name
        → known res app_name d ≡ known res app_name c
    same_name d same =
        ap
          (λ a.
            if not (is_empty a.value) || a.queried then some a.value else read_setting res app_name)
          same

    go :
        (r : Option Bytes × Config)
        → IsKnown (known res company c) start r
        → r.1.application_name ≡ c.application_name
        → IsGiven c
            (known res company c)
            (known res app_name c)
            (elim r.0 [ none ↦ (none, r.1) | some v ↦ path_with res v r.1 ])
    go (none, d) (e, f) same =
        subst (λ v. IsGiven c v (known res app_name c) (none, d)) e (refl, f.default, f.registry)
    go (some v, d) (e, f) same =
        let (given, kept, path) = path_with-IsGiven res d v in
        subst (λ x. IsGiven c x (known res app_name c) (path_with res v d)) e
          (subst (λ n. IsGiven c (some v) n (path_with res v d)) (same_name d same)
            (given, kept, path ∙ f.registry))

is_empty-kept_path : (v n : Option Bytes) → is_empty (kept_path v n) ≡ false
is_empty-kept_path none n = refl
is_empty-kept_path (some v) none = refl
is_empty-kept_path (some v) (some n) = refl

-- Once a path is kept as the default, `GetRegistryPath` gives it.
get_registry_path_default :
    (res : Resources) (c : Config)
    → is_empty c.registry_path ≡ true
    → is_empty c.default_registry_path ≡ false
    → (get_registry_path res c).0 ≡ some c.default_registry_path
unfolding get_registry_path get_default_registry_path
get_registry_path_default res c unset set = rw (unset, set) refl

-- What `GetRegistryPath` makes of the answer of `GetDefaultRegistryPath`.
abbrev taken : Option Bytes × Config → Option Bytes × Config
taken (none, d) = (none, d)
taken (some p, d) = (some p, record d { registry_path = p })

get_registry_path-taken :
    (res : Resources) (c : Config)
    → is_empty c.registry_path ≡ true
    → get_registry_path res c ≡ taken (get_default_registry_path res c)
unfolding get_registry_path
get_registry_path-taken res c unset = rw unset (go (get_default_registry_path res c))
  where
    go :
        (r : Option Bytes × Config)
        → elim r.0 as (λ _. Option Bytes × Config) [
          | none ↦ (none, r.1)
          | some p ↦ (some p, record r.1 { registry_path = p })
        ]
          ≡ taken r
    go (none, d) = refl
    go (some p, d) = refl

get_registry_path_set :
    (res : Resources) (c : Config)
    → is_empty c.registry_path ≡ false
    → (get_registry_path res c).0 ≡ some c.registry_path
unfolding get_registry_path
get_registry_path_set res c set = rw set refl

taken_again :
    (res : Resources) (c : Config) (v n : Option Bytes) (r : Option Bytes × Config)
    → is_empty c.registry_path ≡ true
    → IsGiven c v n r
    → ((taken r).0 ≡ first_path v n)
      × ((get_registry_path res (taken r).1).0 ≡ some (kept_path v n))
taken_again res c v n (none, d) unset (e, k, path) = (
  e,
  get_registry_path_default res d (ap is_empty path ∙ unset)
        (ap is_empty k ∙ is_empty-kept_path v n)
      ∙ ap some k,
)
taken_again res c none n (some p, d) unset (e, k, path) = absurd (ground (arith, e))
taken_again res c (some v) none (some p, d) unset (e, k, path) = absurd (ground (arith, e))
taken_again res c (some v) (some n) (some p, d) unset (e, k, path) =
    let same : p ≡ kept_path (some v) (some n) = ground (arith, e) in
    (
      e,
      get_registry_path_set res (record d { registry_path = p }) (ap is_empty same) ∙ ap some same,
    )

-- In a state without a path, `GetRegistryPath` gives the path of the company and the program, whose
-- names it may have to read, and a second call gives it again. If one of the names cannot be read, it
-- fails, but a second call succeeds: it gives the part of the path that was put together before.
pub get_registry_path_again :
    (res : Resources) (c : Config)
    → is_empty c.registry_path ≡ true
    → is_empty c.default_registry_path ≡ true
    → ((get_registry_path res c).0 ≡ first_path (known res company c) (known res app_name c))
      × ((get_registry_path res (get_registry_path res c).1).0
          ≡ some (kept_path (known res company c) (known res app_name c)))
get_registry_path_again res c unset fresh =
    subst
      (λ r.
        (r.0 ≡ first_path (known res company c) (known res app_name c))
        × ((get_registry_path res r.1).0
            ≡ some (kept_path (known res company c) (known res app_name c))))
      (sym (get_registry_path-taken res c unset))
      (taken_again res c (known res company c) (known res app_name c)
        (get_default_registry_path res c) unset (get_default_registry_path-IsGiven res c fresh))
