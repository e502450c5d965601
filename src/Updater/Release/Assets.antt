-- ===== src/Updater/Release/Assets.antt =====
-- src/AutoGitHub.cpp: which asset of a release is taken.
use libappupdater.CLib.{c_string, stricmp_eq, tolower}
use libappupdater.Prelude.{
  Bytes, Bool, true, false, not, List, [], ◌∷◌, ◌++◌, All, Option, none, some, ◌==◌, is_empty,
  codes, if◌then◌else◌, ◌≡◌, ◌↔◌, map, refl, ap, ap₂, ◌∙◌, arith, subst,
}
use libappupdater.Updater.Check.{
  Download, not_opened, incomplete, raised, complete, Release, release_failed, release, is_endpoint,
  contains,
}
use libappupdater.Updater.Release.{
  Json, split_endpoint, api_and_manifest, text_of, asset_url, find_asset, release_asset,
  read_release, get_latest_release,
}

-- The texts differ in the case of letters only.
abbrev pub IsSameName : Bytes → Bytes → Type 0
IsSameName a b = map tolower a ≡ map tolower b

stricmp_eq-IsSameName : (a b : Bytes) → (stricmp_eq a b ≡ true) ↔ IsSameName a b
unfolding stricmp_eq
stricmp_eq-IsSameName [] [] = (λ h. refl, λ h. refl)
stricmp_eq-IsSameName [] (y ∷ b) =
    (λ h. absurd (ground (arith, h)), λ h. absurd (ground (arith, h)))
stricmp_eq-IsSameName (x ∷ a) [] =
    (λ h. absurd (ground (arith, h)), λ h. absurd (ground (arith, h)))
stricmp_eq-IsSameName (x ∷ a) (y ∷ b) =
    let (there, back) = stricmp_eq-IsSameName a b in
    (
      λ h. ap₂ (λ c s. c ∷ s) (ground (arith, h)) (there (ground (arith, h))),
      λ h. ground (arith, h, back),
    )

module _ (json : Json) where
  open json use {Value, parse, member, elements, string_value}

  -- A member of an asset that is a text.
  pub record HasText (asset : Value) (name text : Bytes) : Type 0 where
    pub value : Value
    pub is_member : member asset name ≡ some value
    pub is_text : string_value value ≡ some text

  -- The asset has the name that is asked for, whatever its case, and an address.
  pub record IsNamed (manifest : Bytes) (asset : Value) (url : Bytes) : Type 0 where
    pub name : Bytes
    pub has_name : HasText asset (codes "name") name
    pub same_name : IsSameName (c_string manifest) name
    pub has_url : HasText asset (codes "browser_download_url") url

  text_of-HasText :
      (asset : Value) (name text : Bytes)
      → (text_of json asset name ≡ some text) ↔ HasText asset name text
  text_of-HasText asset name text =
      (λ h. there (member asset name) refl h, λ h. rw (text_of, h.is_member) h.is_text)
    where
      there :
          (o : Option Value)
          → member asset name ≡ o
          → (elim o as (λ _. Option Bytes) [ none ↦ none | some v ↦ string_value v ]) ≡ some text
          → HasText asset name text
      there none e k = absurd (ground (arith, k))
      there (some v) e k = record { value = v; is_member = e; is_text = k }

  asset_url-IsNamed :
      (manifest : Bytes) (asset : Value) (url : Bytes)
      → (asset_url json manifest asset ≡ some url) ↔ IsNamed manifest asset url
  unfolding asset_url
  asset_url-IsNamed manifest asset url = (there (text_of json asset (codes "name")) refl, back)
    where
      result : Option Bytes → Option Bytes
      result o = elim o [
        | none ↦ none
        | some name ↦
            if stricmp_eq (c_string manifest) name
            then text_of json asset (codes "browser_download_url")
            else none
      ]

      named :
          (name : Bytes)
          → text_of json asset (codes "name") ≡ some name
          → (b : Bool) → stricmp_eq (c_string manifest) name ≡ b
          → (if b then text_of json asset (codes "browser_download_url") else none) ≡ some url
          → IsNamed manifest asset url
      named name e true s k = record {
        name = name;
        has_name = (text_of-HasText asset (codes "name") name).0 e;
        same_name = (stricmp_eq-IsSameName (c_string manifest) name).0 s;
        has_url = (text_of-HasText asset (codes "browser_download_url") url).0 k;
      }
      named name e false s k = absurd (ground (arith, k))

      there :
          (o : Option Bytes)
          → text_of json asset (codes "name") ≡ o
          → result o ≡ some url
          → IsNamed manifest asset url
      there none e k = absurd (ground (arith, k))
      there (some name) e k = named name e (stricmp_eq (c_string manifest) name) refl k

      back : IsNamed manifest asset url → result (text_of json asset (codes "name")) ≡ some url
      back n =
          ap result ((text_of-HasText asset (codes "name") n.name).1 n.has_name)
          ∙ rw ((stricmp_eq-IsSameName (c_string manifest) n.name).1 n.same_name)
              ((text_of-HasText asset (codes "browser_download_url") url).1 n.has_url)

  -- The first asset that has the name that is asked for and an address, which is `url`.
  pub record IsFirst (manifest : Bytes) (list : List Value) (url : Bytes) : Type 0 where
    pub before : List Value
    pub asset : Value
    pub behind : List Value
    pub split : list ≡ before ++ (asset ∷ behind)
    pub others : All (λ a. ¬ ((u : Bytes) × IsNamed manifest a u)) before
    pub address : IsNamed manifest asset url

  find_asset-IsFirst :
      (manifest : Bytes) (list : List Value)
      → is_empty (find_asset json manifest list) ≡ false
      → IsFirst manifest list (find_asset json manifest list)
  unfolding find_asset
  find_asset-IsFirst manifest [] h = absurd (ground (arith, h))
  find_asset-IsFirst manifest (a ∷ list) h =
      go (find_asset-IsFirst manifest list) (asset_url json manifest a) refl h
    where
      result : Option Bytes → Bytes
      result o = elim o [ none ↦ find_asset json manifest list | some url ↦ url ]

      go :
          (is_empty (find_asset json manifest list) ≡ false
            → IsFirst manifest list (find_asset json manifest list))
          → (o : Option Bytes) → asset_url json manifest a ≡ o
          → is_empty (result o) ≡ false
          → IsFirst manifest (a ∷ list) (result o)
      go ih none e k =
          let i = ih k in
          record {
            before = a ∷ i.before;
            asset = i.asset;
            behind = i.behind;
            split = ap (λ l. a ∷ l) i.split;
            others = (λ n. ground (arith, e, (asset_url-IsNamed manifest a n.0).1 n.1), i.others);
            address = i.address;
          }
      go ih (some url) e k = record {
        before = [];
        asset = a;
        behind = list;
        split = refl;
        others = tt;
        address = (asset_url-IsNamed manifest a url).0 e;
      }

  -- What an answer with an address rests on: the parts of the endpoint, the downloaded release, and
  -- the list of its assets.
  pub record IsReleased (get : Bytes → Download) (endpoint url : Bytes) : Type 0 where
    pub api : Bytes
    pub manifest : Bytes
    pub payload : Bytes
    pub parsed : Value
    pub assets : Value
    pub list : List Value
    pub parts : endpoint ≡ api ++ (b'~' ∷ manifest)
    pub first_tilde : contains b'~' api ≡ false
    pub downloaded : get (api ++ codes "/releases/latest") ≡ complete payload
    pub has_json : parse payload ≡ some parsed
    pub has_assets : member parsed (codes "assets") ≡ some assets
    pub has_list : elements assets ≡ some list
    pub is_first : IsFirst manifest list url

-- What splitting at the first `~` gives.
abbrev Parts : Bytes → Option (Bytes × Bytes) → Type 0
Parts s none = contains b'~' s ≡ false
Parts s (some (api, manifest)) = (s ≡ api ++ (b'~' ∷ manifest)) × (contains b'~' api ≡ false)

split_endpoint-Parts : (s : Bytes) → Parts s (split_endpoint s)
unfolding split_endpoint contains
split_endpoint-Parts [] = refl
split_endpoint-Parts (c ∷ s) = go (c == b'~') refl (split_endpoint s) (split_endpoint-Parts s)
  where
    go :
        (b : Bool)
        → (c == b'~') ≡ b
        → (o : Option (Bytes × Bytes)) → Parts s o
        → Parts (c ∷ s) (
            if b
            then some ([], s)
            else elim o [ none ↦ none | some (api, manifest) ↦ some (c ∷ api, manifest) ])
    go true e o h = (ap (λ x. x ∷ s) (ground (arith, e)), refl)
    go false e none h = ground (arith, e, h)
    go false e (some (api, manifest)) h = (ap (λ l. c ∷ l) h.0, ground (arith, e, h.1))

is_endpoint-contains : (url : Bytes) → is_endpoint url ≡ true → contains b'~' url ≡ true
unfolding is_endpoint
is_endpoint-contains [] h = absurd (ground (arith, h))
is_endpoint-contains (c ∷ s) h = ground (arith, h)

module _ (json : Json) (get : Bytes → Download) where
  open json use {Value, parse, member, elements}

  release_asset-IsFirst :
      (manifest : Bytes) (v : Value)
      → is_empty (release_asset json manifest v) ≡ false
      → (assets : Value) × (list : List Value) × (member v (codes "assets") ≡ some assets)
        × (elements assets ≡ some list)
        × IsFirst json manifest list (release_asset json manifest v)
  unfolding release_asset
  release_asset-IsFirst manifest v h = go (member v (codes "assets")) refl h
    where
      result : Option Value → Bytes
      result o = elim o [
        | none ↦ []
        | some assets ↦ elim (elements assets) [
          | none ↦ []
          | some list ↦ find_asset json manifest list
        ]
      ]

      listed :
          (assets : Value)
          → member v (codes "assets") ≡ some assets
          → (l : Option (List Value)) → elements assets ≡ l
          → is_empty (elim l [ none ↦ [] | some list ↦ find_asset json manifest list ]) ≡ false
          → (assets : Value) × (list : List Value) × (member v (codes "assets") ≡ some assets)
            × (elements assets ≡ some list)
            × IsFirst json manifest list
                (elim l [ none ↦ [] | some list ↦ find_asset json manifest list ])
      listed assets e none f k = absurd (ground (arith, k))
      listed assets e (some list) f k =
          (assets, list, e, f, find_asset-IsFirst json manifest list k)

      go :
          (o : Option Value)
          → member v (codes "assets") ≡ o
          → is_empty (result o) ≡ false
          → (assets : Value) × (list : List Value) × (member v (codes "assets") ≡ some assets)
            × (elements assets ≡ some list)
            × IsFirst json manifest list (result o)
      go none e k = absurd (ground (arith, k))
      go (some assets) e k = listed assets e (elements assets) refl k

  read_release-complete :
      (manifest url : Bytes) (d : Download)
      → read_release json manifest d ≡ release url
      → (payload : Bytes) × (v : Value) × (d ≡ complete payload)
        × (parse payload ≡ some v)
        × (release_asset json manifest v ≡ url)
  unfolding read_release
  read_release-complete manifest url raised h = absurd (ground (arith, h))
  read_release-complete manifest url not_opened h = absurd (ground (arith, h))
  read_release-complete manifest url incomplete h = absurd (ground (arith, h))
  read_release-complete manifest url (complete payload) h = go (parse payload) refl h
    where
      go :
          (o : Option Value)
          → parse payload ≡ o
          → ◌≡◌ {A = Release}
              (elim o [ none ↦ release_failed | some v ↦ release (release_asset json manifest v) ])
              (release url)
          → (p : Bytes) × (v : Value) × (complete payload ≡ complete p)
            × (parse p ≡ some v)
            × (release_asset json manifest v ≡ url)
      go none e k = absurd (ground (arith, k))
      go (some v) e k = (payload, v, refl, e, ground (arith, k))

  guarded :
      (b e : Bool) (r : Release) (url : Bytes)
      → (if not b then release_failed else if e then release_failed else r) ≡ release url
      → (b ≡ true) × (r ≡ release url)
  guarded b e r url h = ground (arith, h)

  -- What `GetLatestRelease` answers, if it is an address, is the address of the first asset that
  -- has the name behind the first `~` of the endpoint, whatever its case, and that has an address,
  -- in the list of assets of the release that is downloaded from the part before.
  pub get_latest_release-IsReleased :
      (endpoint url : Bytes)
      → get_latest_release json get endpoint ≡ release url
      → is_empty url ≡ false
      → IsReleased json get endpoint url
  unfolding get_latest_release
  get_latest_release-IsReleased endpoint url h ne =
      let (here, read) =
        guarded (is_endpoint endpoint) (is_empty (api_and_manifest endpoint).1) _ url h in
      go (split_endpoint endpoint) (split_endpoint-Parts endpoint)
        (is_endpoint-contains endpoint here) read
    where
      parts_of : Option (Bytes × Bytes) → Bytes × Bytes
      parts_of o = elim o [ none ↦ (endpoint, endpoint) | some parts ↦ parts ]

      go :
          (o : Option (Bytes × Bytes))
          → Parts endpoint o
          → contains b'~' endpoint ≡ true
          → read_release json (parts_of o).1 (get ((parts_of o).0 ++ codes "/releases/latest"))
            ≡ release url
          → IsReleased json get endpoint url
      go none p there read = absurd (ground (arith, p, there))
      go (some (api, manifest)) p there read =
          let (payload, v, d, j, u) =
            read_release-complete manifest url (get (api ++ codes "/releases/latest")) read in
          let (assets, list, a, l, f) = release_asset-IsFirst manifest v (ap is_empty u ∙ ne) in
          record {
            api = api;
            manifest = manifest;
            payload = payload;
            parsed = v;
            assets = assets;
            list = list;
            parts = p.0;
            first_tilde = p.1;
            downloaded = d;
            has_json = j;
            has_assets = a;
            has_list = l;
            is_first = subst (λ x. IsFirst json manifest list x) u f;
          }
