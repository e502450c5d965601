-- ===== src/Manifest/Selection.antt =====
-- src/AutoManifest.cpp: `SelectionWeight` and `best_match`, `AutoManifest::Load` and
-- `AutoManifest::IsCriticalUpdate`. The system's version calls are parameters.
pub mod Best
pub mod Weight
use Prim.Native.Nat.{Ordering, lt}
use libappupdater.CLib.{scan_unsigned}
use libappupdater.Manifest.{AutoManifest}
use libappupdater.Manifest.Parser.{ParserContext, new_context}
use libappupdater.Manifest.Parser.Handlers.{Event, run}
use libappupdater.Prelude.{
  ℕ, ◌+◌, ◌*◌, ◌%◌, ◌^◌, Bytes, Bool, true, false, not, ◌&&◌, ◌||◌, List, [], ◌∷◌, Option, none,
  some, ltb, ◌==◌, str_eq, is_empty, codes, min, if◌then◌else◌,
}
use libappupdater.Prelude.Int.{ℤ}
use libappupdater.Version.{compare}

-- What `GetVersionExW` and `RtlGetVersion` report, major and minor, when they succeed, and whether
-- the program is built for 64 bits.
pub record System : Type 0 where
  pub is_x64 : Bool
  pub get_version : Option (ℕ × ℕ)
  pub rtl_get_version : Option (ℕ × ℕ)

-- The operating system's part of the weight: 0 for another system.
unfoldable pub os_weight : System → Bytes → ℕ
unfolding str_eq
os_weight sys label =
    if is_empty label || str_eq label (codes "windows")
    then 1
    else if str_eq label (if sys.is_x64 then codes "windows-x64" else codes "windows-x86")
    then 2
    else 0

abbrev is_older : ℕ × ℕ → ℕ × ℕ → Bool
is_older (major, minor) (required_major, required_minor) =
    ltb major required_major || major == required_major && ltb minor required_minor

-- `%lu.%lu.%hu`: how many of the first two numbers there are, and the numbers, 0 if missing. The
-- third is not used.
abbrev scan_minor : Bytes → ℕ
scan_minor [] = 0
scan_minor (c ∷ s) = if c == b'.' then elim (scan_unsigned s) [ none ↦ 0 | some (n, _) ↦ n ] else 0

unfoldable pub scan_required : Bytes → Option (ℕ × ℕ)
unfolding scan_unsigned
scan_required s = elim (scan_unsigned s) [
  | none ↦ none
  | some (major, rest) ↦ some (major, scan_minor rest)
]

-- The system is older than required. From Windows 8 on the version is `RtlGetVersion`'s, and no
-- version is too old when that fails.
unfoldable pub is_too_old : System → ℕ × ℕ → Bool
is_too_old sys required = elim sys.get_version [
  | none ↦ false
  | some (major, minor) ↦
      if ltb 6 major || major == 6 && not (ltb minor 2)
      then elim sys.rtl_get_version [ none ↦ false | some actual ↦ is_older actual required ]
      else is_older (major, minor) required
]

-- `((major & 0x0fff) << 16) | (minor & 0xffff)`, for a minor version that is capped.
abbrev pub version_word : ℕ × ℕ → ℕ
version_word (major, minor) = major % 2 ^ 12 * 2 ^ 16 + min minor 65535

abbrev pub required_weight : System → Option (ℕ × ℕ) → Option ℕ
unfolding is_too_old
required_weight sys none = some 0
required_weight sys (some required) =
    if is_too_old sys required then none else some (version_word required)

-- The required version's part of the weight, unless the system is too old.
unfoldable pub version_weight : System → Bytes → Option ℕ
unfolding scan_required is_too_old
version_weight sys s = if is_empty s then some 0 else required_weight sys (scan_required s)

-- `SelectionWeight`: `(weight << 30) | version`
unfoldable pub selection_weight : System → AutoManifest → ℕ
unfolding os_weight version_weight
selection_weight sys m =
    let weight = os_weight sys m.os_label in
    if weight == 0 then 0 else elim (version_weight sys m.minimum_system_version) [
      | none ↦ 0
      | some version ↦ weight * 2 ^ 30 + version
    ]

-- The loop of `best_match`, with the largest so far, its weight and the rest.
unfoldable pub best_loop : System → AutoManifest → ℕ → List AutoManifest → AutoManifest × ℕ
unfolding selection_weight
best_loop sys largest weight [] = (largest, weight)
best_loop sys largest weight (m ∷ ms) =
    let w = selection_weight sys m in
    if ltb weight w then best_loop sys m w ms else best_loop sys largest weight ms

-- `best_match`, with the manifests in their order in the text. It returns a pointer to an item,
-- whose weight has been set.
unfoldable pub best_match : System → List AutoManifest → Option AutoManifest
unfolding best_loop selection_weight
best_match sys [] = none
best_match sys (m ∷ ms) =
    let best = best_loop sys m (selection_weight sys m) ms in
    if best.1 == 0 then none else some (record (best.0) { weight = best.1 })

abbrev pub onto : List AutoManifest → List AutoManifest → List AutoManifest
onto [] acc = acc
onto (m ∷ ms) acc = onto ms (m ∷ acc)

pub data LoadResult : Type 0 where
  threw no_match : LoadResult
  loaded : AutoManifest → LoadResult

-- What `Load` does after the calls of the handlers. The parser's own errors count only when no
-- handler has stopped it.
unfoldable pub load_result : System → Bool → ParserContext → LoadResult
unfolding best_match
load_result sys malformed ctx =
    if ctx.failed || not ctx.completed && malformed
    then threw
    else elim (best_match sys (onto ctx.manifests [])) [ none ↦ no_match | some m ↦ loaded m ]

-- `AutoManifest::Load` with a parser, which gives its calls for a text and whether it finds the
-- text malformed.
unfoldable pub load :
    System → (ℤ → Bytes) → (ℕ → Bool) → (Bytes → List Event × Bool) → Bytes → Bytes → LoadResult
unfolding run load_result
load sys pub_date_of beyond expat xml required =
    load_result sys (expat xml).1 (run pub_date_of beyond (expat xml).0 (new_context required))

-- `AutoManifest::IsCriticalUpdate`
unfoldable pub is_critical_update : AutoManifest → Bytes → Bool
unfolding compare str_eq
is_critical_update m app_version =
    if is_empty m.critical_update
    then false
    else str_eq m.critical_update (codes "*")
      || elim (compare app_version m.critical_update) [ lt ↦ true | _ ↦ false ]
