-- ===== src/Config/Language.antt =====
-- src/AutoConfig.cpp: `GetStringFileInfo`, the language of the version resource. The translations
-- of the resource and the languages of the user and the system are parameters; the result is kept
-- in the source.
pub mod Preferred
use libappupdater.Prelude.{
  ℕ, zero, suc, ◌+◌, ◌-◌, ◌/◌, ◌%◌, Bytes, Bool, List, [], ◌∷◌, ◌++◌, Option, none, some, ltb, leb,
  ◌==◌, codes, length, get_elem?, if◌then◌else◌,
}

-- `wLanguage` and `wCodePage`
abbrev pub Translation : Type 0
Translation = ℕ × ℕ

-- The inner loop: the index of the first translation of a language, or their number.
unfoldable pub index_of : ℕ → List Translation → ℕ
index_of lang [] = 0
index_of lang ((language, code_page) ∷ ts) =
    let rest = index_of lang ts in if language == lang then 0 else suc rest

-- The languages of the phases; English of the United States is 1033.
abbrev pub phases : ℕ → ℕ → List ℕ
phases user system = user ∷ system ∷ 1033 ∷ 0 ∷ []

-- The outer loop, over the phases that are left.
unfoldable pub resolve : List ℕ → List Translation → ℕ
unfolding index_of
resolve [] ts = length ts
resolve (lang ∷ langs) ts =
    let rest = resolve langs ts in
    if leb (length ts) (index_of lang ts) then rest else index_of lang ts

-- The index of the translation that is used.
unfoldable pub choose : List ℕ → List Translation → ℕ
unfolding resolve
choose langs ts =
    if ltb 1 (length ts)
    then (if leb (length ts) (resolve langs ts) then 0 else resolve langs ts)
    else 0

-- `%04x` of a number of 16 bits.
abbrev pub hex_digit : ℕ → ℕ
hex_digit n = if ltb n 10 then n + b'0' else n - 10 + b'a'

abbrev pub hex_word : ℕ → Bytes
hex_word n =
    hex_digit (n / 4096 % 16)
    ∷ hex_digit (n / 256 % 16)
    ∷ hex_digit (n / 16 % 16)
    ∷ hex_digit (n % 16)
    ∷ []

-- `GetStringFileInfo`; none is the exception for a resource without translations.
unfoldable pub get_string_file_info : ℕ → ℕ → List Translation → Option Bytes
unfolding choose
get_string_file_info user system ts = elim (get_elem? ts (choose (phases user system) ts)) [
  | none ↦ none
  | some (language, code_page) ↦
      some (codes "\\StringFileInfo\\" ++ hex_word language ++ hex_word code_page)
]
