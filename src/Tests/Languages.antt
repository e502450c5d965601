-- ===== src/Tests/Languages.antt =====
-- The language of the version resource: src/AutoConfig.cpp.
use libappupdater.Config.Language.{
  Translation, phases, hex_word, get_string_file_info, choose, resolve, index_of,
}
use libappupdater.Config.Language.Preferred.{IsPreferred, get_string_file_info-IsPreferred}
use libappupdater.Prelude.{List, [], ◌∷◌, ◌++◌, some, ◌≡◌, refl, codes}

-- French and English.
abbrev two_languages : List Translation
two_languages = (1036, 1200) ∷ (1033, 1200) ∷ []

get_string_file_info-IsPreferred_example :
    (u : Translation) × IsPreferred (phases 1031 2057) two_languages u
    × (get_string_file_info 1031 2057 two_languages
        ≡ some (codes "\\StringFileInfo\\" ++ hex_word u.0 ++ hex_word u.1))
get_string_file_info-IsPreferred_example =
    get_string_file_info-IsPreferred 1031 2057 (1036, 1200) ((1033, 1200) ∷ [])

english_block :
    get_string_file_info 1031 2057 two_languages ≡ some (codes "\\StringFileInfo\\040904b0")
unfolding get_string_file_info choose resolve index_of
english_block = refl
