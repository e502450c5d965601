-- ===== src/Tests/Collections.antt =====
-- The localised texts: localisation/NSLocalizedCollectionImpl.cpp.
use libappupdater.Localisation.{Collection, assign, assign_each}
use libappupdater.Localisation.Po.{load_po}
use libappupdater.Localisation.Po.RoundTrip.{
  print_po, load_po-print_po, plural_onto, load_po-plural_onto,
}
use libappupdater.Localisation.Objects.{load_object}
use libappupdater.Localisation.Objects.RoundTrip.{encode_object, load_object-encode_object}
use libappupdater.Localisation.Strings.{load_loop, load_strings, read_string}
use libappupdater.Localisation.Strings.Progress.{LoadRun, StringRun, load_loop-load_strings}
use libappupdater.Localisation.Strings.RoundTrip.{print_strings, load_strings-print_strings}
use libappupdater.Prelude.{
  false, ℕ, ◌+◌, Bytes, true, [], ◌∷◌, some, ◌≡◌, refl, codes, arith, length,
}

-- A stand-in for the conversion of a wide character.
abbrev narrow : ℕ → Bytes
narrow n = n ∷ []

abbrev two_texts : Collection
two_texts = (codes "Skip", codes "say \"no\"") ∷ (codes "Later", codes "c:\\") ∷ []

load_loop-load_strings_example :
    LoadRun narrow true 1
      (codes "\"a\"=\"b\";\n")
      []
      (load_strings narrow (codes "\"a\"=\"b\";\n") [])
    × (load_loop narrow (length (codes "\"a\"=\"b\";\n") + 5) true 1 (codes "\"a\"=\"b\";\n") []
        ≡ load_strings narrow (codes "\"a\"=\"b\";\n") [])
    × ((acc t : Bytes) → StringRun narrow acc t (read_string narrow (length t + 1 + 5) acc t))
load_loop-load_strings_example = load_loop-load_strings narrow 5 (codes "\"a\"=\"b\";\n") []

load_strings-print_strings_example :
    load_strings narrow (print_strings two_texts) []
    ≡ record { ok = true; line_number = 3; strings = assign_each two_texts [] }
load_strings-print_strings_example =
    load_strings-print_strings narrow two_texts [] ((refl, refl), ((refl, refl), tt))

load_object-encode_object_example :
    load_object (encode_object two_texts (0 ∷ 1 ∷ [])) [] ≡ some (assign_each two_texts [])
load_object-encode_object_example =
    load_object-encode_object two_texts [] (0 ∷ 1 ∷ [])
      ((omega arith, omega arith, omega arith), ((omega arith, omega arith, omega arith), tt))
      (omega arith) (omega arith)

load_po-print_po_example :
    load_po narrow (print_po two_texts) []
    ≡ record { ok = true; line_number = 5; strings = assign_each two_texts [] }
load_po-print_po_example = load_po-print_po narrow two_texts [] ((refl, refl), ((refl, refl), tt))

load_po-plural_onto_example :
    load_po narrow (plural_onto (codes "a file") (codes "files") (codes "msgstr[0] \"x\"\n")) []
    ≡ record { ok = false; line_number = 3; strings = assign (codes "a file") (codes "files") [] }
load_po-plural_onto_example =
    load_po-plural_onto narrow (codes "a file") (codes "files") (codes "0] \"x\"\n") [] refl refl
