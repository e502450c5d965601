-- ===== src/Sign/Markup.antt =====
-- sign/signmanifest.cpp: the printed item as XML, and the calls that the parser makes for it.
use libappupdater.CLib.{print_unsigned}
use libappupdater.Manifest.Parser.{Attrs}
use libappupdater.Manifest.Parser.Handlers.{Event, start_element, end_element, text}
use libappupdater.Prelude.{
  ℕ, Bytes, Bool, true, ◌||◌, ◌==◌, All, List, [], ◌∷◌, ◌++◌, map, ◌≡◌, refl, sym, ap, ◌∙◌, codes,
}
use libappupdater.Sign.Plain.{IsPlain, IsPlain-print_unsigned}
use libappupdater.Sign.{attributes_text, item_text}
use mathlib.Core.List.{append_assoc}

-- A piece of a text in XML: an element with a text, one that is empty, or blanks between elements.
pub data Node : Type 0 where
  element : Bytes → Bytes → Node
  empty_element : Bytes → Attrs → Node
  blank : Bytes → Node

-- Its texts stand for themselves in XML, so that the parser reads it from its markup.
abbrev pub is_gap : ℕ → Bool
is_gap c = c == 9 || c == 10

abbrev pub IsWellFormed : Node → Type 0
IsWellFormed (element name s) = IsPlain s
IsWellFormed (empty_element name attrs) = All (λ (a : Bytes × Bytes). IsPlain a.1) attrs
IsWellFormed (blank s) = All (λ c. is_gap c ≡ true) s

-- Its text, as XML 1.0 has it.
abbrev pub markup : Node → Bytes
markup (element name s) = codes "<" ++ name ++ codes ">" ++ s ++ codes "</" ++ name ++ codes ">"
markup (empty_element name attrs) =
    codes "<" ++ name ++ codes " " ++ attributes_text attrs ++ codes " />"
markup (blank s) = s

abbrev pub markups : List Node → Bytes
markups [] = []
markups (n ∷ ns) = markup n ++ markups ns

-- The calls for it; `pieces` is how the parser delivers a text.
abbrev pub calls : (Bytes → List Bytes) → Node → List Event
calls pieces (element name s) =
    start_element name [] ∷ (map text (pieces s) ++ end_element name ∷ [])
calls pieces (empty_element name attrs) = start_element name attrs ∷ end_element name ∷ []
calls pieces (blank s) = map text (pieces s)

abbrev pub all_calls : (Bytes → List Bytes) → List Node → List Event
all_calls pieces [] = []
all_calls pieces (n ∷ ns) = calls pieces n ++ all_calls pieces ns

-- The item, up to its enclosure, and whole.
abbrev pub head_nodes : ℕ → Bytes → List Node
head_nodes now pub_date =
    blank (codes "\n\t")
    ∷ element (codes "title") []
    ∷ blank (codes "\n\t")
    ∷ element (codes "link") []
    ∷ blank (codes "\n\t")
    ∷ element (codes "description") []
    ∷ blank (codes "\n\t")
    ∷ element (codes "published") (print_unsigned now)
    ∷ blank (codes "\n\t")
    ∷ element (codes "pubDate") pub_date
    ∷ blank (codes "\n\t")
    ∷ []

abbrev pub item_nodes : ℕ → Bytes → Attrs → List Node
item_nodes now pub_date enclosure =
    head_nodes now pub_date
    ++ empty_element (codes "enclosure") enclosure ∷ blank (codes "\n\n") ∷ []

pub all_calls-append :
    (pieces : Bytes → List Bytes) (xs ys : List Node)
    → all_calls pieces (xs ++ ys) ≡ all_calls pieces xs ++ all_calls pieces ys
all_calls-append pieces [] ys = refl
all_calls-append pieces (n ∷ xs) ys =
    ap (λ es. calls pieces n ++ es) (all_calls-append pieces xs ys)
    ∙ sym (append_assoc (calls pieces n) (all_calls pieces xs) (all_calls pieces ys))

pub item_nodes-IsWellFormed :
    (now : ℕ) (pub_date : Bytes) (enclosure : Attrs)
    → IsPlain pub_date
    → All (λ (a : Bytes × Bytes). IsPlain a.1) enclosure
    → All IsWellFormed (item_nodes now pub_date enclosure)
item_nodes-IsWellFormed now pub_date enclosure h k =
    let gap : IsWellFormed (blank (codes "\n\t")) = (refl, (refl, tt)) in
    (
      gap,
      (
        tt,
        (
          gap,
          (
            tt,
            (
              gap,
              (
                tt,
                (
                  gap,
                  (IsPlain-print_unsigned now, (gap, (h, (gap, (k, ((refl, (refl, tt)), tt)))))),
                ),
              ),
            ),
          ),
        ),
      ),
    )

-- The tool prints just this.
pub markups-item_nodes :
    (now : ℕ) (pub_date : Bytes) (enclosure : Attrs)
    → markups (item_nodes now pub_date enclosure) ≡ item_text now pub_date enclosure
markups-item_nodes now pub_date enclosure = simp append_assoc
