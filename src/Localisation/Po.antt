-- ===== src/Localisation/Po.antt =====
-- localisation/NSLocalizedCollectionImpl.cpp: `load_po` of a text, with `get_tok`.
pub mod Progress
pub mod RoundTrip
use libappupdater.Localisation.{Collection, assign}
use libappupdater.Localisation.Strings.{is_gap, get_str, skip_line, skip_return, Loading}
use libappupdater.Prelude.{
  ℕ, zero, suc, ◌+◌, Bytes, Bool, true, false, ◌||◌, [], ◌∷◌, Option, none, some, ◌==◌, codes,
  str_eq, length, if◌then◌else◌,
}

-- `state`: between entries, behind a `msgid`, or behind a `msgid_plural`.
pub data State : Type 0 where
  open_state msg_id plurals : State

-- `get_tok`: the word at the front, and what follows it. The caller has a character.
unfoldable pub get_tok : Bytes → Bytes × Bytes
get_tok [] = ([], [])
get_tok (c ∷ s) =
    let (token, rest) = get_tok s in if is_gap c || c == 10 then ([], c ∷ s) else (c ∷ token, rest)

-- What one round finds: an error, a part without meaning, the end of a line, the text of a `msgid`,
-- or that of a `msgstr` or `msgid_plural`, with the state that follows.
pub data Part : Type 0 where
  bad : Part
  nothing newline : Bytes → Part
  source : Bytes → Bytes → Part
  translation : State → Bytes → Bytes → Part

unfoldable pub source_of : Option (Bytes × Bytes) → Part
source_of none = bad
source_of (some (text, rest)) = source text rest

unfoldable pub translation_of : State → Option (Bytes × Bytes) → Part
translation_of state none = bad
translation_of state (some (text, rest)) = translation state text rest

-- A token at the start of a line. The branch for `msgstr[n]` asks for the state `plurals`, which
-- the first branch has taken already.
unfoldable pub token_part : (ℕ → Bytes) → State → Bytes × Bytes → Part
unfolding get_str str_eq source_of translation_of
token_part utf8 msg_id (token, rest) =
    if str_eq token (codes "msgstr")
    then translation_of open_state (get_str utf8 rest)
    else if str_eq token (codes "msgid_plural")
    then translation_of plurals (get_str utf8 rest)
    else bad
token_part utf8 state (token, rest) =
    if str_eq token (codes "msgid") then source_of (get_str utf8 rest) else bad

-- One round, at the character `c`.
unfoldable pub po_part : (ℕ → Bytes) → State → Bool → ℕ → Bytes → Part
unfolding skip_line skip_return get_tok token_part
po_part utf8 state fresh c s =
    if c == b'#'
    then nothing (skip_line s)
    else if is_gap c
    then nothing s
    else if c == 10
    then newline (skip_return s)
    else if fresh
    then token_part utf8 state (get_tok (c ∷ s))
    else bad

abbrev pub is_open : State → Bool
is_open open_state = true
is_open _ = false

-- The loop of `load_po`, with the text of the last `msgid`.
unfoldable pub po_loop : (ℕ → Bytes) → ℕ → State → Bool → ℕ → Bytes → Bytes → Collection → Loading
unfolding po_part
po_loop utf8 fuel state fresh line msgid [] c = record {
  ok = is_open state;
  line_number = line;
  strings = c;
}
po_loop utf8 zero state fresh line msgid (x ∷ s) c = record {
  ok = false;
  line_number = line;
  strings = c;
}
po_loop utf8 (suc fuel) state fresh line msgid (x ∷ s) c = elim (po_part utf8 state fresh x s) [
  | bad ↦ record { ok = false; line_number = line; strings = c }
  | nothing rest ↦ po_loop utf8 fuel state fresh line msgid rest c
  | newline rest ↦ po_loop utf8 fuel state true (line + 1) msgid rest c
  | source text rest ↦ po_loop utf8 fuel msg_id false line text rest c
  | translation next text rest ↦ po_loop utf8 fuel next false line msgid rest (assign msgid text c)
]

-- `load_po`
unfoldable pub load_po : (ℕ → Bytes) → Bytes → Collection → Loading
unfolding po_loop
load_po utf8 s c = po_loop utf8 (length s) open_state true 1 [] s c
