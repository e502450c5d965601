-- ===== src/Localisation/Po/RoundTrip.antt =====
-- localisation/NSLocalizedCollectionImpl.cpp: the texts that `load_po` reads, printed and read.
use libappupdater.Localisation.{Collection, assign, assign_each}
use libappupdater.Localisation.Po.{
  State, open_state, msg_id, plurals, get_tok, source_of, translation_of, token_part, po_part,
  po_loop, load_po,
}
use libappupdater.Localisation.Strings.{get_str, skip_return}
use libappupdater.Localisation.Strings.RoundTrip.{HasTexts}
use libappupdater.Localisation.Strings.RoundTrip.Quoted.{
  quoted_onto, length-quoted_onto, get_str-quoted_onto, get_str-gap,
}
use libappupdater.Prelude.{
  ℕ, zero, suc, ◌+◌, ◌*◌, ◌≤◌, Bytes, true, false, [], ◌∷◌, ◌++◌, some, ◌≡◌, refl, ap, ◌∙◌, arith,
  All, codes, str_eq, length, is_empty, ◌==◌,
}

-- A keyword and a text on a line, before `t`.
unfoldable pub line_onto : Bytes → Bytes → Bytes → Bytes
unfolding quoted_onto
line_onto word text t = word ++ (b' ' ∷ b'"' ∷ quoted_onto text (10 ∷ t))

unfoldable pub print_po : Collection → Bytes
unfolding line_onto
print_po [] = []
print_po ((key, value) ∷ es) =
    line_onto (codes "msgid") key (line_onto (codes "msgstr") value (print_po es))

get_str-line :
    (utf8 : ℕ → Bytes) (text t : Bytes)
    → is_empty text ≡ false
    → get_str utf8 (b' ' ∷ b'"' ∷ quoted_onto text (10 ∷ t)) ≡ some (text, 10 ∷ t)
get_str-line utf8 text t h =
    get_str-gap utf8 (b'"' ∷ quoted_onto text (10 ∷ t)) ∙ get_str-quoted_onto utf8 text (10 ∷ t) h

-- The rounds of the loop.
module _ (utf8 : ℕ → Bytes) (f line : ℕ) (id : Bytes) (c : Collection) where
  po_loop-newline :
      (state : State) (s : Bytes)
      → po_loop utf8 (suc f) state false line id (10 ∷ s) c
        ≡ po_loop utf8 f state true (line + 1) id (skip_return s) c
  unfolding po_loop po_part
  po_loop-newline state s = refl

  po_loop-msgid :
      (text t : Bytes)
      → is_empty text ≡ false
      → po_loop utf8 (suc f) open_state true line id (line_onto (codes "msgid") text t) c
        ≡ po_loop utf8 f msg_id false line text (10 ∷ t) c
  unfolding po_loop po_part token_part get_tok str_eq line_onto source_of
  po_loop-msgid text t h = rw (po_loop, get_str-line utf8 text t h)

  po_loop-msgstr :
      (text t : Bytes)
      → is_empty text ≡ false
      → po_loop utf8 (suc f) msg_id true line id (line_onto (codes "msgstr") text t) c
        ≡ po_loop utf8 f open_state false line id (10 ∷ t) (assign id text c)
  unfolding po_loop po_part token_part get_tok str_eq line_onto translation_of
  po_loop-msgstr text t h = rw (po_loop, get_str-line utf8 text t h)

  po_loop-plural :
      (text t : Bytes)
      → is_empty text ≡ false
      → po_loop utf8 (suc f) msg_id true line id (line_onto (codes "msgid_plural") text t) c
        ≡ po_loop utf8 f plurals false line id (10 ∷ t) (assign id text c)
  unfolding po_loop po_part token_part get_tok str_eq line_onto translation_of
  po_loop-plural text t h = rw (po_loop, get_str-line utf8 text t h)

skip_return-line_onto :
    (c : ℕ) (word text t : Bytes)
    → (c == 13) ≡ false
    → skip_return (line_onto (c ∷ word) text t) ≡ line_onto (c ∷ word) text t
unfolding skip_return line_onto
skip_return-line_onto c word text t h = rw h

skip_return-print_po : (es : Collection) → skip_return (print_po es) ≡ print_po es
unfolding skip_return print_po line_onto
skip_return-print_po [] = refl
skip_return-print_po ((key, value) ∷ es) = refl

-- The four rounds of an entry.
po_loop-entry :
    (utf8 : ℕ → Bytes) (f line : ℕ) (id key value t : Bytes) (c : Collection)
    → is_empty key ≡ false
    → is_empty value ≡ false
    → skip_return t ≡ t
    → po_loop utf8
        (suc (suc (suc (suc f))))
        open_state
        true
        line
        id
        (line_onto (codes "msgid") key (line_onto (codes "msgstr") value t))
        c
      ≡ po_loop utf8 f open_state true (line + 2) key t (assign key value c)
po_loop-entry utf8 f line id key value t c hk hv ht =
    po_loop-msgid utf8 (suc (suc (suc f))) line id c key (line_onto (codes "msgstr") value t) hk
    ∙ po_loop-newline utf8 (suc (suc f)) line key c msg_id (line_onto (codes "msgstr") value t)
    ∙ ap (λ s. po_loop utf8 (suc (suc f)) msg_id true (line + 1) key s c)
        (skip_return-line_onto b'm' (codes "sgstr") value t refl)
    ∙ po_loop-msgstr utf8 (suc f) (line + 1) key c value t hv
    ∙ po_loop-newline utf8 f (line + 1) key (assign key value c) open_state t
    ∙ ap (λ s. po_loop utf8 f open_state true (line + 1 + 1) key s (assign key value c)) ht
    ∙ ap (λ n. po_loop utf8 f open_state true n key t (assign key value c)) {x = line + 1 + 1}
        (omega arith)

po_loop-print_po :
    (utf8 : ℕ → Bytes) (f line : ℕ) (id : Bytes) (es c : Collection)
    → All HasTexts es
    → 4 * length es ≤ f
    → po_loop utf8 f open_state true line id (print_po es) c
      ≡ record { ok = true; line_number = line + 2 * length es; strings = assign_each es c }
unfolding po_loop print_po
po_loop-print_po utf8 f line id [] c h k =
    ap (λ n. record { ok = true; line_number = n; strings = c }) (omega arith)
po_loop-print_po utf8 (suc (suc (suc (suc f)))) line id ((key, value) ∷ es) c ((hk, hv), hs) k =
    po_loop-entry utf8 f line id key value (print_po es) c hk hv (skip_return-print_po es)
    ∙ po_loop-print_po utf8 f (line + 2) key es (assign key value c) hs (omega (arith, k))
    ∙ ap (λ n. record { ok = true; line_number = n; strings = assign_each es (assign key value c) })
        (omega arith)
po_loop-print_po utf8 zero line id (e ∷ es) c h k = absurd (omega (arith, k))
po_loop-print_po utf8 (suc zero) line id (e ∷ es) c h k = absurd (omega (arith, k))
po_loop-print_po utf8 (suc (suc zero)) line id (e ∷ es) c h k = absurd (omega (arith, k))
po_loop-print_po utf8 (suc (suc (suc zero))) line id (e ∷ es) c h k = absurd (omega (arith, k))

length-print_po : (es : Collection) → 4 * length es ≤ length (print_po es)
unfolding print_po line_onto
length-print_po [] = omega arith
length-print_po ((key, value) ∷ es) =
    let tail = line_onto (codes "msgstr") value (print_po es) in
    omega (
      arith,
      length-print_po es,
      length-quoted_onto key (10 ∷ tail),
      length-quoted_onto value (10 ∷ print_po es),
    )

-- A PO text of entries without plural forms, none of whose texts is empty, is loaded whole: each
-- entry is assigned, in the order of the text, and the line number that is left is one more than
-- twice the number of entries, each of which has two line breaks outside of its texts; a line break
-- within a text is not counted.
pub load_po-print_po :
    (utf8 : ℕ → Bytes) (es c : Collection)
    → All HasTexts es
    → load_po utf8 (print_po es) c
      ≡ record { ok = true; line_number = 1 + 2 * length es; strings = assign_each es c }
unfolding load_po
load_po-print_po utf8 es c h =
    po_loop-print_po utf8 (length (print_po es)) 1 [] es c h (length-print_po es)

-- An entry with a plural form, before `t`.
unfoldable pub plural_onto : Bytes → Bytes → Bytes → Bytes
unfolding line_onto
plural_onto id many t = line_onto (codes "msgid") id (line_onto (codes "msgid_plural") many t)

-- The round at a `msgstr[`.
po_loop-indexed :
    (utf8 : ℕ → Bytes) (f line : ℕ) (id t : Bytes) (c : Collection)
    → po_loop utf8 (suc f) plurals true line id (codes "msgstr[" ++ t) c
      ≡ record { ok = false; line_number = line; strings = c }
unfolding po_loop po_part token_part get_tok str_eq
po_loop-indexed utf8 f line id t c = refl

length-plural_onto : (key many t : Bytes) → 5 ≤ length (plural_onto key many t)
unfolding plural_onto line_onto
length-plural_onto key many t = omega arith

po_loop-plural_onto :
    (utf8 : ℕ → Bytes) (f line : ℕ) (id key many t : Bytes) (c : Collection)
    → is_empty key ≡ false
    → is_empty many ≡ false
    → po_loop utf8
        (suc (suc (suc (suc (suc f)))))
        open_state
        true
        line
        id
        (plural_onto key many (codes "msgstr[" ++ t))
        c
      ≡ record { ok = false; line_number = line + 1 + 1; strings = assign key many c }
unfolding plural_onto skip_return
po_loop-plural_onto utf8 f line id key many t c hk hm =
    let last = codes "msgstr[" ++ t in
    let next = line_onto (codes "msgid_plural") many last in
    po_loop-msgid utf8 (suc (suc (suc (suc f)))) line id c key next hk
    ∙ po_loop-newline utf8 (suc (suc (suc f))) line key c msg_id next
    ∙ ap (λ s. po_loop utf8 (suc (suc (suc f))) msg_id true (line + 1) key s c)
        (skip_return-line_onto b'm' (codes "sgid_plural") many last refl)
    ∙ po_loop-plural utf8 (suc (suc f)) (line + 1) key c many last hm
    ∙ po_loop-newline utf8 (suc f) (line + 1) key (assign key many c) plurals last
    ∙ po_loop-indexed utf8 f (line + 1 + 1) key t (assign key many c)

-- An entry whose plural forms follow it, as the format of PO files has them, is refused at the
-- first of them, whatever follows; its `msgid` has then the text of its `msgid_plural`.
pub load_po-plural_onto :
    (utf8 : ℕ → Bytes) (key many t : Bytes) (c : Collection)
    → is_empty key ≡ false
    → is_empty many ≡ false
    → load_po utf8 (plural_onto key many (codes "msgstr[" ++ t)) c
      ≡ record { ok = false; line_number = 3; strings = assign key many c }
unfolding load_po
load_po-plural_onto utf8 key many t c hk hm =
    go (length (plural_onto key many (codes "msgstr[" ++ t)))
      (length-plural_onto key many (codes "msgstr[" ++ t))
  where
    go :
        (n : ℕ)
        → 5 ≤ n
        → po_loop utf8 n open_state true 1 [] (plural_onto key many (codes "msgstr[" ++ t)) c
          ≡ record { ok = false; line_number = 3; strings = assign key many c }
    go (suc (suc (suc (suc (suc f))))) h = po_loop-plural_onto utf8 f 1 [] key many t c hk hm
    go zero h = absurd (omega (arith, h))
    go (suc zero) h = absurd (omega (arith, h))
    go (suc (suc zero)) h = absurd (omega (arith, h))
    go (suc (suc (suc zero))) h = absurd (omega (arith, h))
    go (suc (suc (suc (suc zero)))) h = absurd (omega (arith, h))
