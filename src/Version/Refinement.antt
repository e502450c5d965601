-- ===== src/Version/Refinement.antt =====
-- `CompareComponent` computes the order of keys, whatever plain texts it is given.
mod Numbers
mod Inner
mod Sides
mod Rounds
use Prim.Native.Nat.{Ordering, lt, gt, compare}
use libappupdater.CLib.{saturate, digits_from, strtol}
use libappupdater.Prelude.{
  ℕ, zero, suc, ◌+◌, ◌-◌, ◌*◌, ◌≤◌, ◌<◌, Bytes, Bool, not, true, false, List, [], ◌∷◌, none, some,
  ◌≡◌, refl, ◌⊎◌, inl, inr, arith, ◌==◌, is_digit, length, if◌then◌else◌, Bool-cases, sym, ◌∙◌,
}
use libappupdater.Prelude.Int.{pos, eq_ℤ, lt_ℤ}
use libappupdater.Version.Keys.{rank, keys_after, keys, compare_keys, and_then, IsPlain}
use libappupdater.Version.{
  first_difference, Texts, differ, reached, compare_texts, Round, returned, continued,
  compare_numbers, after_texts, end_round, round, after_loop, compare_loop, compare_component,
}
use libappupdater.CLib.Decimal.{StartsText}
use libappupdater.Version.Refinement.Numbers.{
  digits_from-StartsText, digits_from-IsPlain, length-digits_from, keys_after-digits_from,
  number_of, strtol-number_of, number_of-IsPlain, number_of-StartsText, length-number_of,
  length-number_of-digit,
}
use libappupdater.Version.Refinement.Inner.{
  order_of_texts, order_of_round, keys_after-nil, keys_after-digit, keys_after-text,
  rank_difference, compare_keys_texts, compare_texts_first, compare_texts_same, compare_texts-order,
}
use libappupdater.Version.Refinement.Sides.{
  Settled, numbers_decide, compare_numbers-number_of, value_of, keys_behind, compare_suc,
  Settled-keys,
}
use libappupdater.Version.Refinement.Rounds.{
  IsLeft, LeavesText, compare_numbers-LeavesText, Agrees, compare_numbers-Agrees,
  text_against_digit, digit_against_text, after_texts-Agrees, LeavesTexts, LeavesText-mono,
  Agrees-mono, compare_texts_step, compare_texts-LeavesTexts, end_round-Agrees, round-Agrees,
}

mark_left :
    (y : ℕ) (o : Ordering) → and_then (compare 1 (rank y)) o ≡ and_then (compare 2 (rank y)) o
mark_left y o = ground arith

mark_right :
    (x : ℕ) (o : Ordering) → and_then (compare (rank x) 1) o ≡ and_then (compare (rank x) 2) o
mark_right x o = ground arith

-- Two texts that are not empty compare alike with the mark of their very start and without it.
keys_of_nonempty :
    (x y : ℕ) (a b : Bytes)
    → IsPlain (x ∷ a)
    → IsPlain (y ∷ b)
    → compare_keys (keys_after none (x ∷ a)) (keys_after none (y ∷ b))
      ≡ compare_keys (keys (x ∷ a)) (keys (y ∷ b))
unfolding keys keys_after compare_keys
keys_of_nonempty x y a b h k = elim (Bool-cases (is_digit x)) [
  | inl d ↦ elim (Bool-cases (is_digit y)) [
    | inl e ↦ rw (d, e)
    | inr u ↦
        rw (d, u) (mark_left y (compare_keys (keys_after (some (x - b'0')) a) (keys_after none b)))
  ]
  | inr t ↦ elim (Bool-cases (is_digit y)) [
    | inl e ↦
        rw (t, e) (mark_right x (compare_keys (keys_after none a) (keys_after (some (y - b'0')) b)))
    | inr u ↦ rw (t, u)
  ]
]

keys_of_text : (a : Bytes) → StartsText a → keys_after none a ≡ keys a
unfolding keys keys_after
keys_of_text [] t = refl
keys_of_text (x ∷ a) t = rw t

after_loop-keys :
    (a b : Bytes)
    → IsPlain a
    → IsPlain b
    → a ≡ [] ⊎ b ≡ []
    → after_loop a b ≡ compare_keys (keys a) (keys b)
unfolding after_loop keys compare_keys
after_loop-keys [] [] h k e = refl
after_loop-keys [] (y ∷ b) h k e = ground arith
after_loop-keys (x ∷ a) [] h k e = ground arith
after_loop-keys (x ∷ a) (y ∷ b) h k e = ground arith

-- The outer loop after a round, if it is right with less fuel.
after_round :
    {n : ℕ} {a b : Bytes} (f : ℕ) (r : Round)
    → Agrees n a b r
    → n ≤ f
    → ((c d : Bytes)
        → length c ≤ f
        → IsPlain c
        → IsPlain d
        → compare_loop f c d ≡ compare_keys (keys c) (keys d))
    → (elim r [ returned o ↦ o | continued c d ↦ compare_loop f c d ])
      ≡ compare_keys (keys_after none a) (keys_after none b)
after_round f (returned o) g le ih = g.ordered
after_round f (continued c d) g le ih =
    let l = g.leaves in
    ih c d (omega arith) l.plain_a l.plain_b
    ∙ rw (← keys_of_text c l.text_a, ← keys_of_text d l.text_b) g.ordered

compare_loop-keys :
    (f : ℕ) (a b : Bytes)
    → length a ≤ f
    → IsPlain a
    → IsPlain b
    → compare_loop f a b ≡ compare_keys (keys a) (keys b)
unfolding compare_loop
compare_loop-keys zero [] b le h k = after_loop-keys [] b h k (inl refl)
compare_loop-keys (suc f) [] b le h k = after_loop-keys [] b h k (inl refl)
compare_loop-keys (suc f) (x ∷ a) [] le h k = after_loop-keys (x ∷ a) [] h k (inr refl)
compare_loop-keys zero (x ∷ a) b le h k = absurd (omega arith)
compare_loop-keys (suc f) (x ∷ a) (y ∷ b) le h k =
    after_round f (round (x ∷ a) (y ∷ b)) (round-Agrees x y a b h k) (omega arith)
      (compare_loop-keys f)
    ∙ keys_of_nonempty x y a b h k

-- On plain texts `CompareComponent` is the padded lexicographic order of the keys of its arguments.
pub compare_component-keys :
    (a b : Bytes) → IsPlain a → IsPlain b → compare_component a b ≡ compare_keys (keys a) (keys b)
unfolding compare_component
compare_component-keys a b = compare_loop-keys (length a) a b (omega arith)
