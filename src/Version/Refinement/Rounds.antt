-- ===== src/Version/Refinement/Rounds.antt =====
-- One round of the outer loop of `CompareComponent`.
use Prim.Native.Nat.{Ordering, lt, gt, compare}
use libappupdater.CLib.{saturate}
use libappupdater.Prelude.{
  ℕ, ◌+◌, ◌≤◌, ◌<◌, Bytes, Bool, not, true, false, [], ◌∷◌, none, ◌≡◌, ◌⊎◌, inl, inr, arith, ◌==◌,
  is_digit, length, if◌then◌else◌, Bool-cases, ◌∙◌,
}
use libappupdater.Prelude.Int.{pos, eq_ℤ}
use libappupdater.Version.Keys.{rank, keys_after, compare_keys, and_then, IsPlain}
use libappupdater.Version.{
  Texts, differ, reached, compare_texts, Round, returned, continued, compare_numbers, after_texts,
  end_round, round,
}
use libappupdater.CLib.Decimal.{StartsText}
use libappupdater.Version.Refinement.Numbers.{
  number_of, strtol-number_of, number_of-IsPlain, number_of-StartsText, length-number_of,
  length-number_of-digit,
}
use libappupdater.Version.Refinement.Inner.{
  order_of_texts, order_of_round, keys_after-digit, keys_after-text, compare_texts-order,
}
use libappupdater.Version.Refinement.Sides.{
  Settled, compare_numbers-number_of, value_of, keys_behind, Settled-keys,
}

-- A round leaves both sides at the end or at text, plain, and the first not longer than it was.
pub record IsLeft (n : ℕ) (a b : Bytes) : Type 0 where
  pub plain_a : IsPlain a
  pub plain_b : IsPlain b
  pub text_a : StartsText a
  pub text_b : StartsText b
  pub bound : length a ≤ n

abbrev pub LeavesText : ℕ → Round → Type 0
LeavesText n (returned o) = Unit {0}
LeavesText n (continued a b) = IsLeft n a b

pub compare_numbers-LeavesText :
    (n : ℕ) (a b : Bytes)
    → IsPlain a
    → IsPlain b
    → length (number_of a).1 ≤ n
    → LeavesText n (compare_numbers a b)
unfolding compare_numbers
compare_numbers-LeavesText n a b h k bound =
    rw (strtol-number_of a h, strtol-number_of b k)
      (go (not (eq_ℤ (pos (saturate (number_of a).0)) (pos (saturate (number_of b).0)))) _)
  where
    go :
        (c : Bool) (o : Ordering)
        → LeavesText n (if c then returned o else continued (number_of a).1 (number_of b).1)
    go true o = tt
    go false o = record {
      plain_a = number_of-IsPlain a h;
      plain_b = number_of-IsPlain b k;
      text_a = number_of-StartsText a;
      text_b = number_of-StartsText b;
      bound = bound;
    }

-- Behind the inner loop: the order of the keys, and what is left.
pub record Agrees (n : ℕ) (a b : Bytes) (r : Round) : Type 0 where
  pub ordered : order_of_round r ≡ compare_keys (keys_after none a) (keys_after none b)
  pub leaves : LeavesText n r

pub compare_numbers-Agrees :
    (n : ℕ) (a b : Bytes)
    → IsPlain a
    → IsPlain b
    → Settled a b
    → length (number_of a).1 ≤ n
    → Agrees n a b (compare_numbers a b)
compare_numbers-Agrees n a b h k t bound = record {
  ordered = compare_numbers-number_of a b h k ∙ Settled-keys a b t;
  leaves = compare_numbers-LeavesText n a b h k bound;
}

-- A character against a digit, both ways round.
pub text_against_digit :
    (x y : ℕ) (o : Ordering)
    → x < 256
    → y < 256
    → is_digit x ≡ false
    → is_digit y ≡ true
    → (if x == b'~' then lt else if y == b'~' then gt else gt) ≡ and_then (compare (rank x) 1) o
text_against_digit x y o h k t d = ground arith

pub digit_against_text :
    (x y : ℕ) (o : Ordering)
    → x < 256
    → y < 256
    → is_digit x ≡ true
    → is_digit y ≡ false
    → (if x == b'~' then lt else if y == b'~' then gt else lt) ≡ and_then (compare 1 (rank y)) o
digit_against_text x y o h k d t = ground arith

pub after_texts-Agrees :
    (x y : ℕ) (a b : Bytes)
    → IsPlain (x ∷ a)
    → IsPlain (y ∷ b)
    → is_digit x ≡ true ⊎ is_digit y ≡ true
    → Agrees (length a) (x ∷ a) (y ∷ b) (after_texts (x ∷ a) (y ∷ b))
unfolding after_texts compare_keys
after_texts-Agrees x y a b (p, h) (q, k) s = elim (Bool-cases (is_digit x)) [
  | inl d ↦ elim (Bool-cases (is_digit y)) [
    | inl e ↦
        rw (d, e)
          (compare_numbers-Agrees (length a) (x ∷ a) (y ∷ b) (p, h) (q, k) (d, e)
            (length-number_of-digit x a d))
    | inr u ↦
        rw (d, u)
          (record {
            ordered =
                rw (keys_after-digit x a d, keys_after-text y b u)
                  (digit_against_text x y
                    (compare_keys ((value_of (x ∷ a) + 1) ∷ keys_behind (x ∷ a))
                      (keys_after none b))
                    p.in_range q.in_range d u);
            leaves = tt;
          })
  ]
  | inr t ↦ elim (Bool-cases (is_digit y)) [
    | inl e ↦ rw t (record {
      ordered =
          rw (keys_after-text x a t, keys_after-digit y b e)
            (text_against_digit x y
              (compare_keys (keys_after none a) ((value_of (y ∷ b) + 1) ∷ keys_behind (y ∷ b)))
              p.in_range q.in_range t e);
      leaves = tt;
    })
    | inr u ↦ absurd (elim s [ inl d ↦ cc | inr e ↦ cc ])
  ]
]

abbrev pub LeavesTexts : ℕ → Texts → Type 0
LeavesTexts n (differ o) = Unit {0}
LeavesTexts n (reached a b) = Agrees n a b (after_texts a b)

pub LeavesText-mono : {m n : ℕ} (r : Round) → m ≤ n → LeavesText m r → LeavesText n r
LeavesText-mono (returned o) le l = tt
LeavesText-mono (continued a b) le l = record {
  plain_a = l.plain_a;
  plain_b = l.plain_b;
  text_a = l.text_a;
  text_b = l.text_b;
  bound = omega arith;
}

pub Agrees-mono : {m n : ℕ} {a b : Bytes} (r : Round) → m ≤ n → Agrees m a b r → Agrees n a b r
Agrees-mono r le g = record { ordered = g.ordered; leaves = LeavesText-mono r le g.leaves }

-- The inner loop at two characters, from what is known one character on.
pub compare_texts_step :
    (n x y : ℕ) (a b : Bytes)
    → IsPlain (x ∷ a)
    → IsPlain (y ∷ b)
    → length a ≤ n
    → LeavesTexts n (compare_texts a b)
    → LeavesTexts n (compare_texts (x ∷ a) (y ∷ b))
unfolding compare_texts
compare_texts_step n x y a b h k le later = elim (Bool-cases (is_digit x)) [
  | inl d ↦ rw d (Agrees-mono _ le (after_texts-Agrees x y a b h k (inl d)))
  | inr t ↦ elim (Bool-cases (is_digit y)) [
    | inl e ↦ rw (t, e) (Agrees-mono _ le (after_texts-Agrees x y a b h k (inr e)))
    | inr u ↦ elim (Bool-cases (x == y)) [
      | inl same ↦ rw (t, u, same) later
      | inr other ↦ rw (t, u, other) tt
    ]
  ]
]

pub compare_texts-LeavesTexts :
    (n : ℕ) (a b : Bytes) → IsPlain a → IsPlain b → length a ≤ n → LeavesTexts n (compare_texts a b)
compare_texts-LeavesTexts n [] b h k le =
    unfold compare_texts after_texts in compare_numbers-Agrees n [] b h k tt (omega arith)
compare_texts-LeavesTexts n (x ∷ a) [] h k le =
    unfold compare_texts after_texts in
    compare_numbers-Agrees n (x ∷ a) [] h k tt (omega (arith, length-number_of (x ∷ a)))
compare_texts-LeavesTexts n (x ∷ a) (y ∷ b) h k le =
    compare_texts_step n x y a b h k (omega arith)
      (compare_texts-LeavesTexts n a b h.1 k.1 (omega arith))

pub end_round-Agrees :
    {n : ℕ} {a b : Bytes} (t : Texts)
    → order_of_texts t ≡ compare_keys (keys_after none a) (keys_after none b)
    → LeavesTexts n t
    → Agrees n a b (end_round t)
unfolding end_round
end_round-Agrees (differ o) e l = record { ordered = e; leaves = tt }
end_round-Agrees (reached a' b') e l = record { ordered = l.ordered ∙ e; leaves = l.leaves }

pub round-Agrees :
    (x y : ℕ) (a b : Bytes)
    → IsPlain (x ∷ a)
    → IsPlain (y ∷ b)
    → Agrees (length a) (x ∷ a) (y ∷ b) (round (x ∷ a) (y ∷ b))
unfolding round
round-Agrees x y a b h k =
    end_round-Agrees (compare_texts (x ∷ a) (y ∷ b)) (compare_texts-order (x ∷ a) (y ∷ b) h k) (
      compare_texts_step (length a) x y a b h k (omega arith)
        (compare_texts-LeavesTexts (length a) a b h.1 k.1 (omega arith)))
