-- ===== src/Version/Refinement/Inner.antt =====
-- The inner loop of `CompareComponent` and the keys of what it passes over.
use Prim.Native.Nat.{Ordering, compare}
use libappupdater.CLib.{saturate, digits_from}
use libappupdater.Prelude.{
  ℕ, ◌+◌, ◌-◌, ◌<◌, Bytes, true, false, [], ◌∷◌, none, ◌≡◌, refl, inl, inr, arith, ◌==◌, is_digit,
  Bool-cases, sym, ◌∙◌,
}
use libappupdater.Version.Keys.{rank, keys_after, compare_keys, and_then, IsPlain}
use libappupdater.Version.{
  first_difference, Texts, differ, reached, compare_texts, Round, returned, continued,
}
use libappupdater.Version.Refinement.Numbers.{keys_after-digits_from}

abbrev pub order_of_texts : Texts → Ordering
order_of_texts (differ o) = o
order_of_texts (reached a b) = compare_keys (keys_after none a) (keys_after none b)

abbrev pub order_of_round : Round → Ordering
order_of_round (returned o) = o
order_of_round (continued a b) = compare_keys (keys_after none a) (keys_after none b)

pub keys_after-nil : keys_after none [] ≡ []
unfolding keys_after
keys_after-nil = refl

pub keys_after-digit :
    (c : ℕ) (s : Bytes)
    → is_digit c ≡ true
    → keys_after none (c ∷ s)
      ≡ 1 ∷ (saturate (digits_from 0 (c ∷ s)).0 + 1) ∷ keys_after none (digits_from 0 (c ∷ s)).1
unfolding keys_after digits_from
keys_after-digit c s d = ground (arith, keys_after-digits_from (c - b'0') s)

pub keys_after-text :
    (c : ℕ) (s : Bytes) → is_digit c ≡ false → keys_after none (c ∷ s) ≡ rank c ∷ keys_after none s
unfolding keys_after
keys_after-text c s t = rw t

pub rank_difference :
    (x y : ℕ)
    → x < 256
    → y < 256
    → (x == y) ≡ false
    → (o : Ordering) → and_then (compare (rank x) (rank y)) o ≡ first_difference x y
rank_difference x y h k ne o = ground arith

pub compare_keys_texts :
    (x y : ℕ) (a b : Bytes)
    → is_digit x ≡ false
    → is_digit y ≡ false
    → compare_keys (keys_after none (x ∷ a)) (keys_after none (y ∷ b))
      ≡ and_then (compare (rank x) (rank y)) (compare_keys (keys_after none a) (keys_after none b))
unfolding compare_keys
compare_keys_texts x y a b t u = rw (keys_after-text x a t, keys_after-text y b u)

pub compare_texts_first :
    (x y : ℕ) (a b : Bytes)
    → x < 256
    → y < 256
    → (x == y) ≡ false
    → is_digit x ≡ false
    → is_digit y ≡ false
    → compare_keys (keys_after none (x ∷ a)) (keys_after none (y ∷ b)) ≡ first_difference x y
compare_texts_first x y a b h k ne t u =
    compare_keys_texts x y a b t u ∙ rank_difference x y h k ne _

pub compare_texts_same :
    (x y : ℕ) (a b : Bytes)
    → (x == y) ≡ true
    → is_digit x ≡ false
    → is_digit y ≡ false
    → compare_keys (keys_after none (x ∷ a)) (keys_after none (y ∷ b))
      ≡ compare_keys (keys_after none a) (keys_after none b)
compare_texts_same x y a b e t u =
    compare_keys_texts x y a b t u
    ∙ ground (arith, compare_keys (keys_after none a) (keys_after none b))

pub compare_texts-order :
    (a b : Bytes)
    → IsPlain a
    → IsPlain b
    → order_of_texts (compare_texts a b) ≡ compare_keys (keys_after none a) (keys_after none b)
unfolding compare_texts
compare_texts-order [] b h k = refl
compare_texts-order (x ∷ a) [] h k = refl
compare_texts-order (x ∷ a) (y ∷ b) (p, h) (q, k) = elim (Bool-cases (is_digit x)) [
  | inl d ↦ rw d
  | inr t ↦ elim (Bool-cases (is_digit y)) [
    | inl d ↦ rw (t, d)
    | inr u ↦ elim (Bool-cases (x == y)) [
      | inl e ↦ rw (t, u, e) (compare_texts-order a b h k ∙ sym (compare_texts_same x y a b e t u))
      | inr ne ↦ rw (t, u, ne) (sym (compare_texts_first x y a b p.in_range q.in_range ne t u))
    ]
  ]
]
