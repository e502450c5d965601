-- ===== src/Version/Order.antt =====
-- The order of keys is total, and it is antisymmetric and transitive.
use Prim.Native.Nat.{Ordering, lt, eq, gt}
use libappupdater.Prelude.{ℕ, List, [], ◌∷◌, ◌≡◌, refl, arith}
use libappupdater.Version.Keys.{compare_keys}

-- The sign of a comparison, turned round.
abbrev pub opposite : Ordering → Ordering
opposite lt = gt
opposite eq = eq
opposite gt = lt

pub compare_keys_refl : (xs : List ℕ) → compare_keys xs xs ≡ eq
unfolding compare_keys
compare_keys_refl [] = refl
compare_keys_refl (x ∷ xs) = ground (arith, compare_keys_refl xs)

pub compare_keys-swap : (xs ys : List ℕ) → compare_keys ys xs ≡ opposite (compare_keys xs ys)
unfolding compare_keys
compare_keys-swap [] [] = refl
compare_keys-swap [] (y ∷ ys) = ground (arith, compare_keys-swap [] ys)
compare_keys-swap (x ∷ xs) [] = ground (arith, compare_keys-swap xs [])
compare_keys-swap (x ∷ xs) (y ∷ ys) = ground (arith, compare_keys-swap xs ys)

-- `o` and `p` on the way from the first to the last, and `q` straight.
abbrev pub Chain : Ordering → Ordering → Ordering → Type 0
Chain lt lt q = q ≡ lt
Chain lt eq q = q ≡ lt
Chain eq p q = q ≡ p
Chain gt eq q = q ≡ gt
Chain gt gt q = q ≡ gt
Chain _ _ q = Unit {0}

pub compare_keys_trans :
    (xs ys zs : List ℕ) → Chain (compare_keys xs ys) (compare_keys ys zs) (compare_keys xs zs)
unfolding compare_keys
compare_keys_trans [] [] [] = refl
compare_keys_trans [] [] (z ∷ zs) = ground (arith, compare_keys_trans [] [] zs)
compare_keys_trans [] (y ∷ ys) [] = ground (arith, compare_keys_trans [] ys [])
compare_keys_trans [] (y ∷ ys) (z ∷ zs) = ground (arith, compare_keys_trans [] ys zs)
compare_keys_trans (x ∷ xs) [] [] = ground (arith, compare_keys_trans xs [] [])
compare_keys_trans (x ∷ xs) [] (z ∷ zs) = ground (arith, compare_keys_trans xs [] zs)
compare_keys_trans (x ∷ xs) (y ∷ ys) [] = ground (arith, compare_keys_trans xs ys [])
compare_keys_trans (x ∷ xs) (y ∷ ys) (z ∷ zs) = ground (arith, compare_keys_trans xs ys zs)
