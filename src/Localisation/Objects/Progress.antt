-- ===== src/Localisation/Objects/Progress.antt =====
-- localisation/NSLocalizedCollectionImpl.cpp: each round of `load_object` consumes some of the
-- data, so that the fuel given is enough.
use libappupdater.Localisation.{Collection, assign}
use libappupdater.Localisation.Objects.{Entry, read_texts, read_lengths, read_entry, object_loop}
use libappupdater.Prelude.{
  ℕ, zero, suc, ◌+◌, ◌*◌, ◌≤◌, ◌<◌, Bytes, [], ◌∷◌, Option, none, some, ◌≡◌, refl, sym, arith, ltb,
  leb, length, drop, if◌then◌else◌, true, false, Bool,
}

length-drop : (n : ℕ) (s : Bytes) → length (drop n s) ≤ length s
length-drop zero s = omega arith
length-drop (suc n) [] = omega arith
length-drop (suc n) (x ∷ s) = omega (arith, length-drop n s)

-- What an entry leaves of some data.
abbrev Behind : ℕ → Option Entry → Type 0
Behind n none = Unit {0}
Behind n (some (key, value, rest)) = length rest < n

Behind-if : (n : ℕ) (b : Bool) (x : Option Entry) → Behind n x → Behind n (if b then x else none)
Behind-if n true x h = h
Behind-if n false x h = tt

read_texts-Behind : (l m : ℕ) (s : Bytes) → Behind (suc (length s)) (read_texts l m s)
unfolding read_texts
read_texts-Behind l m s =
    Behind-if (suc (length s)) (leb (l + m + 2) (length s)) _
      (omega (arith, length-drop (l + 1) s, length-drop (m + 1) (drop (l + 1) s)))

Behind-mono : (m n : ℕ) (o : Option Entry) → m ≤ n → Behind m o → Behind n o
Behind-mono m n none le h = tt
Behind-mono m n (some (key, value, rest)) le h = omega (arith, le, h)

read_lengths-Behind : (s : Bytes) → Behind (length s) (read_lengths s)
read_lengths-Behind (a ∷ b ∷ x ∷ y ∷ s) =
    Behind-mono (suc (length s)) (length (a ∷ b ∷ x ∷ y ∷ s))
      (read_texts (a * 256 + b) (x * 256 + y) s) (omega arith)
      (read_texts-Behind (a * 256 + b) (x * 256 + y) s)
read_lengths-Behind [] = tt
read_lengths-Behind (a ∷ []) = tt
read_lengths-Behind (a ∷ b ∷ []) = tt
read_lengths-Behind (a ∷ b ∷ x ∷ []) = tt

read_entry-Behind : (s : Bytes) → Behind (length s) (read_entry s)
unfolding read_entry
read_entry-Behind s =
    Behind-if (length s) (ltb 6 (length s)) (read_lengths s) (read_lengths-Behind s)

object_loop-nil : (f : ℕ) (c : Collection) → object_loop f [] c ≡ c
unfolding object_loop read_entry
object_loop-nil zero c = refl
object_loop-nil (suc f) c = refl

-- The loop over an object has enough fuel: with any two amounts, each at least the length of the
-- data, it gives the same collection.
pub object_loop-length :
    (f g : ℕ) (s : Bytes) (c : Collection)
    → length s ≤ f
    → length s ≤ g
    → object_loop f s c ≡ object_loop g s c
unfolding object_loop
object_loop-length zero g [] c h k = sym (object_loop-nil g c)
object_loop-length (suc f) zero [] c h k = object_loop-nil (suc f) c
object_loop-length zero g (x ∷ s) c h k = absurd (omega (arith, h))
object_loop-length (suc f) zero (x ∷ s) c h k = absurd (omega (arith, k))
object_loop-length (suc f) (suc g) s c h k =
    go (object_loop-length f g) (read_entry s) (read_entry-Behind s)
  where
    go :
        ((t : Bytes) (d : Collection)
          → length t ≤ f
          → length t ≤ g
          → object_loop f t d ≡ object_loop g t d)
        → (o : Option Entry) → Behind (length s) o
        → ◌≡◌ {A = Collection}
            (elim o [
              | none ↦ c
              | some (key, value, rest) ↦ object_loop f rest (assign key value c)
            ])
            (elim o [
              | none ↦ c
              | some (key, value, rest) ↦ object_loop g rest (assign key value c)
            ])
    go ih none r = refl
    go ih (some (key, value, rest)) r =
        ih rest (assign key value c) (omega (arith, h, r)) (omega (arith, k, r))
