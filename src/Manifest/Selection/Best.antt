-- ===== src/Manifest/Selection/Best.antt =====
-- Which item `best_match` chooses.
use libappupdater.Manifest.{AutoManifest}
use libappupdater.Manifest.Selection.{System, selection_weight, best_loop, best_match}
use libappupdater.Prelude.{
  ℕ, ◌<◌, ◌≤◌, Bool, true, false, List, [], ◌∷◌, Option, none, some, ◌≡◌, refl, ap, arith, All, ltb,
  ltb→lt, ◌==◌, if◌then◌else◌,
}

ltb→ge : (a b : ℕ) → ltb a b ≡ false → b ≤ a
ltb→ge a b h = ground arith

module _ (sys : System) where
  -- No item of a list outweighs `w`.
  abbrev pub AtMost : ℕ → List AutoManifest → Type 0
  AtMost w ms = All (λ m. selection_weight sys m ≤ w) ms

  -- The item is the first of the greatest weight.
  pub data IsFirstBest : List AutoManifest → AutoManifest → Type 0 where
    here :
        {m : AutoManifest} {ms : List AutoManifest}
        → AtMost (selection_weight sys m) ms
        → IsFirstBest (m ∷ ms) m
    there :
        {n m : AutoManifest} {ms : List AutoManifest}
        → selection_weight sys n < selection_weight sys m
        → IsFirstBest ms m
        → IsFirstBest (n ∷ ms) m

  IsFirstBest-head :
      {n m : AutoManifest} {ms : List AutoManifest}
      → IsFirstBest (n ∷ ms) m
      → selection_weight sys n ≤ selection_weight sys m
  IsFirstBest-head (here h) = omega arith
  IsFirstBest-head (there h r) = omega (arith, h)

  -- A second item that does not outweigh the first is not chosen.
  IsFirstBest-insert :
      {n m : AutoManifest} {ms : List AutoManifest} (k : AutoManifest)
      → selection_weight sys k ≤ selection_weight sys n
      → IsFirstBest (n ∷ ms) m
      → IsFirstBest (n ∷ k ∷ ms) m
  IsFirstBest-insert k le (here h) = here (le, h)
  IsFirstBest-insert k le (there h r) = there h (there (omega (arith, le, h)) r)

  -- A result of the loop: the item and its weight.
  abbrev IsResult : List AutoManifest → AutoManifest × ℕ → Type 0
  IsResult ms r = IsFirstBest ms (r.0) × (r.1 ≡ selection_weight sys (r.0))

  IsResult-if :
      {ms : List AutoManifest} (b : Bool) (x y : AutoManifest × ℕ)
      → (b ≡ true → IsResult ms x)
      → (b ≡ false → IsResult ms y)
      → IsResult ms (if b then x else y)
  IsResult-if true x y f g = f refl
  IsResult-if false x y f g = g refl

  best_loop-IsResult :
      (n : AutoManifest) (ms : List AutoManifest)
      → IsResult (n ∷ ms) (best_loop sys n (selection_weight sys n) ms)
  unfolding best_loop
  best_loop-IsResult n [] = (here tt, refl)
  best_loop-IsResult n (k ∷ ms) =
      IsResult-if (ltb (selection_weight sys n) (selection_weight sys k)) _ _
        (λ e.
          let rest = best_loop-IsResult k ms in
          let head = IsFirstBest-head (rest.0) in
          (
            there (omega (arith, ltb→lt (selection_weight sys n) (selection_weight sys k) e, head))
                (rest.0),
            rest.1,
          ))
        (λ e.
          let rest = best_loop-IsResult n ms in
          (
            IsFirstBest-insert k (ltb→ge (selection_weight sys n) (selection_weight sys k) e)
                (rest.0),
            rest.1,
          ))

  -- What `best_match` returns for the item it has chosen.
  abbrev pub chosen : AutoManifest → Option AutoManifest
  chosen n =
      if selection_weight sys n == 0
      then none
      else some (record n { weight = selection_weight sys n })

  -- Of a list that is not empty, `best_match` takes the first of the items of the greatest weight;
  -- it returns this item with its weight set, or nothing when that weight is 0.
  pub best_match-IsFirstBest :
      (m : AutoManifest) (ms : List AutoManifest)
      → (n : AutoManifest) × IsFirstBest (m ∷ ms) n × (best_match sys (m ∷ ms) ≡ chosen n)
  unfolding best_match
  best_match-IsFirstBest m ms =
      let best = best_loop sys m (selection_weight sys m) ms in
      let (first, weight) = best_loop-IsResult m ms in
      (
        best.0,
        first,
        ap (λ (w : ℕ). if w == 0 then none else some (record (best.0) { weight = w })) weight,
      )
