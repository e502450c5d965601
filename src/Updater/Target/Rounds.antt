-- ===== src/Updater/Target/Rounds.antt =====
-- src/AutoUpdater.cpp: the loop of `GetTargetName` over directories with unique names.
use libappupdater.Prelude.{
  ℕ, zero, suc, ◌+◌, ◌<◌, Bytes, ◌++◌, ◌≡◌, ◌≢◌, refl, ap, ◌∙◌, subst, sym, arith,
}
use libappupdater.Updater.Target.{
  Created, created, already_exists, not_created, Directories, Search, searching, no_directory, made,
  make_directory,
}

-- The end of the loop at a directory that is not there already.
abbrev pub ended : Bytes → Created → Search
ended dir created = made dir
ended dir already_exists = searching
ended dir not_created = no_directory

make_directory_round :
    (d : Directories) (path : Bytes) (rounds i : ℕ)
    → d.create_directory (path ++ d.uuid i) ≡ already_exists
    → make_directory d path (suc rounds) i ≡ make_directory d path rounds (i + 1)
unfolding make_directory
make_directory_round d path rounds i e = rw (make_directory, e)

make_directory_end :
    (d : Directories) (path : Bytes) (rounds i : ℕ) (c : Created)
    → d.create_directory (path ++ d.uuid i) ≡ c
    → c ≢ already_exists
    → make_directory d path (suc rounds) i ≡ ended (path ++ d.uuid i) c
unfolding make_directory
make_directory_end d path rounds i created e ne = rw (make_directory, e)
make_directory_end d path rounds i already_exists e ne = absurd (ne refl)
make_directory_end d path rounds i not_created e ne = rw (make_directory, e)

-- The loop ends in the first round whose directory is not there already, in any number of rounds
-- that reaches it: with the directory if it can be created, and with the exception otherwise.
pub make_directory-ended :
    (d : Directories) (path : Bytes) (k i more : ℕ)
    → ((j : ℕ) → j < k → d.create_directory (path ++ d.uuid (i + j)) ≡ already_exists)
    → d.create_directory (path ++ d.uuid (i + k)) ≢ already_exists
    → make_directory d path (suc (k + more)) i
      ≡ ended (path ++ d.uuid (i + k)) (d.create_directory (path ++ d.uuid (i + k)))
make_directory-ended d path zero i more h ne =
    let here : i + 0 ≡ i = omega arith in
    make_directory_end d path (0 + more) i (d.create_directory (path ++ d.uuid i)) refl
      (subst (λ n. d.create_directory (path ++ d.uuid n) ≢ already_exists) here ne)
    ∙ ap (λ n. ended (path ++ d.uuid n) (d.create_directory (path ++ d.uuid n))) {y = i + 0}
        (omega arith)
make_directory-ended d path (suc k) i more h ne =
    ap (λ n. make_directory d path n i) {y = suc (suc (k + more))} (omega arith)
    ∙ make_directory_round d path (suc (k + more)) i (
        subst (λ n. d.create_directory (path ++ d.uuid n) ≡ already_exists) here
          (h 0 (omega arith)))
    ∙ make_directory-ended d path k (i + 1) more
        (λ j lt.
          subst (λ n. d.create_directory (path ++ d.uuid n) ≡ already_exists) (next j)
            (h (suc j) (omega (arith, lt))))
        (subst (λ n. d.create_directory (path ++ d.uuid n) ≢ already_exists) (next k) ne)
    ∙ ap (λ n. ended (path ++ d.uuid n) (d.create_directory (path ++ d.uuid n))) (sym (next k))
  where
    here : i + 0 ≡ i
    here = omega arith

    next : (j : ℕ) → i + suc j ≡ i + 1 + j
    next j = omega arith
