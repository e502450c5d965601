-- ===== src/Version/Laws.antt =====
-- `AutoVersion::cmp` as an order on versions, and the doc comment of src/AutoVersion.h against it.
use Prim.Native.Nat.{Ordering, lt, eq, gt}
use libappupdater.Prelude.{
  ℕ, Bytes, true, false, not, [], ◌∷◌, ◌≡◌, refl, ◌∙◌, arith, ◌==◌, is_digit, codes, if◌then◌else◌,
}
use libappupdater.Prelude.Int.{ℤ, eq_ℤ, lt_ℤ}
use libappupdater.Version.{AutoVersion, compare_component, is_zero, cmp, is_less}
use libappupdater.Version.Keys.{keys, and_then, compare_keys, IsPlain, IsPlainByte}
use libappupdater.Version.Order.{
  opposite, Chain, compare_keys_refl, compare_keys-swap, compare_keys_trans,
}
use libappupdater.Version.Refinement.{compare_component-keys}

-- Both components are plain.
pub record IsPlainVersion (v : AutoVersion) : Type 0 where
  pub upstream : IsPlain v.upstream
  pub revision : IsPlain v.revision

abbrev compare_epoch : ℤ → ℤ → Ordering
compare_epoch a b = if not (eq_ℤ a b) then (if lt_ℤ a b then lt else gt) else eq

-- The description of `cmp`: epochs, then the keys of the upstream versions, then of the revisions.
unfoldable pub order_of : AutoVersion → AutoVersion → Ordering
order_of v w = and_then (compare_epoch v.epoch w.epoch) (
    and_then (compare_keys (keys v.upstream) (keys w.upstream))
      (compare_keys (keys v.revision) (keys w.revision)))

steps_of_cmp :
    (a b : ℤ) (o p : Ordering)
    → (if not (eq_ℤ a b) then (if lt_ℤ a b then lt else gt) else if is_zero o then p else o)
      ≡ and_then (compare_epoch a b) (and_then o p)
steps_of_cmp a b o p = ground arith

-- On two versions whose texts have no blank, plus or minus, `cmp` is the lexicographic order of
-- epoch, upstream keys and revision keys.
pub cmp-order_of :
    (v w : AutoVersion) → IsPlainVersion v → IsPlainVersion w → cmp v w ≡ order_of v w
unfolding cmp order_of
cmp-order_of v w p q =
    rw
      (
        compare_component-keys v.upstream w.upstream p.upstream q.upstream,
        compare_component-keys v.revision w.revision p.revision q.revision,
      )
      (steps_of_cmp v.epoch w.epoch (compare_keys (keys v.upstream) (keys w.upstream))
        (compare_keys (keys v.revision) (keys w.revision)))

Chain-and_then :
    (o p q o' p' q' : Ordering)
    → Chain o p q
    → Chain o' p' q'
    → Chain (and_then o o') (and_then p p') (and_then q q')
Chain-and_then o p q o' p' q' h k = ground arith

opposite-and_then :
    (o p o' p' : Ordering)
    → o' ≡ opposite o
    → p' ≡ opposite p
    → and_then o' p' ≡ opposite (and_then o p)
opposite-and_then o p o' p' h k = ground arith

compare_epoch-swap : (a b : ℤ) → compare_epoch b a ≡ opposite (compare_epoch a b)
compare_epoch-swap a b = ground arith

compare_epoch_refl : (a : ℤ) → compare_epoch a a ≡ eq
compare_epoch_refl a = ground arith

order_of-swap : (v w : AutoVersion) → order_of w v ≡ opposite (order_of v w)
unfolding order_of
order_of-swap v w =
    opposite-and_then (compare_epoch v.epoch w.epoch) _ _ _ (compare_epoch-swap v.epoch w.epoch) (
      opposite-and_then (compare_keys (keys v.upstream) (keys w.upstream)) _ _ _
        (compare_keys-swap (keys v.upstream) (keys w.upstream))
        (compare_keys-swap (keys v.revision) (keys w.revision)))

compare_epoch-Chain :
    (a b c : ℤ) → Chain (compare_epoch a b) (compare_epoch b c) (compare_epoch a c)
compare_epoch-Chain a b c = ground arith

-- For two versions whose texts have no blank, plus or minus, turning the comparison round turns its
-- result round, and the first is equal to itself.
cmp-swap :
    (v w : AutoVersion)
    → IsPlainVersion v
    → IsPlainVersion w
    → (cmp w v ≡ opposite (cmp v w)) × (cmp v v ≡ eq)
cmp-swap v w p q = (
  rw (cmp-order_of w v q p, cmp-order_of v w p q) (order_of-swap v w),
  rw (cmp-order_of v v p p) (
      unfold order_of in
      rw (compare_epoch_refl v.epoch, compare_keys_refl (keys v.upstream))
        (compare_keys_refl (keys v.revision))),
)

-- Of three versions whose texts have no blank, plus or minus, the two steps determine the
-- comparison of the first and the last wherever an order does.
cmp_trans :
    (u v w : AutoVersion)
    → IsPlainVersion u
    → IsPlainVersion v
    → IsPlainVersion w
    → Chain (cmp u v) (cmp v w) (cmp u w)
cmp_trans u v w p q r =
    rw (cmp-order_of u v p q, cmp-order_of v w q r, cmp-order_of u w p r)
      (unfold order_of in
        Chain-and_then (compare_epoch u.epoch v.epoch) (compare_epoch v.epoch w.epoch)
          (compare_epoch u.epoch w.epoch) _ _ _ (compare_epoch-Chain u.epoch v.epoch w.epoch)
          (Chain-and_then (compare_keys (keys u.upstream) (keys v.upstream))
            (compare_keys (keys v.upstream) (keys w.upstream))
            (compare_keys (keys u.upstream) (keys w.upstream)) _ _ _
            (compare_keys_trans (keys u.upstream) (keys v.upstream) (keys w.upstream))
            (compare_keys_trans (keys u.revision) (keys v.revision) (keys w.revision))))

-- A letter: neither a digit nor a tilde, and nothing that `strtol` takes.
pub record IsLetter (c : ℕ) : Type 0 where
  pub plain : IsPlainByte c
  pub no_digit : is_digit c ≡ false
  pub no_tilde : (c == b'~') ≡ false

zero_IsPlainByte : IsPlainByte b'0'
zero_IsPlainByte = record {
  in_range = omega arith;
  no_space = refl;
  no_minus = refl;
  no_plus = refl;
}

zero_before_letter :
    (c : ℕ) (s : Bytes) → IsLetter c → compare_keys (keys (codes "0")) (keys (c ∷ s)) ≡ lt
unfolding keys compare_keys
zero_before_letter c s l = rw (l.no_digit, l.no_tilde) (ground arith)

lt-is_less : (v w : AutoVersion) → cmp v w ≡ lt → is_less v w ≡ true
unfolding is_less
lt-is_less v w h = rw (h, is_less)

-- When the texts have no blank, plus or minus, a version with no revision is below the same version
-- with a revision that begins with a letter, as in 2.11 and 2.11-beta.
pub bare_version_below_revision :
    (v : AutoVersion) (c : ℕ) (s : Bytes)
    → IsPlain v.upstream
    → IsLetter c
    → IsPlain s
    → is_less (record v { revision = codes "0" }) (record v { revision = c ∷ s }) ≡ true
bare_version_below_revision v c s h l t =
    let bare : AutoVersion = record v { revision = codes "0" } in
    let revised : AutoVersion = record v { revision = c ∷ s } in
    lt-is_less bare revised (
      cmp-order_of bare revised (record { upstream = h; revision = (zero_IsPlainByte, tt) })
        (record { upstream = h; revision = (l.plain, t) })
      ∙ (unfold order_of in
          rw (compare_epoch_refl v.epoch, compare_keys_refl (keys v.upstream))
            (zero_before_letter c s l)))

-- With a minus in an upstream version the comparison is no order: for a letter `c` and a digit `d`
-- that is not 0, c is above c-d, that is above c-, and that is above c.
pub minus_makes_cycle :
    (c d : ℕ)
    → IsLetter c
    → is_digit d ≡ true
    → (d == b'0') ≡ false
    → (compare_component (c ∷ []) (c ∷ b'-' ∷ d ∷ []) ≡ gt)
      × (compare_component (c ∷ b'-' ∷ d ∷ []) (c ∷ b'-' ∷ []) ≡ gt)
      × (compare_component (c ∷ b'-' ∷ []) (c ∷ []) ≡ gt)
unfolding compare_component
minus_makes_cycle c d l h z = (ground arith, ground arith, ground arith)
