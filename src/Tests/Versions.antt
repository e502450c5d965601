-- ===== src/Tests/Versions.antt =====
-- Versions: src/AutoVersion.cpp.
use Prim.Native.Nat.{lt, gt}
use libappupdater.Prelude.{true, ◌≡◌, refl, arith, codes}
use libappupdater.Prelude.Int.{pos}
use libappupdater.Tests.Inputs.{IsPlain-of}
use libappupdater.Version.{
  AutoVersion, new_version, to_text, cmp, is_less, compare, compare_component,
}
use libappupdater.Version.Laws.{
  IsPlainVersion, IsLetter, order_of, cmp-order_of, bare_version_below_revision, minus_makes_cycle,
}
use libappupdater.Version.RoundTrip.{IsPrintable, new_version-to_text}

abbrev candidate : AutoVersion
candidate = record { epoch = pos 0; upstream = codes "1.2.0~rc1"; revision = codes "0" }

abbrev final : AutoVersion
final = record { epoch = pos 0; upstream = codes "1.2.0"; revision = codes "0" }

abbrev next : AutoVersion
next = record { epoch = pos 2; upstream = codes "0.10"; revision = codes "b" }

candidate-IsPlainVersion : IsPlainVersion candidate
candidate-IsPlainVersion = record {
  upstream = IsPlain-of (codes "1.2.0~rc1") refl;
  revision = IsPlain-of (codes "0") refl;
}

final-IsPlainVersion : IsPlainVersion final
final-IsPlainVersion = record {
  upstream = IsPlain-of (codes "1.2.0") refl;
  revision = IsPlain-of (codes "0") refl;
}

next-IsPlainVersion : IsPlainVersion next
next-IsPlainVersion = record {
  upstream = IsPlain-of (codes "0.10") refl;
  revision = IsPlain-of (codes "b") refl;
}

b-IsLetter : IsLetter b'b'
b-IsLetter = record { plain = (IsPlain-of (codes "b") refl).0; no_digit = refl; no_tilde = refl }

cmp-order_of_example : cmp candidate final ≡ order_of candidate final
cmp-order_of_example = cmp-order_of candidate final candidate-IsPlainVersion final-IsPlainVersion

bare_version_below_revision_example :
    is_less (record final { revision = codes "0" }) (record final { revision = codes "beta" })
    ≡ true
bare_version_below_revision_example =
    bare_version_below_revision final b'b' (codes "eta") (IsPlain-of (codes "1.2.0") refl)
      b-IsLetter (IsPlain-of (codes "eta") refl)

minus_makes_cycle_example :
    (compare_component (codes "b") (codes "b-2") ≡ gt)
    × (compare_component (codes "b-2") (codes "b-") ≡ gt)
    × (compare_component (codes "b-") (codes "b") ≡ gt)
minus_makes_cycle_example = minus_makes_cycle b'b' b'2' b-IsLetter refl refl

next-IsPrintable : IsPrintable next
next-IsPrintable = record {
  epoch_fits = omega arith;
  revision_minus = (refl, tt);
  bare_minus = λ e. (refl, (refl, (refl, (refl, tt))));
  upstream_colon = λ e. (refl, (refl, (refl, (refl, tt))));
  revision_colon = λ e. (refl, tt);
}

new_version-to_text_example : new_version (to_text next) ≡ next
new_version-to_text_example = new_version-to_text next next-IsPrintable

candidate_is_less : compare (codes "1.2.0~rc1") (codes "1.2.0") ≡ lt
unfolding compare
candidate_is_less = refl

point_before_letter : compare (codes "1.") (codes "1a") ≡ lt
unfolding compare
point_before_letter = refl

number_before_year : compare (codes "7") (codes "2003") ≡ lt
unfolding compare
number_before_year = refl

zero_behind : compare (codes "1.0") (codes "1") ≡ gt
unfolding compare
zero_behind = refl
