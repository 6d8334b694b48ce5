-- ===== src/Updates/Laws.antt =====
-- How "newer" and "different" relate.
use ciwi.Base.{String, ◌≡◌, refl, Bool, ◌||◌, Option, none, some, arith, eq_iff}
use ciwi.Base.Text.{trim_prefix}
use Prim.Native.Nat.{Ordering}
use ciwi.Requirements.Constraint.{normalize_semver}
use ciwi.Requirements.Semver.{Semver}
use ciwi.Updates.{
  is_greater, is_unequal, compared, texts_differ, is_version_newer, is_version_different,
}

abbrev pub reversed : Ordering → Ordering
reversed Ordering.lt = Ordering.gt
reversed Ordering.eq = Ordering.eq
reversed Ordering.gt = Ordering.lt

one_greater : (o : Ordering) → is_unequal o ≡ (is_greater o || is_greater (reversed o))
one_greater Ordering.lt = refl
one_greater Ordering.eq = refl
one_greater Ordering.gt = refl

compared-either :
    (semver : Semver) (a b : Option String) (differ differ' : Bool)
    → ((v w : String) → semver.compare_versions w v ≡ reversed (semver.compare_versions v w))
    → differ' ≡ differ
    → compared is_unequal semver a b differ
      ≡ (compared is_greater semver a b differ || compared is_greater semver b a differ')
compared-either semver (some v) (some w) differ differ' anti same =
    rw (anti v w) (one_greater (semver.compare_versions v w))
compared-either semver (some v) none differ differ' anti same = ground arith
compared-either semver none (some w) differ differ' anti same = ground arith
compared-either semver none none differ differ' anti same = ground arith

differ_sym : (a b : String) → texts_differ b a ≡ texts_differ a b
differ_sym a b = ground (
  arith,
  eq_iff (trim_prefix a "v") (trim_prefix b "v"),
  eq_iff (trim_prefix b "v") (trim_prefix a "v"),
)

-- Where the order of versions does not depend on the side, two versions are different exactly when
-- one of them is newer than the other.
pub is_version_different-is_version_newer :
    (semver : Semver)
    → ((v w : String) → semver.compare_versions w v ≡ reversed (semver.compare_versions v w))
    → (a b : String)
    → is_version_different semver a b ≡ (is_version_newer semver a b || is_version_newer semver b a)
unfolding is_version_different is_version_newer
is_version_different-is_version_newer semver anti a b =
    compared-either semver (normalize_semver semver a) (normalize_semver semver b)
      (texts_differ a b) (texts_differ b a) anti (differ_sym a b)
