-- ===== src/Examples/Releases.antt =====
-- Two releases, by an order of versions that goes by the lengths of their texts, and a download.
use ciwi.Base.Result.{Result, ok}
use ciwi.Base.{String, ◌≡◌, true, ◌||◌, arith}
use Prim.Native.Nat.{compare}
use Prim.Native.String.{len}
use ciwi.Requirements.Semver.{Semver}
use ciwi.Updates.{is_version_newer, is_version_different}
use ciwi.Updates.Laws.{reversed, is_version_different-is_version_newer}

abbrev by_length : Semver
by_length = record { is_valid = λ v. true; compare_versions = λ v w. compare (len v) (len w) }

by_length-anti :
    (v w : String) → by_length.compare_versions w v ≡ reversed (by_length.compare_versions v w)
by_length-anti v w = ground arith

is_version_different-is_version_newer_example :
    is_version_different by_length "v1.10.0" "1.9.0"
    ≡ (is_version_newer by_length "v1.10.0" "1.9.0" || is_version_newer by_length "1.9.0" "v1.10.0")
is_version_different-is_version_newer_example =
    is_version_different-is_version_newer by_length by_length-anti "v1.10.0" "1.9.0"

abbrev checksums : String
checksums = "# sha256\nAB12 *ciwi-linux-amd64\n"

abbrev accepted_digest : Result String String
accepted_digest = ok "ab12"
