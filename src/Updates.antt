-- ===== src/Updates.antt =====
-- internal/updateutil/updateutil.go: which release an installation takes and how it is verified.
-- golang.org/x/mod/semver is the parameter `semver`; the reading and hashing of a file are its digest
-- as an argument. `normalizeSemver` is the function of the same text in internal/requirements.
use ciwi.Base.{
  String, Bool, true, false, not, ◌&&◌, ◌||◌, Option, none, some, List, [], ◌∷◌, ◌==◌,
  if◌then◌else◌,
}
use ciwi.Base.Result.{Result, ok, err}
use ciwi.Base.Text.{is_space, trim_space, to_lower, trim_prefix, split_at}
use Prim.Native.Nat.{Ordering}
use Prim.Native.Char.{code}
use Prim.Native.String
use text.Mathlib.Text.{starts_with}
use ciwi.Requirements.Constraint.{normalize_semver}
use ciwi.Requirements.Semver.{Semver}
pub mod Laws
pub mod Verify

unfoldable pub expected_asset_name : String → String → String
expected_asset_name goos goarch =
    if goos == "linux" && goarch == "amd64"
    then "ciwi-linux-amd64"
    else if goos == "linux" && goarch == "arm64"
    then "ciwi-linux-arm64"
    else if goos == "darwin" && goarch == "amd64"
    then "ciwi-darwin-amd64.zip"
    else if goos == "darwin" && goarch == "arm64"
    then "ciwi-darwin-arm64.zip"
    else if goos == "windows" && goarch == "amd64"
    then "ciwi-windows-amd64.exe"
    else if goos == "windows" && goarch == "arm64"
    then "ciwi-windows-arm64.exe"
    else ""

abbrev pub is_greater : Ordering → Bool
is_greater Ordering.lt = false
is_greater Ordering.eq = false
is_greater Ordering.gt = true

abbrev pub is_unequal : Ordering → Bool
is_unequal Ordering.lt = true
is_unequal Ordering.eq = false
is_unequal Ordering.gt = true

-- Both tests: on two readable versions by their order, and else by their texts.
abbrev pub compared : (Ordering → Bool) → Semver → Option String → Option String → Bool → Bool
compared test semver (some a) (some b) differ = test (semver.compare_versions a b)
compared test semver (some a) none differ = differ
compared test semver none b differ = differ

abbrev pub texts_differ : String → String → Bool
texts_differ a b = not (trim_prefix a "v" == trim_prefix b "v")

module _ (semver : Semver) where
  unfoldable pub is_version_newer : String → String → Bool
  is_version_newer latest current =
      compared is_greater semver (normalize_semver semver latest) (normalize_semver semver current)
        (texts_differ latest current)

  unfoldable pub is_version_different : String → String → Bool
  is_version_different target current =
      compared is_unequal semver (normalize_semver semver target) (normalize_semver semver current)
        (texts_differ target current)

-- `strings.Fields`, behind the word that was begun.
unfoldable pub fields_from : String → String → List String
fields_from word String.[] = if word == "" then [] else word ∷ []
fields_from word (String.◌∷◌ c s) =
    let ended = fields_from "" s in
    let longer = fields_from (String.◌++◌ word (String.◌∷◌ c String.[])) s in
    if is_space (code c) then (if word == "" then ended else word ∷ ended) else longer

-- The last of the fields.
unfoldable pub last_field : List String → String
last_field [] = ""
last_field (word ∷ []) = word
last_field (word ∷ next ∷ words) = last_field (next ∷ words)

-- The digest of a line of the checksum file that names the asset.
unfoldable pub entry_digest : String → List String → Option String
entry_digest asset_name [] = none
entry_digest asset_name (word ∷ []) = none
entry_digest asset_name (word ∷ next ∷ words) =
    if trim_prefix (last_field (next ∷ words)) "*" == asset_name then some (to_lower word) else none

unfoldable pub wanted_digest : String → List String → String
wanted_digest asset_name [] = ""
wanted_digest asset_name (raw ∷ lines) =
    let line = trim_space raw in
    let rest = wanted_digest asset_name lines in
    if line == "" || starts_with line "#"
    then rest
    else elim (entry_digest asset_name (fields_from "" line)) [ none ↦ rest | some digest ↦ digest ]

-- `VerifyFileSHA256`: none where the file is the one that the checksums name.
unfoldable pub verify_file_sha256 : Result String String → String → String → Option String
verify_file_sha256 digest asset_name checksum_content =
    let want = wanted_digest asset_name (split_at b'\n' checksum_content) in
    if want == "" then some (String.◌++◌ "no checksum entry for " asset_name) else elim digest [
      | err e ↦ some e
      | ok got ↦
          if got == want
          then none
          else some
              (String.◌++◌ "sha256 mismatch: got=" (String.◌++◌ got (String.◌++◌ " want=" want)))
    ]
