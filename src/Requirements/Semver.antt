-- ===== src/Requirements/Semver.antt =====
-- The two functions of golang.org/x/mod/semver that the program calls.
use Prim.Native.Nat.{Ordering}
use ciwi.Base.{String, Bool}

pub record Semver : Type 0 where
  pub is_valid : String → Bool
  pub compare_versions : String → String → Ordering
