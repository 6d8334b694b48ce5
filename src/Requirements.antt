-- ===== src/Requirements.antt =====
-- internal/requirements/requirements.go: which agent can run a job, and why none can.
-- `golang.org/x/mod/semver` is the parameter `semver`. A range over a map visits the keys in the
-- order of the association list; the source sorts what it collects.
pub mod Semver
pub mod Constraint
pub mod Diagnosis
pub mod Laws
mod Matching
mod Labels
unfoldable pub use Matching.*
unfoldable pub use Labels.*
