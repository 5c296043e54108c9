-- ===== src/Crd.antt =====
-- The custom resource `Rollout`: crd/rollout.rs, one child for each group of types. A text is a
-- native String, an `i32` an integer in its range, and an `f64` its 64-bit pattern.
mod Analysis
mod Strategy
mod Status
mod Spec
mod Equality
pub use Analysis.*
pub use Strategy.*
pub use Status.*
pub use Spec.*
unfoldable pub use Equality.*
