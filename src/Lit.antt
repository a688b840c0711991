-- ===== src/Lit.antt =====
-- lib/Clam/CfgBuilderLit.hh and CfgBuilderLit.cc: Crab literals and the factory that makes them.
mod Defs
mod Factory
pub mod Cache
pub mod Exact
pub mod Fresh
pub mod Sample
mod Tests
unfoldable pub use Defs.*
unfoldable pub use Factory.*
