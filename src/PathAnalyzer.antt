-- ===== src/PathAnalyzer.antt =====
-- lib/Clam/crab/path_analyzer.cc and path_analyzer.hpp: whether one path is feasible, and which of
-- its statements make it infeasible.
pub mod Slicing
pub mod Stored
pub mod Found
pub mod Post
pub mod Core
mod Sample
mod Tests
mod Defs
mod Slice
mod Minimize
mod Solve
unfoldable pub use Defs.*
unfoldable pub use Slice.*
unfoldable pub use Minimize.*
unfoldable pub use Solve.*
