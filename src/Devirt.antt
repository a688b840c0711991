-- ===== src/Devirt.antt =====
-- lib/Transforms/DevirtFunctions.cc and include/clam/Transforms/DevirtFunctions.hh: indirect calls
-- are replaced by calls of functions that compare the pointer with the possible targets.
pub mod Dispatch
pub mod Resolve
pub mod Sorted
pub mod AliasSets
pub mod TypeResolver
pub mod DsaResolver
mod Sample
mod Tests
mod Defs
mod ByTypes
mod ByDsa
mod Blocks
mod Pass
mod Resolvers
unfoldable pub use Defs.*
unfoldable pub use ByTypes.*
unfoldable pub use ByDsa.*
unfoldable pub use Blocks.*
unfoldable pub use Pass.*
unfoldable pub use Resolvers.*
