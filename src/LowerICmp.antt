-- ===== src/LowerICmp.antt =====
-- lib/Transforms/LowerUnsignedICmp.cc: the pass that lowers ULT and ULE.
-- A function is a table of blocks. Registers and labels stand for LLVM's pointers to instructions
-- and blocks; the two counters give the ones that the pass creates. An instruction that the pass
-- does not look into is `opaque`.
mod Code
mod Pass
pub mod Run
mod Signs
mod Steps
mod Walk
mod General
mod Constant
pub mod Signed
mod Tests
unfoldable pub use Code.*
unfoldable pub use Pass.*
