-- ===== src/Builder.antt =====
-- lib/Clam/CfgBuilder.cc: the translation of LLVM's instructions to Crab's statements.
pub mod Compare
pub mod Logic
pub mod Arithmetic
pub mod Verifier
pub mod Select
pub mod Casts
pub mod Visit
pub mod Edges
pub mod Phi
pub mod Memory
pub mod Call
mod Sample
mod Tests
