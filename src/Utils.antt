-- ===== src/Utils.antt =====
-- lib/Clam/CfgBuilderUtils.cc and the parameters of include/clam/CfgBuilderParams.hh: the predicates
-- on types and values, integer constants, the names of the verifier's functions.
pub mod Types
pub mod Numbers
pub mod Names
pub mod Uses
mod Tests
