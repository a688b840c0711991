-- ===== src/Lib.antt =====
-- Clam translates LLVM's intermediate code to the control-flow graphs of the Crab analyzer. This
-- library models the passes and the parts of the translation that decide what Crab is told about
-- a function: integer constants, literals, comparisons, arithmetic, logic, casts, selects,
-- conditional edges, PHI nodes, loads and stores, the parameters of calls, and calls of
-- the verifier's functions; the pass that resolves indirect calls; and the analyzer of single paths.
--
-- Parts, their files here and in the repository:
-- - Llvm, CmpInst: LLVM's types, values and integer comparisons, as far as the code reads them; a
--   comparison's meaning on bit patterns is that of LLVM's language reference.
-- - LowerICmp: lib/Transforms/LowerUnsignedICmp.cc. LowerICmp/Code has functions of labelled
--   blocks and LLVM's calls that edit them, LowerICmp/Pass the pass (mkNonNegative,
--   isNonNegIntCst, normalizeCmpInst, processUnsignedICmp, runOnFunction); LowerICmp/Run executes
--   blocks, and Signs, Steps, Walk, General, Constant and Signed are about what the new code
--   computes.
-- - Utils: lib/Clam/CfgBuilderUtils.cc and include/clam/CfgBuilderParams.hh. Types has the tests
--   on types and calls, Numbers isSignedBigNum, toZNumber and getIntConstant, Names the names of
--   the verifier's functions, Uses the questions about the users of a value.
-- - Lit: lib/Clam/CfgBuilderLit.hh and CfgBuilderLit.cc. Defs has crabLit and its classes, Factory
--   crabLitFactoryImpl with its cache, and the types of regions of include/clam/HeapAbstraction.hh;
--   Cache and Exact are about the cache and about which literal a value gets.
-- - Crab: the statements that the builder appends to Crab's blocks, and their meaning. Crab is no
--   part of the repository: a statement stands for the builder's call, and what Crab computes for
--   arithmetic, casts, unsigned constraints, havoc, new objects and ranges of arrays is the
--   parameter Meaning; Builder/Arithmetic/Documented has LLVM's results of the opcodes and what
--   Crab documents of its operations, which the results on arithmetic take as a hypothesis. An
--   array has a value at each index; that accesses of different sizes overlap is not modelled.
-- - Builder: lib/Clam/CfgBuilder.cc. Compare has havoc and the cmpInstToCrab functions, Logic
--   doBoolLogicOp, Arithmetic doBinOp, doArithmetic and doIntLogicOp, Verifier doVerifierCall,
--   Select visitSelectInst (Select/Correct is about integers, Select/Booleans about Booleans),
--   Casts visitCastInst and normalizeFuncParamOrRet, Visit visitCmpInst and visitBinaryOperator,
--   Edges exec_edge with the blocks and edges of the graph. Phi has CrabPhiVisitor: its first
--   loop saves the old versions of PHI nodes (Olds, Save and Loop are about it), its second
--   assigns (Assign and Moves), and Correct puts them together. Memory has the regions of
--   lib/Clam/CfgBuilderMemRegions.hh and inferArrayIndex, Memory/Store doStoreInst and
--   visitStoreInst, Memory/Load doLoadInst and visitLoadInst, Memory/Alloc visitAllocaInst,
--   doAllocFn and doMemIntrinsic, Memory/Init doGlobalInitializer; Cells, Scalars, RoundTrip,
--   Narrow, Leaves and Updates are about them. Call has the parameters of a call in visitCallInst
--   and of the declaration in build_cfg; Types, Arguments, Returns, Regions and Interface are
--   about the two. Each part takes the literals of its operands from the factory, in the order of
--   the source, and returns the statements that it appends with the new state. The heap analysis,
--   the static offsets of pointers and the sizes of types are parameters (Builder.Memory.Layout).
-- - PathAnalyzer: lib/Clam/crab/path_analyzer.cc and path_analyzer.hpp, over an abstract domain
--   that is a parameter (Defs). Slice has remove_irrelevant_statements, Minimize minimize_path,
--   Solve solve_path, solve and the queries; Slicing, Core, and Found and Stored with
--   Post are about the three.
-- - Devirt: lib/Transforms/DevirtFunctions.cc and include/clam/Transforms/DevirtFunctions.hh.
--   ByTypes and ByDsa have the two resolvers, with the pointer analysis as a parameter, Blocks
--   the code of the bounce functions and its runs, Pass the visitor, mkBounceFn, mkDirectCall and
--   resolveCallSites for any resolver, Resolvers the two as instances; Dispatch, Resolve, Sorted,
--   AliasSets, TypeResolver and DsaResolver are about them.
-- - PromoteAssume: lib/Transforms/PromoteAssume.cc, on the instructions of all blocks of a function,
--   each with its block, and with the code of the other functions, where a value may have users
--   too. Paths says what code assumes on a path through the blocks, Sound and Exact compare the
--   code before and after the pass, and Clear is about code of which no call is dropped.
--
-- Numbers and failure: a bit pattern is a natural number below 2 ^ w, and its signed value an
-- integer; Crab's integers have no bounds. `none` is the error exit CLAM_ERROR or a failed
-- assertion. Warnings, debug output, debug locations and value names are left out.
--
-- Bounds and fuel: the loops over instructions, blocks, uses and statements are recursion on
-- lists. Two runs of generated code have fuel. LowerICmp.Run.phi_value takes one unit for each
-- edge; lowered_value gives three, and the new code has no longer way from the first block to the
-- PHI node, as the results on it say by giving its value. Devirt.Blocks.run takes one unit for
-- each block; one for each target and one more are enough, as the result on it says.
--
-- Not modelled: GEP, the other cases of visitCallInst and the loop of build_cfg of CfgBuilder.cc,
-- its map from statements back to instructions, the heap abstractions and shadow memory (they
-- read SeaDsa's and DSA's graphs, which are no part of the repository; the PHI nodes and the
-- memory instructions are modelled as they are without ShadowMem), the driver Clam.cc, the other
-- passes, the tools and scripts.
pub mod Prelude
pub mod Llvm
pub mod CmpInst
pub mod Utils
pub mod Lit
pub mod LowerICmp
pub mod Crab
pub mod Builder
pub mod PathAnalyzer
pub mod Devirt
pub mod PromoteAssume
