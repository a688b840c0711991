-- ===== src/Builder/Phi/Tests.antt =====
-- Two PHI nodes that swap their values: %0 takes %1 and %1 takes %0, and a third takes 10.
use crab_llvm.Prelude.{◌≡◌, refl, true, false, some, List, [], ◌∷◌, All, arith}
use crab_llvm.Prelude.Int.{pos}
use crab_llvm.Llvm.{int, Value, type_of}
use crab_llvm.Lit.{Lit, LitState, find_lit}
use crab_llvm.Lit.Cache.{IsValid}
use crab_llvm.Lit.Fresh.{HasVars}
use crab_llvm.Lit.Sample.{
  sample_factory, sample_factory-IsVariableFactory, sample_params, empty_state, empty_state-IsValid,
}
use crab_llvm.Crab.{Stmt, Env, start, continues}
use crab_llvm.Crab.Run.{run}
use crab_llvm.Builder.Sample.{meaning, number, ten}
use crab_llvm.Builder.Phi.{PhiNode, is_phi_of, visit_phis}
use crab_llvm.Builder.Phi.Values.{value_of}
use crab_llvm.Builder.Phi.Moves.{IsActive}
use crab_llvm.Builder.Phi.Correct.{IsPhiBlock, visit_phis-atomic}

abbrev other : Value
other = Value.reg 1 (int 8)

abbrev third : Value
third = Value.reg 2 (int 8)

abbrev swap : List PhiNode
swap =
    record { node = number; incoming = other; shadow_name = false }
    ∷ record { node = other; incoming = number; shadow_name = false }
    ∷ record { node = third; incoming = ten; shadow_name = false }
    ∷ []

-- Each variable holds its own name.
abbrev env : Env
env = start (λ n. true) (λ n. pos n) (λ n. n) (λ n i. pos 0) (λ n. 0)

swap-IsPhiBlock : IsPhiBlock swap
unfolding type_of
swap-IsPhiBlock = record {
  regs = ((0, int 8, refl), ((1, int 8, refl), ((2, int 8, refl), tt)));
  distinct = ((λ e. ground arith, (λ e. ground arith, tt)), ((λ e. ground arith, tt), (tt, tt)));
  types = (refl, (refl, (refl, tt)));
}

no_literals : HasVars sample_factory sample_params empty_state
unfolding find_lit
no_literals i t l h e = ground arith

visit_phis-atomic_example :
    (code : List Stmt) × (fin : LitState) × (after : Env) × (visit_phis sample_factory sample_params
        swap empty_state
      ≡ some (code, fin))
    × IsValid sample_factory sample_params sample_factory-IsVariableFactory fin
    × (run meaning code env ≡ continues after)
    × All
        (λ p.
          IsActive sample_params p
          → (l k : Lit) × (find_lit p.node fin.cache ≡ some l)
            × (find_lit p.incoming fin.cache ≡ some k)
            × (value_of after l ≡ value_of env k))
        swap
    × ((v : Value) (m : Lit)
        → is_phi_of v swap ≡ false
        → find_lit v fin.cache ≡ some m
        → value_of after m ≡ value_of env m)
visit_phis-atomic_example =
    visit_phis-atomic sample_factory sample_params sample_factory-IsVariableFactory meaning env swap
      empty_state empty_state-IsValid no_literals swap-IsPhiBlock
