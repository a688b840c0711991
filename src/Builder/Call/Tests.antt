-- ===== src/Builder/Call/Tests.antt =====
-- A call of a function from i8 to i8 that modifies an array, and its declaration.
use crab_llvm.Prelude.{◌≡◌, refl, false, none, some, Option, [], ◌∷◌, ℕ_discrete, arith}
use crab_llvm.Llvm.{int, Value, type_of}
use crab_llvm.Utils.Types.{CrabBuilderParams, Precision}
use crab_llvm.Lit.{
  Var, find_lit, get_lit, make_lit, get_int_lit, get_bool_lit, get_ptr_lit, remember, Region,
  RegionType,
}
use crab_llvm.Lit.Sample.{sample_factory, sample_params, empty_state}
use crab_llvm.Builder.Sample.{number}
use crab_llvm.Builder.Call.{Effects, Signature, call_signature, declared_signature}
use crab_llvm.Builder.Call.Types.{AreTyped}
use crab_llvm.Builder.Call.Regions.{AreAlike}
use crab_llvm.Builder.Call.Interface.{call_signature-declared_signature}

abbrev arr_params : CrabBuilderParams
arr_params = record sample_params { precision_level = Precision.arr }

abbrev result : Value
result = Value.reg 5 (int 8)

abbrev formal : Value
formal = Value.reg 10 (int 8)

abbrev cells : Region
cells = record {
  id = 1;
  region_type = RegionType.int_region;
  region_bitwidth = 8;
  singleton = none;
}

abbrev effects : Effects
effects = record { only_reads = []; mods = cells ∷ []; news = [] }

abbrev or_empty : Option Signature → Signature
or_empty none = record { code = []; inputs = []; outputs = []; lits = empty_state }
or_empty (some sig) = sig

abbrev call : Signature
call =
    or_empty
      (call_signature sample_factory arr_params result (int 8) (number ∷ []) effects empty_state)

abbrev declaration : Signature
declaration = or_empty (
    declared_signature sample_factory arr_params false none (int 8) (formal ∷ []) effects
      empty_state)

call_known :
    call_signature sample_factory arr_params result (int 8) (number ∷ []) effects empty_state
    ≡ some call
unfolding call_signature get_lit find_lit make_lit get_int_lit get_bool_lit get_ptr_lit remember
    ℕ_discrete
call_known = refl

declaration_known :
    declared_signature sample_factory arr_params false none
      (int 8)
      (formal ∷ [])
      effects
      empty_state
    ≡ some declaration
unfolding declared_signature get_lit find_lit make_lit get_int_lit get_bool_lit get_ptr_lit remember
    ℕ_discrete
declaration_known = refl

empty_state-AreTyped : AreTyped empty_state
unfolding find_lit
empty_state-AreTyped v l h = absurd (nothing h)
  where
    nothing : ¬ (none ≡ some l)
    nothing q = ground arith

no_variable : (x : Var) → ¬ (none ≡ some x)
no_variable x q = ground arith

call_signature-declared_signature_example : AreAlike call declaration
unfolding type_of
call_signature-declared_signature_example =
    call_signature-declared_signature sample_factory arr_params result (int 8) (number ∷ [])
      (formal ∷ []) none effects empty_state empty_state call declaration empty_state-AreTyped
      empty_state-AreTyped refl (refl, tt) (λ x h. absurd (no_variable x h)) (refl, tt) call_known
      declaration_known
